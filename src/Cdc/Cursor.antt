-- ===== src/Cdc/Cursor.antt =====
-- cdc.rs: the decoder of change records.
use voodoo_store.Prelude.{ℕ, Bool, true, false, not, ◌&&◌, Option, none, some, ◌==◌, if◌then◌else◌}
use voodoo_store.Result.{Result, ok, err, fail_if}
use voodoo_store.Exec.{pure, raise, lift, gets, ◌>>=◌, ◌>>◌}
use voodoo_store.Bytes.{Bytes}
use voodoo_store.Bytes.Cursor
use voodoo_store.Bytes.Cursor.{finished}
use voodoo_store.Cdc.Record.{ChangeKind, put, delete, ChangeRecord, ChangeFeedError, corrupt_record}

abbrev pub Decoder : Type 0 → Type 0
Decoder A = Cursor.Decoder ChangeFeedError A

abbrev pub take_u8 : Decoder ℕ
take_u8 = Cursor.take_u8 corrupt_record

abbrev pub take_u32 : Decoder ℕ
take_u32 = Cursor.take_u32 corrupt_record

abbrev pub take_u64 : Decoder ℕ
take_u64 = Cursor.take_u64 corrupt_record

abbrev pub take_bytes : ℕ → Decoder Bytes
take_bytes = Cursor.take_bytes corrupt_record

abbrev pub take_field : Decoder Bytes
take_field = Cursor.take_field corrupt_record

abbrev pub is_put : ChangeKind → Bool
is_put put = true
is_put delete = false

-- The `match` on the byte of the kind.
unfoldable pub kind_of : ℕ → Result ChangeFeedError ChangeKind
kind_of n = if n == 0 then ok put else if n == 1 then ok delete else err corrupt_record

unfoldable pub some_value : Decoder (Option ℕ × Option Bytes)
some_value = do len ← take_u64; hash ← take_bytes 32; pure (some len, some hash)

-- The `match` on the byte before the value.
unfoldable pub take_value : ChangeKind → ℕ → Decoder (Option ℕ × Option Bytes)
take_value kind n =
    if n == 0 && not (is_put kind)
    then pure (none, none)
    else if n == 1 && is_put kind
    then some_value
    else raise corrupt_record

unfoldable pub take_version : Decoder (Unit {0})
take_version = do version ← take_u8; lift (fail_if (not (version == 1)) corrupt_record)

unfoldable pub take_kind : Decoder ChangeKind
take_kind = do n ← take_u8; lift (kind_of n)

-- The last test.
unfoldable pub end_change : ChangeRecord → Decoder ChangeRecord
end_change change = do all ← gets finished; lift (fail_if (not all) corrupt_record); pure change

unfoldable pub take_change : Decoder ChangeRecord
take_change = do
  take_version
  tx_id ← take_u64
  sequence ← take_u32
  kind ← take_kind
  key ← take_field
  tag ← take_u8
  value ← take_value kind tag
  end_change (record {
    tx_id = tx_id;
    sequence = sequence;
    kind = kind;
    key = key;
    value_len = value.0;
    value_sha256 = value.1;
  })

unfoldable pub decode_change : Bytes → Result ChangeFeedError ChangeRecord
decode_change encoded = (take_change (record { bytes = encoded; pos = 0 })).0
