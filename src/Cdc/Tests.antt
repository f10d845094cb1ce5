-- ===== src/Cdc/Tests.antt =====
-- cdc.rs at concrete inputs: a put of two bytes, and a feed of that change alone.
use voodoo_store.Prelude.{◌≡◌, refl, none, some, [], ◌∷◌, take, arith}
use voodoo_store.Result.{ok, ◌>>=◌}
use voodoo_store.Bytes.{Bytes, slice, from_le_bytes, starts_with}
use voodoo_store.Engine.Payload.{State}
use voodoo_store.Cdc.Record.{ChangeRecord, put, delete, change_key, encode_change}
use voodoo_store.Cdc.Cursor.{decode_change}
use voodoo_store.Cdc.RoundTrip.{FitsChange}
use voodoo_store.Cdc.Decoded.{decode_change-encode_change}
use voodoo_store.Cdc.Reader.{changes_after, decode_all}
use voodoo_store.Cdc.Selection.{unseen, changes_after_lem}

abbrev change : ChangeRecord
change = record {
  tx_id = 1;
  sequence = 0;
  kind = delete;
  key = b'a' ∷ [];
  value_len = none;
  value_sha256 = none;
}

change-FitsChange : FitsChange change
change-FitsChange = record {
  tx_id = omega arith;
  sequence = omega arith;
  key = omega arith;
  value = tt;
}

decode_change-encode_change_example : (encode_change change >>= decode_change) ≡ ok change
decode_change-encode_change_example = decode_change-encode_change change change-FitsChange

abbrev state : State
state =
    (
      change_key 1 0,
      1 ∷ 1 ∷ 0 ∷ 0 ∷ 0 ∷ 0 ∷ 0 ∷ 0 ∷ 0 ∷ 0 ∷ 0 ∷ 0 ∷ 0 ∷ 1 ∷ 1 ∷ 0 ∷ 0 ∷ 0 ∷ b'a' ∷ 0 ∷ [],
    )
    ∷ []

changes_after_lem_example :
    changes_after (some 0) 5 state ≡ ok (take 5 (unseen (some 0) (change ∷ [])))
unfolding decode_all change_key decode_change from_le_bytes slice starts_with
    voodoo_store.Bytes.bytes_lt voodoo_store.Bytes.to_le_bytes voodoo_store.Cdc.Cursor.end_change
    voodoo_store.Bytes.Cursor.finished voodoo_store.Bytes.Cursor.get_range
    voodoo_store.Cdc.Cursor.kind_of voodoo_store.Cdc.Cursor.some_value
    voodoo_store.Bytes.Cursor.take_bytes voodoo_store.Cdc.Cursor.take_change
    voodoo_store.Bytes.Cursor.take_field voodoo_store.Cdc.Cursor.take_kind
    voodoo_store.Bytes.Cursor.take_u32 voodoo_store.Bytes.Cursor.take_u64
    voodoo_store.Bytes.Cursor.take_u8 voodoo_store.Cdc.Cursor.take_value
    voodoo_store.Cdc.Cursor.take_version voodoo_store.Cdc.Record.change_tx_prefix
    voodoo_store.Engine.Store.filter_prefix voodoo_store.Engine.Store.scan_prefix
    voodoo_store.Map.insert_sorted voodoo_store.Map.sort_by_key
changes_after_lem_example = changes_after_lem (some 0) 5 state (change ∷ []) refl
