-- ===== src/Cdc/RoundTrip.antt =====
-- cdc.rs: decoding a change record gives back what was encoded.
use voodoo_store.Prelude.{ℕ, ◌^◌, ◌<◌, ◌≡◌, refl, sym, Option, none, some, ◌++◌, length}
use voodoo_store.Bytes.{Bytes, to_le_bytes}
use voodoo_store.Cdc.Record.{ChangeKind, put, delete, ChangeRecord, corrupt_record}
use voodoo_store.Bytes.Cursor.Reads.{
  Reads, Reads-bind, Reads-pure, take_u64-Reads, take_bytes-Reads,
}
use voodoo_store.Cdc.Cursor.{some_value}

-- What `encode_change` writes of a value, and for which kind of change.
abbrev pub FitsValue : ChangeKind → Option ℕ → Option Bytes → Type 0
FitsValue put (some len) (some hash) = (len < 2 ^ 64) × (length hash ≡ 32)
FitsValue put (some len) none = ⊥
FitsValue put none hash = ⊥
FitsValue delete none none = Unit {0}
FitsValue delete none (some hash) = ⊥
FitsValue delete (some len) hash = ⊥

-- The fields of a change fit their machine types, and it has a value exactly if it is a put.
pub record FitsChange (c : ChangeRecord) : Type 0 where
  pub tx_id : c.tx_id < 2 ^ 64
  pub sequence : c.sequence < 2 ^ 32
  pub key : length c.key < 2 ^ 32
  pub value : FitsValue c.kind c.value_len c.value_sha256

pub some_value-Reads :
    (len : ℕ) (hash : Bytes)
    → len < 2 ^ 64
    → length hash ≡ 32
    → Reads some_value (to_le_bytes 8 len ++ hash) (some len, some hash)
unfolding some_value
some_value-Reads len hash h k =
    Reads-bind _ (take_u64-Reads corrupt_record len h)
      (Reads-pure (λ x. (some len, some x)) (take_bytes-Reads corrupt_record hash 32 (sym k)) refl)
