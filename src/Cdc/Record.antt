-- ===== src/Cdc/Record.antt =====
-- cdc.rs: change records, their keys, and their encoding.
use voodoo_store.Prelude.{ℕ, Option, none, some, [], ◌∷◌, ◌++◌, length}
use voodoo_store.Result.{Result, ok, err, ok_or, ◌>>=◌}
use voodoo_store.Bytes.{Bytes, to_le_bytes, to_be_bytes}
use voodoo_store.Bytes.Words.{to_u32}
use voodoo_store.Engine.Payload.{EngineError, invalid_operation_payload}

-- b"\xffvds:cdc:change:"
abbrev pub cdc_prefix : Bytes
cdc_prefix =
    0xff ∷ b'v' ∷ b'd' ∷ b's' ∷ b':' ∷ b'c' ∷ b'd' ∷ b'c' ∷ b':' ∷ b'c' ∷ b'h' ∷ b'a' ∷ b'n' ∷ b'g'
    ∷ b'e' ∷ b':' ∷ []

pub data ChangeKind : Type 0 where
  put delete : ChangeKind

pub record ChangeRecord : Type 0 where
  pub tx_id : ℕ
  pub sequence : ℕ
  pub kind : ChangeKind
  pub key : Bytes
  pub value_len : Option ℕ
  pub value_sha256 : Option Bytes

pub data ChangeFeedError : Type 0 where
  store : EngineError → ChangeFeedError
  corrupt_record field_too_large : ChangeFeedError

unfoldable pub map_cdc_error : ChangeFeedError → EngineError
map_cdc_error (store error) = error
map_cdc_error corrupt_record = invalid_operation_payload
map_cdc_error field_too_large = invalid_operation_payload

unfoldable pub change_tx_prefix : ℕ → Bytes
change_tx_prefix tx_id = cdc_prefix ++ to_be_bytes 8 tx_id

unfoldable pub change_key : ℕ → ℕ → Bytes
change_key tx_id sequence = change_tx_prefix tx_id ++ to_be_bytes 4 sequence

abbrev pub kind_byte : ChangeKind → ℕ
kind_byte put = 0
kind_byte delete = 1

-- The last `match` of `encode_change`.
abbrev pub encode_value : Option ℕ → Option Bytes → Result ChangeFeedError Bytes
encode_value (some len) (some hash) = ok (1 ∷ (to_le_bytes 8 len ++ hash))
encode_value none none = ok (0 ∷ [])
encode_value none (some hash) = err corrupt_record
encode_value (some len) none = err corrupt_record

unfoldable pub encode_change : ChangeRecord → Result ChangeFeedError Bytes
encode_change change = do
  key_len ← ok_or (to_u32 (length change.key)) field_too_large
  value ← encode_value change.value_len change.value_sha256
  ok (
      1
      ∷ (to_le_bytes 8 change.tx_id
          ++ (to_le_bytes 4 change.sequence
              ++ (kind_byte change.kind ∷ (to_le_bytes 4 key_len ++ (change.key ++ value))))))
