-- ===== src/Engine/Payload.antt =====
-- engine.rs: the errors, the operations of a transaction and their payloads in the log.
use voodoo_store.Prelude.{
  ℕ, ◌+◌, ◌^◌, ◌<◌, ◌≡◌, refl, sym, ap, ◌∙◌, not, List, [], ◌∷◌, ◌++◌, length, drop, ltb, ◌==◌,
  arith, lt→ltb, le→ltb, eqb_refl, length-append, drop-append, drop-append_more,
}
use voodoo_store.Result.{Result, ok, ◌>>=◌, ◌>>◌, fail_if, ok_or}
use voodoo_store.Bytes.{
  Bytes, to_le_bytes, from_le_bytes, slice, length-to_le_bytes, from_le_bytes-to_le_bytes,
  slice-append, slice_prefix,
}
use voodoo_store.Bytes.Words.{to_u32, checked_add}
use voodoo_store.Header.{HeaderError}
use voodoo_store.Log.{StoreError}
use voodoo_store.Map.{Map, insert, remove, key_eq}

-- What a file operation reports: `io::ErrorKind`, as far as `map_io_error` tells kinds apart.
pub data IoError : Type 0 where
  storage_full quota_exceeded other : IoError

pub data EngineError : Type 0 where
  io : IoError → EngineError
  header : HeaderError → EngineError
  log : StoreError → EngineError
  already_open : EngineError
  storage_quota_exceeded : ℕ → EngineError
  disk_full : EngineError
  namespace_quota_exceeded : Bytes → ℕ → EngineError
  namespace_quota_overflow : EngineError
  key_too_large reserved_key invalid_operation_payload : EngineError
  randomness : Bytes → EngineError
  transaction_finished counter_exhausted : EngineError
  clock_before_unix_epoch timestamp_overflow backup_destination_is_source : EngineError
  non_monotonic_sequence : ℕ → ℕ → EngineError
  record_after_commit : ℕ → EngineError

pub data Operation : Type 0 where
  put : Bytes → Bytes → Operation
  delete : Bytes → Operation

abbrev pub State : Type 0
State = Map Bytes Bytes

unfoldable pub apply_operation : State → Operation → State
apply_operation state (put key value) = insert state key value
apply_operation state (delete key) = remove state key

unfoldable pub apply_operations : State → List Operation → State
unfolding apply_operation
apply_operations state [] = state
apply_operations state (operation ∷ operations) =
    apply_operations (apply_operation state operation) operations

unfoldable pub encode_put : Bytes → Bytes → Result EngineError Bytes
encode_put key value = do
  key_len ← ok_or (to_u32 (length key)) key_too_large
  ok (to_le_bytes 4 key_len ++ (key ++ value))

unfoldable pub decode_put : Bytes → Result EngineError Operation
decode_put payload = do
  fail_if (ltb (length payload) 4) invalid_operation_payload
  let key_len = from_le_bytes (slice 0 4 payload)
  key_end ← ok_or (checked_add 4 key_len) invalid_operation_payload
  fail_if (ltb (length payload) key_end) invalid_operation_payload
  ok (put (slice 4 key_end payload) (drop key_end payload))

unfoldable pub encode_delete : Bytes → Result EngineError Bytes
encode_delete key = do
  key_len ← ok_or (to_u32 (length key)) key_too_large
  ok (to_le_bytes 4 key_len ++ key)

unfoldable pub decode_delete : Bytes → Result EngineError Operation
decode_delete payload = do
  fail_if (ltb (length payload) 4) invalid_operation_payload
  let key_len = from_le_bytes (slice 0 4 payload)
  fail_if (not (length payload == 4 + key_len)) invalid_operation_payload
  ok (delete (drop 4 payload))

-- What a key's length field holds.
abbrev len : Bytes → Bytes
len key = to_le_bytes 4 (length key)

module _ (key value : Bytes) (h : length key < 2 ^ 32) where
  put-key : slice 4 (4 + length key) (len key ++ (key ++ value)) ≡ key
  put-key =
      slice-append (len key) key value 4 (4 + length key) (sym (length-to_le_bytes 4 (length key)))
        (omega (arith, length-to_le_bytes 4 (length key)))

  put-value : drop (4 + length key) (len key ++ (key ++ value)) ≡ value
  put-value =
      drop-append_more (len key) (key ++ value) (4 + length key) (length key)
        (omega (arith, length-to_le_bytes 4 (length key)))
      ∙ drop-append key value (length key) refl

  put-len : length (len key ++ (key ++ value)) ≡ 4 + (length key + length value)
  put-len = omega (
    arith,
    length-append (len key) (key ++ value),
    length-append key value,
    length-to_le_bytes 4 (length key),
  )

  pub decode_put_lem : decode_put (len key ++ (key ++ value)) ≡ ok (put key value)
  unfolding decode_put
  decode_put_lem = rw (
    put-len,
    slice_prefix (len key) (key ++ value) 4 (sym (length-to_le_bytes 4 (length key))),
    from_le_bytes-to_le_bytes 4 (length key) h,
    le→ltb (4 + (length key + length value)) 4 (omega arith),
    lt→ltb (4 + length key) (2 ^ 64) (omega arith),
    le→ltb (4 + (length key + length value)) (4 + length key) (omega arith),
    put-key,
    put-value,
  )

module _ (key : Bytes) (h : length key < 2 ^ 32) where
  delete-len : length (len key ++ key) ≡ 4 + length key
  delete-len = omega (arith, length-append (len key) key, length-to_le_bytes 4 (length key))

  pub decode_delete_lem : decode_delete (len key ++ key) ≡ ok (delete key)
  unfolding decode_delete
  decode_delete_lem =
      rw
        (
          delete-len,
          slice_prefix (len key) key 4 (sym (length-to_le_bytes 4 (length key))),
          from_le_bytes-to_le_bytes 4 (length key) h,
          le→ltb (4 + length key) 4 (omega arith),
          eqb_refl (4 + length key),
        )
        (ap (λ bs. ok (delete bs))
          (drop-append (len key) key 4 (sym (length-to_le_bytes 4 (length key)))))

-- A key and a value that can be written are read back as they were.
pub decode_put-encode_put :
    (key value payload : Bytes)
    → encode_put key value ≡ ok payload
    → decode_put payload ≡ ok (put key value)
unfolding encode_put
decode_put-encode_put key value payload e = ground (arith, decode_put_lem key value)

pub decode_delete-encode_delete :
    (key payload : Bytes) → encode_delete key ≡ ok payload → decode_delete payload ≡ ok (delete key)
unfolding encode_delete
decode_delete-encode_delete key payload e = ground (arith, decode_delete_lem key)
