-- ===== src/Engine/Quota.antt =====
-- engine.rs: reserved keys, namespaces and their quotas.
use voodoo_store.Prelude.{
  ℕ, ◌-◌, Option, none, some, List, [], ◌∷◌, length, drop, ltb, ◌==◌, if◌then◌else◌,
}
use voodoo_store.Result.{Result, ok, err, ok_or, fail_if, ◌>>=◌, ◌>>◌}
use voodoo_store.Bytes.{Bytes, starts_with}
use voodoo_store.Bytes.Words.{checked_add}
use voodoo_store.Platform.{Platform}
use voodoo_store.Map.{Map, get, insert, key_eq}
use voodoo_store.Engine.Payload.{
  State, Operation, put, delete, EngineError, namespace_quota_exceeded, namespace_quota_overflow,
  reserved_key,
}

-- b"\xffvds:"
abbrev pub internal_key_prefix : Bytes
internal_key_prefix = 0xff ∷ b'v' ∷ b'd' ∷ b's' ∷ b':' ∷ []

-- `ensure_user_key`
unfoldable pub ensure_user_key : Bytes → Result EngineError (Unit {0})
ensure_user_key key = fail_if (starts_with key internal_key_prefix) reserved_key

-- The bytes before the first colon, or all of them.
unfoldable pub first_segment : Bytes → Bytes
first_segment [] = []
first_segment (b ∷ bs) = let rest = b ∷ first_segment bs in if b == b':' then [] else rest

-- A namespace by its name: `user`, or `internal:` and a segment. The segments that the crate writes
-- are ASCII, where `from_utf8_lossy` changes nothing.
unfoldable pub namespace_for_key : Bytes → Bytes
unfolding first_segment
namespace_for_key key =
    if starts_with key internal_key_prefix
    then b'i' ∷ b'n' ∷ b't' ∷ b'e' ∷ b'r' ∷ b'n' ∷ b'a' ∷ b'l' ∷ b':' ∷ first_segment (drop 5 key)
    else b'u' ∷ b's' ∷ b'e' ∷ b'r' ∷ []

abbrev pub or_zero : Option ℕ → ℕ
or_zero none = 0
or_zero (some n) = n

-- The first loop: the value bytes that each namespace holds.
unfoldable pub namespace_totals : State → Map Bytes ℕ → Result EngineError (Map Bytes ℕ)
namespace_totals [] totals = ok totals
namespace_totals ((key, value) ∷ state) totals =
    elim (checked_add (or_zero (get totals (namespace_for_key key))) (length value)) [
      | none ↦ err namespace_quota_overflow
      | some total ↦ namespace_totals state (insert totals (namespace_for_key key) total)
    ]

-- The second loop: each key's last value, `none` where it is deleted.
unfoldable pub final_values : List Operation → Map Bytes (Option Bytes) → Map Bytes (Option Bytes)
final_values [] values = values
final_values (put key value ∷ operations) values =
    final_values operations (insert values key (some value))
final_values (delete key ∷ operations) values = final_values operations (insert values key none)

abbrev pub value_len : Option Bytes → ℕ
value_len none = 0
value_len (some value) = length value

-- The body of the third loop: a namespace's new total. `saturating_sub` is the subtraction on ℕ.
unfoldable pub namespace_total : ℕ → Bytes → Option Bytes → Option Bytes → ℕ → Result EngineError ℕ
namespace_total max_bytes namespace previous value total = do
  total' ←
      ok_or (checked_add (total - value_len previous) (value_len value)) namespace_quota_overflow
  fail_if (ltb max_bytes total') (namespace_quota_exceeded namespace max_bytes)
  ok total'

unfoldable pub check_final :
    ℕ → State → Map Bytes (Option Bytes) → Map Bytes ℕ → Result EngineError (Unit {0})
check_final max_bytes state [] totals = ok tt
check_final max_bytes state ((key, value) ∷ values) totals =
    elim (namespace_total max_bytes (namespace_for_key key) (get state key) value
      (or_zero (get totals (namespace_for_key key)))) [
        | err error ↦ err error
        | ok total ↦
            check_final max_bytes state values (insert totals (namespace_for_key key) total)
      ]

-- `check_namespace_quota`; the third loop runs over a `HashMap`, in its order.
unfoldable pub check_namespace_quota :
    ⦃d : Platform⦄ → Option ℕ → State → List Operation → Result EngineError (Unit {0})
unfolding namespace_totals final_values namespace_total check_final
check_namespace_quota ⦃d⦄ none state operations = ok tt
check_namespace_quota ⦃d⦄ (some max_bytes) state operations = do
  totals ← namespace_totals state []
  check_final max_bytes state (d.hash_order (final_values operations [])) totals
