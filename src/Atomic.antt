-- ===== src/Atomic.antt =====
-- crates/voodoo-store-core/src/atomic.rs: compare-and-swap and counters over the store.
pub mod Effects
mod Tests
use voodoo_store.Prelude.{
  ℕ, Bool, true, false, not, ◌&&◌, Option, none, some, length, ◌==◌, if◌then◌else◌,
}
use voodoo_store.Prelude.Int.{ℤ, pos}
use voodoo_store.Result.{Result, ok, err, ok_or}
use voodoo_store.Exec.{Exec, pure, lift, gets, ◌>>=◌, ◌>>◌, map_error}
use voodoo_store.Bytes.{Bytes, bytes_eq, to_le_bytes, from_le_bytes}
use voodoo_store.Bytes.Words.{i64_half, to_bits, from_bits, checked_add_i64}
use voodoo_store.Platform.{Platform}
use voodoo_store.Map.{get, key_eq}
use voodoo_store.Engine.Payload.{EngineError}
use voodoo_store.Engine.Store.{Store}
use voodoo_store.Engine.Transaction.{Transaction, put_user, delete_user}
use voodoo_store.Engine.Commit.{transact, put_key}

pub data CasOutcome : Type 0 where
  swapped mismatch : CasOutcome

pub data AtomicError : Type 0 where
  store : EngineError → AtomicError
  invalid_counter overflow : AtomicError

-- `==` on `Option<&[u8]>`.
unfoldable pub same_value : Option Bytes → Option Bytes → Bool
same_value none none = true
same_value none (some w) = false
same_value (some v) none = false
same_value (some v) (some w) = bytes_eq v w

-- The current value of a counter.
unfoldable pub counter_of : Option Bytes → Result AtomicError ℤ
counter_of none = ok (pos 0)
counter_of (some value) =
    if length value == 8 then ok (from_bits i64_half (from_le_bytes value)) else err invalid_counter

module _ ⦃d : Platform⦄ where
  unfoldable pub replace_value : Bytes → Option Bytes → Exec Transaction EngineError (Unit {0})
  replace_value key (some value) = put_user key value
  replace_value key none = delete_user key

  -- What follows the comparison.
  abbrev pub swap_if : Bool → Bytes → Option Bytes → Exec Store EngineError CasOutcome
  swap_if false key replacement = pure mismatch
  swap_if true key replacement = transact true (replace_value key replacement) >> pure swapped

  unfoldable pub compare_and_swap :
      Bytes → Option Bytes → Option Bytes → Exec Store EngineError CasOutcome
  compare_and_swap key expected replacement = do
    current ← gets (λ s. get s.state key)
    swap_if (same_value current expected) key replacement

  unfoldable pub increment_i64 : Bytes → ℤ → Exec Store AtomicError ℤ
  increment_i64 key delta = do
    loaded ← gets (λ s. counter_of (get s.state key))
    current ← lift loaded
    next ← lift (ok_or (checked_add_i64 current delta) overflow)
    map_error store (put_key key (to_le_bytes 8 (to_bits i64_half next)))
    pure next
