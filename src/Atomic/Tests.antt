-- ===== src/Atomic/Tests.antt =====
-- atomic.rs at concrete inputs: the first write of a key and of a counter.
use voodoo_store.Prelude.{none, some, [], ◌∷◌}
use voodoo_store.Prelude.Int.{pos}
use voodoo_store.Platform.{Platform, length_platform}
use voodoo_store.Engine.Tests.{empty_store, empty_store-HasLog}
use voodoo_store.Atomic.{compare_and_swap, increment_i64}
use voodoo_store.Atomic.Effects.{
  CasPost, compare_and_swap-CasPost, IncrementPost, increment_i64-IncrementPost,
}

instance abbrev platform : Platform
platform = length_platform

compare_and_swap-CasPost_example :
    CasPost
      (b'k' ∷ [])
      none
      (some (1 ∷ []))
      empty_store
      (compare_and_swap (b'k' ∷ []) none (some (1 ∷ [])) empty_store).0
      (compare_and_swap (b'k' ∷ []) none (some (1 ∷ [])) empty_store).1
compare_and_swap-CasPost_example =
    compare_and_swap-CasPost (b'k' ∷ []) none (some (1 ∷ [])) empty_store empty_store-HasLog

increment_i64-IncrementPost_example :
    IncrementPost
      (b'k' ∷ [])
      (pos 5)
      empty_store
      (increment_i64 (b'k' ∷ []) (pos 5) empty_store).0
      (increment_i64 (b'k' ∷ []) (pos 5) empty_store).1
increment_i64-IncrementPost_example =
    increment_i64-IncrementPost (b'k' ∷ []) (pos 5) empty_store empty_store-HasLog
