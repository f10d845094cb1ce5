-- ===== src/Platform.antt =====
-- What the store takes from other packages: the digests of `crc32fast` and `sha2`, whose widths are all
-- that the code relies on, and the order in which a `HashMap` is iterated, which is any order.
use mathlib.Core.List.{Perm}
use mathlib.Core.List.Perm
use voodoo_store.Prelude.{ℕ, ◌%◌, ◌<◌, ◌^◌, ◌≡◌, refl, Option, List, [], ◌∷◌, length, arith}
use voodoo_store.Bytes.{Bytes}

pub record Platform : Type 0 where
  pub crc32 : Bytes → ℕ
  pub crc32-lt : (bs : Bytes) → crc32 bs < 2 ^ 32
  pub sha256 : Bytes → Bytes
  pub length-sha256 : (bs : Bytes) → length (sha256 bs) ≡ 32
  pub hash_order : List (Bytes × Option Bytes) → List (Bytes × Option Bytes)
  pub hash_order-perm : (m : List (Bytes × Option Bytes)) → Perm (hash_order m) m

-- The hypotheses can be met.
abbrev zeros : Bytes
zeros =
    0 ∷ 0 ∷ 0 ∷ 0 ∷ 0 ∷ 0 ∷ 0 ∷ 0 ∷ 0 ∷ 0 ∷ 0 ∷ 0 ∷ 0 ∷ 0 ∷ 0 ∷ 0 ∷ 0 ∷ 0 ∷ 0 ∷ 0 ∷ 0 ∷ 0 ∷ 0 ∷ 0
    ∷ 0 ∷ 0 ∷ 0 ∷ 0 ∷ 0 ∷ 0 ∷ 0 ∷ 0 ∷ []

abbrev pub length_platform : Platform
length_platform = record {
  crc32 = λ bs. length bs % 2 ^ 32;
  crc32-lt = λ bs. omega arith;
  sha256 = λ bs. zeros;
  length-sha256 = λ bs. refl;
  hash_order = λ m. m;
  hash_order-perm = λ m. Perm.refl m;
}
