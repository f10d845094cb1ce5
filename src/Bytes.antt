-- ===== src/Bytes.antt =====
-- Byte strings, and Rust's fixed-width integers as little- and big-endian bytes.
pub mod Words
pub mod Prefix
pub mod Cursor
use Prim.Native.Char.{code}
use Prim.Native.String.{String}
use native.Mathlib.Nat.{pow-suc}
use voodoo_store.Prelude.{
  ℕ, zero, suc, ◌+◌, ◌-◌, ◌*◌, ◌/◌, ◌%◌, ◌^◌, ◌≤◌, ◌<◌, ◌≡◌, refl, ap, ◌∙◌, Bool, true, false, ◌&&◌,
  List, [], ◌∷◌, ◌++◌, reverse, arith, ◌==◌, ltb, if◌then◌else◌, length, take, drop, take-append,
  drop-append, drop-append_more, take_all, take-take, drop-take,
}
use mathlib.Core.List.{reverse-reverse}

-- A byte is a number below 256.
abbrev pub Bytes : Type 0
Bytes = List ℕ

-- The bytes of an ASCII text.
abbrev pub codes : String → Bytes
codes String.[] = []
codes (String.◌∷◌ c s) = code c ∷ codes s

-- `uN::to_le_bytes` for N = 8 * width.
unfoldable pub to_le_bytes : ℕ → ℕ → Bytes
to_le_bytes zero n = []
to_le_bytes (suc w) n = (n % 256) ∷ to_le_bytes w (n / 256)

unfoldable pub from_le_bytes : Bytes → ℕ
from_le_bytes [] = 0
from_le_bytes (b ∷ bs) = b + 256 * from_le_bytes bs

abbrev pub to_be_bytes : ℕ → ℕ → Bytes
to_be_bytes w n = reverse (to_le_bytes w n)

abbrev pub from_be_bytes : Bytes → ℕ
from_be_bytes bs = from_le_bytes (reverse bs)

-- `&bytes[a..b]`, for `a <= b <= bytes.len()`.
unfoldable pub slice : ℕ → ℕ → Bytes → Bytes
slice a b bs = take (b - a) (drop a bs)

-- `==` on slices.
unfoldable pub bytes_eq : Bytes → Bytes → Bool
bytes_eq [] [] = true
bytes_eq [] (y ∷ ys) = false
bytes_eq (x ∷ xs) [] = false
bytes_eq (x ∷ xs) (y ∷ ys) = x == y && bytes_eq xs ys

-- `[u8]::starts_with(prefix)`, the prefix last.
unfoldable pub starts_with : Bytes → Bytes → Bool
starts_with bs [] = true
starts_with [] (p ∷ ps) = false
starts_with (b ∷ bs) (p ∷ ps) = b == p && starts_with bs ps

-- `Ord::cmp` on slices is lexicographic: is the first strictly less?
unfoldable pub bytes_lt : Bytes → Bytes → Bool
bytes_lt [] [] = false
bytes_lt [] (y ∷ ys) = true
bytes_lt (x ∷ xs) [] = false
bytes_lt (x ∷ xs) (y ∷ ys) =
    let rest = bytes_lt xs ys in if ltb x y then true else if x == y then rest else false

pub length-to_le_bytes : (w n : ℕ) → length (to_le_bytes w n) ≡ w
unfolding to_le_bytes
length-to_le_bytes zero n = refl
length-to_le_bytes (suc w) n = ap suc (length-to_le_bytes w (n / 256))

pub from_le_bytes-to_le_bytes : (w n : ℕ) → n < 256 ^ w → from_le_bytes (to_le_bytes w n) ≡ n
unfolding to_le_bytes from_le_bytes
from_le_bytes-to_le_bytes zero n h = omega arith
from_le_bytes-to_le_bytes (suc w) n h =
    omega (arith, from_le_bytes-to_le_bytes w (n / 256) (omega (arith, pow-suc 256 w)))

pub from_be_bytes-to_be_bytes : (w n : ℕ) → n < 256 ^ w → from_be_bytes (to_be_bytes w n) ≡ n
from_be_bytes-to_be_bytes w n h =
    ap from_le_bytes (reverse-reverse (to_le_bytes w n)) ∙ from_le_bytes-to_le_bytes w n h

pub bytes_eq_refl : (bs : Bytes) → bytes_eq bs bs ≡ true
unfolding bytes_eq
bytes_eq_refl [] = refl
bytes_eq_refl (x ∷ xs) = ground (arith, bytes_eq_refl xs)

pub bytes_eq→eq : (xs ys : Bytes) → bytes_eq xs ys ≡ true → xs ≡ ys
unfolding bytes_eq
bytes_eq→eq [] [] h = refl
bytes_eq→eq [] (y ∷ ys) h = cc
bytes_eq→eq (x ∷ xs) [] h = cc
bytes_eq→eq (x ∷ xs) (y ∷ ys) h = ground (arith, bytes_eq→eq xs ys)

-- The bytes that stand between `pre` and `post`.
pub slice-append :
    (pre mid post : Bytes) (a b : ℕ)
    → a ≡ length pre
    → b ≡ length pre + length mid
    → slice a b (pre ++ (mid ++ post)) ≡ mid
unfolding slice
slice-append pre mid post a b ea eb =
    ap (take (b - a)) (drop-append pre (mid ++ post) a ea)
    ∙ take-append mid post (b - a) (omega arith)

pub slice_suffix :
    (pre mid : Bytes) (a b : ℕ)
    → a ≡ length pre
    → b ≡ length pre + length mid
    → slice a b (pre ++ mid) ≡ mid
unfolding slice
slice_suffix pre mid a b ea eb =
    ap (take (b - a)) (drop-append pre mid a ea) ∙ take_all mid (b - a) (omega arith)

pub slice_prefix : (pre post : Bytes) (b : ℕ) → b ≡ length pre → slice 0 b (pre ++ post) ≡ pre
unfolding slice
slice_prefix pre post b e = take-append pre post (b - 0) (omega arith)

-- A slice does not see what was cut off behind it.
pub slice-take : (a b n : ℕ) (bs : Bytes) → a ≤ b → b ≤ n → slice a b (take n bs) ≡ slice a b bs
unfolding slice
slice-take a b n bs h k =
    ap (take (b - a)) (drop-take a n (n - a) bs (omega arith))
    ∙ take-take (b - a) (n - a) (drop a bs) (omega arith)

-- A slice behind a prefix is a slice of the rest.
pub slice-skip :
    (pre rest : Bytes) (n a b : ℕ)
    → n ≡ length pre
    → slice (n + a) (n + b) (pre ++ rest) ≡ slice a b rest
unfolding slice
slice-skip pre rest n a b e =
    rw (drop-append_more pre rest (n + a) a (omega (arith, e)), sub_add n a b) refl
  where
    sub_add : (n a b : ℕ) → n + b - (n + a) ≡ b - a
    sub_add n a b = omega arith

-- What starts with a longer string starts with the shorter one.
pub starts_with-append :
    (key p rest : Bytes) → starts_with key (p ++ rest) ≡ true → starts_with key p ≡ true
unfolding starts_with
starts_with-append key [] rest h = refl
starts_with-append [] (x ∷ p) rest h = h
starts_with-append (b ∷ key) (x ∷ p) rest h = ground (arith, starts_with-append key p rest)
