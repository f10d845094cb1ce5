-- ===== src/Bytes/Words.antt =====
-- Checked, saturating and wrapping arithmetic on u32, u64, i32 and i64, and `usize` as u64.
use voodoo_store.Prelude.{
  ℕ, ◌+◌, ◌-◌, ◌*◌, ◌%◌, ◌^◌, ◌<◌, ◌≡◌, Bool, true, Option, none, some, arith, ltb, if◌then◌else◌,
}
use voodoo_store.Prelude.Int.{ℤ, pos, negsuc, ◌+ℤ◌}

abbrev pub u64_mod : ℕ
u64_mod = 2 ^ 64

abbrev pub u32_mod : ℕ
u32_mod = 2 ^ 32

-- `u64::checked_add`; `usize` has 64 bits.
abbrev pub checked_add : ℕ → ℕ → Option ℕ
checked_add a b = if ltb (a + b) u64_mod then some (a + b) else none

abbrev pub checked_mul : ℕ → ℕ → Option ℕ
checked_mul a b = if ltb (a * b) u64_mod then some (a * b) else none

abbrev pub saturating_add : ℕ → ℕ → ℕ
saturating_add a b = if ltb (a + b) u64_mod then a + b else u64_mod - 1

-- `u32::checked_add`.
abbrev pub checked_add_u32 : ℕ → ℕ → Option ℕ
checked_add_u32 a b = if ltb (a + b) u32_mod then some (a + b) else none

-- `u32::try_from(len)`.
abbrev pub to_u32 : ℕ → Option ℕ
to_u32 n = if ltb n u32_mod then some n else none

-- `i64::try_from` of an unsigned number.
abbrev pub to_i64 : ℕ → Option ℤ
to_i64 n = if ltb n (2 ^ 63) then some (pos n) else none

-- The values of a signed type with 2 * half bit patterns: half is 2 ^ 63 for i64, 2 ^ 31 for i32.
abbrev pub fits : ℕ → ℤ → Bool
fits half (pos n) = ltb n half
fits half (negsuc n) = ltb n half

abbrev pub Fits : ℕ → ℤ → Type 0
Fits half (pos n) = n < half
Fits half (negsuc n) = n < half

-- The two's complement pattern of a signed value, and back.
abbrev pub to_bits : ℕ → ℤ → ℕ
to_bits half (pos n) = n
to_bits half (negsuc n) = 2 * half - 1 - n

abbrev pub from_bits : ℕ → ℕ → ℤ
from_bits half n = if ltb n half then pos n else negsuc (2 * half - 1 - n)

abbrev pub i64_half : ℕ
i64_half = 2 ^ 63

abbrev pub i32_half : ℕ
i32_half = 2 ^ 31

-- The value that signed arithmetic wraps to.
abbrev pub wrap : ℕ → ℤ → ℤ
wrap half (pos n) = from_bits half (n % (2 * half))
wrap half (negsuc n) = from_bits half (2 * half - 1 - n % (2 * half))

-- `i64::checked_add`.
abbrev pub checked_add_i64 : ℤ → ℤ → Option ℤ
checked_add_i64 a b = if fits i64_half (a +ℤ b) then some (a +ℤ b) else none

pub to_bits-lt : (half : ℕ) (z : ℤ) → Fits half z → to_bits half z < 2 * half
to_bits-lt half (pos n) h = omega arith
to_bits-lt half (negsuc n) h = omega arith

pub from_bits-to_bits : (half : ℕ) (z : ℤ) → Fits half z → from_bits half (to_bits half z) ≡ z
from_bits-to_bits half (pos n) h = ground arith
from_bits-to_bits half (negsuc n) h = ground arith

pub fits→Fits : (half : ℕ) (z : ℤ) → fits half z ≡ true → Fits half z
fits→Fits half (pos n) h = ground arith
fits→Fits half (negsuc n) h = ground arith
