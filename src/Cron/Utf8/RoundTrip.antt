-- ===== src/Cron/Utf8/RoundTrip.antt =====
-- A text of scalar values is read back from its UTF-8.
use voodoo_store.Prelude.{
  ℕ, suc, ◌+◌, ◌-◌, ◌*◌, ◌/◌, ◌<◌, ◌≤◌, ◌≡◌, refl, ◌∙◌, ap, ◌⊎◌, inl, inr, true, ◌&&◌, none, some,
  [], ◌∷◌, ◌++◌, arith, ltb→lt, ltb→le, le→ltb, lt→ltb, ltb, leb, ◌==◌, if◌then◌else◌, Bool-cases,
}
use voodoo_store.Bytes.{Bytes}
use voodoo_store.Cron.Chars.{Text}
use voodoo_store.Cron.Utf8.{
  trailing, encode_char, as_bytes, Pending, pending, lead, onto, decode_from, from_utf8,
}

-- The code points but for the surrogates.
abbrev pub IsScalar : ℕ → Type 0
IsScalar c = (c < 0xd800) ⊎ ((0xe000 ≤ c) × (c < 0x110000))

abbrev pub AllScalar : Text → Type 0
AllScalar [] = Unit {0}
AllScalar (c ∷ cs) = IsScalar c × AllScalar cs

lead_two : (q : ℕ) → 2 ≤ q → q < 32 → lead (0xc0 + q) ≡ some (pending 0 0x80 0xbf q)
unfolding lead
lead_two q least most = let e : 0xc0 + q - 0xc0 ≡ q = omega arith in rw (range, e) refl
  where
    range : (leb 0xc2 (0xc0 + q) && leb (0xc0 + q) 0xdf) ≡ true
    range = ground arith

abbrev least_of : ℕ → ℕ → ℕ
least_of q first = if q == 0 then first else 0x80

abbrev most_of : ℕ → ℕ → ℕ → ℕ
most_of q last most = if q == last then most else 0xbf

lead_three :
    (q : ℕ) → q < 16 → lead (0xe0 + q) ≡ some (pending 1 (least_of q 0xa0) (most_of q 13 0x9f) q)
unfolding lead
lead_three q most = ground arith

lead_four :
    (q : ℕ) → q < 5 → lead (0xf0 + q) ≡ some (pending 2 (least_of q 0x90) (most_of q 4 0x8f) q)
unfolding lead
lead_four q most = ground arith

module _ (b : ℕ) (bs : Bytes) where
  first_byte :
      {p : Pending}
      → 0x80 ≤ b
      → lead b ≡ some p
      → decode_from none (b ∷ bs) ≡ decode_from (some p) bs
  unfolding decode_from
  first_byte high e = rw (le→ltb b 0x80 high, e, decode_from) refl

  one_byte : b < 0x80 → decode_from none (b ∷ bs) ≡ onto b (decode_from none bs)
  unfolding decode_from
  one_byte low = rw (lt→ltb b 0x80 low, decode_from) refl

  module _ (least most bits : ℕ) (low : least ≤ b) (high : b ≤ most) where
    within : (leb least b && leb b most) ≡ true
    within = ground arith

    last_byte :
        decode_from (some (pending 0 least most bits)) (b ∷ bs)
        ≡ onto (bits * 0x40 + (b - 0x80)) (decode_from none bs)
    unfolding decode_from
    last_byte = rw (within, decode_from) refl

    middle_byte :
        (more : ℕ)
        → decode_from (some (pending (suc more) least most bits)) (b ∷ bs)
          ≡ decode_from (some (pending more 0x80 0xbf (bits * 0x40 + (b - 0x80)))) bs
    unfolding decode_from
    middle_byte more = rw (within, decode_from) refl

module _ (c : ℕ) (rest : Bytes) where
  -- The bytes of a character of two, three or four bytes.
  decode_two :
      0x80 ≤ c
      → c < 0x800
      → decode_from none ((0xc0 + c / 0x40) ∷ trailing c ∷ rest) ≡ onto c (decode_from none rest)
  decode_two low high =
      first_byte (0xc0 + c / 0x40) (trailing c ∷ rest) (omega arith)
        (lead_two (c / 0x40) (omega arith) (omega arith))
      ∙ last_byte (trailing c) rest 0x80 0xbf (c / 0x40) (omega arith) (omega arith)
      ∙ ap (λ n. onto n (decode_from none rest)) (omega arith)

  decode_three :
      0x800 ≤ c
      → c < 0x10000
      → IsScalar c
      → decode_from none ((0xe0 + c / 0x1000) ∷ trailing (c / 0x40) ∷ trailing c ∷ rest)
        ≡ onto c (decode_from none rest)
  decode_three low high scalar =
      let q = c / 0x1000 in
      first_byte (0xe0 + q) (trailing (c / 0x40) ∷ trailing c ∷ rest) (omega arith)
        (lead_three q (omega arith))
      ∙ middle_byte (trailing (c / 0x40)) (trailing c ∷ rest) (least_of q 0xa0) (most_of q 13 0x9f)
          q (ground arith) (ground arith) 0
      ∙ last_byte (trailing c) rest 0x80 0xbf (q * 0x40 + (trailing (c / 0x40) - 0x80))
          (omega arith) (omega arith)
      ∙ ap (λ n. onto n (decode_from none rest)) (omega arith)

  decode_four :
      0x10000 ≤ c
      → c < 0x110000
      → decode_from none
          ((0xf0 + c / 0x40000) ∷ trailing (c / 0x1000) ∷ trailing (c / 0x40) ∷ trailing c ∷ rest)
        ≡ onto c (decode_from none rest)
  decode_four low high =
      let q = c / 0x40000 in
      let r = q * 0x40 + (trailing (c / 0x1000) - 0x80) in
      first_byte (0xf0 + q) (trailing (c / 0x1000) ∷ trailing (c / 0x40) ∷ trailing c ∷ rest)
        (omega arith) (lead_four q (omega arith))
      ∙ middle_byte (trailing (c / 0x1000)) (trailing (c / 0x40) ∷ trailing c ∷ rest)
          (least_of q 0x90) (most_of q 4 0x8f) q (ground arith) (ground arith) 1
      ∙ middle_byte (trailing (c / 0x40)) (trailing c ∷ rest) 0x80 0xbf r (omega arith)
          (omega arith) 0
      ∙ last_byte (trailing c) rest 0x80 0xbf (r * 0x40 + (trailing (c / 0x40) - 0x80))
          (omega arith) (omega arith)
      ∙ ap (λ n. onto n (decode_from none rest)) (omega arith)

  decode_from-encode_char :
      IsScalar c → decode_from none (encode_char c ++ rest) ≡ onto c (decode_from none rest)
  unfolding encode_char
  decode_from-encode_char scalar = elim (Bool-cases (ltb c 0x80)) [
    | inl one ↦ rw one (one_byte c rest (ltb→lt c 0x80 one))
    | inr more ↦ rw more (elim (Bool-cases (ltb c 0x800)) [
      | inl two ↦ rw two (decode_two (ltb→le c 0x80 more) (ltb→lt c 0x800 two))
      | inr more ↦ rw more (elim (Bool-cases (ltb c 0x10000)) [
        | inl three ↦ rw three (decode_three (ltb→le c 0x800 more) (ltb→lt c 0x10000 three) scalar)
        | inr four ↦ rw four (decode_four (ltb→le c 0x10000 four) (highest scalar))
      ])
    ])
  ]
    where
      highest : IsScalar c → c < 0x110000
      highest (inl h) = omega (arith, h)
      highest (inr (_, h)) = h

pub from_utf8-as_bytes : (text : Text) → AllScalar text → from_utf8 (as_bytes text) ≡ some text
unfolding from_utf8 as_bytes decode_from
from_utf8-as_bytes [] scalar = refl
from_utf8-as_bytes (c ∷ cs) (scalar, rest) =
    decode_from-encode_char c (as_bytes cs) scalar ∙ ap (onto c) (from_utf8-as_bytes cs rest)
