-- ===== src/Cron/Utf8.antt =====
-- What cron_scheduler.rs uses of UTF-8: `str::as_bytes` and `str::from_utf8`.
pub mod RoundTrip
use voodoo_store.Prelude.{
  ℕ, zero, suc, ◌+◌, ◌-◌, ◌*◌, ◌/◌, ◌%◌, true, false, ◌&&◌, Option, none, some, [], ◌∷◌, ◌++◌, ltb,
  leb, ◌==◌, if◌then◌else◌,
}
use voodoo_store.Bytes.{Bytes}
use voodoo_store.Cron.Chars.{Text}

abbrev trailing : ℕ → ℕ
trailing n = 0x80 + n % 0x40

unfoldable pub encode_char : ℕ → Bytes
encode_char c =
    if ltb c 0x80
    then c ∷ []
    else if ltb c 0x800
    then (0xc0 + c / 0x40) ∷ trailing c ∷ []
    else if ltb c 0x10000
    then (0xe0 + c / 0x1000) ∷ trailing (c / 0x40) ∷ trailing c ∷ []
    else (0xf0 + c / 0x40000) ∷ trailing (c / 0x1000) ∷ trailing (c / 0x40) ∷ trailing c ∷ []

unfoldable pub as_bytes : Text → Bytes
as_bytes [] = []
as_bytes (c ∷ cs) = encode_char c ++ as_bytes cs

-- What stands before a byte: how many bytes of a character are to come, where the next must lie,
-- and the bits of the character that were read.
pub record Pending : Type 0 where
  pub more : ℕ
  pub least : ℕ
  pub most : ℕ
  pub bits : ℕ

abbrev pub pending : ℕ → ℕ → ℕ → ℕ → Pending
pending more least most bits = record { more = more; least = least; most = most; bits = bits }

-- The first byte of a character of more than one byte.
unfoldable pub lead : ℕ → Option Pending
lead b =
    if leb 0xc2 b && leb b 0xdf
    then some (pending 0 0x80 0xbf (b - 0xc0))
    else if b == 0xe0
    then some (pending 1 0xa0 0xbf 0)
    else if b == 0xed
    then some (pending 1 0x80 0x9f 13)
    else if leb 0xe1 b && leb b 0xef
    then some (pending 1 0x80 0xbf (b - 0xe0))
    else if b == 0xf0
    then some (pending 2 0x90 0xbf 0)
    else if b == 0xf4
    then some (pending 2 0x80 0x8f 4)
    else if leb 0xf1 b && leb b 0xf3
    then some (pending 2 0x80 0xbf (b - 0xf0))
    else none

abbrev pub onto : ℕ → Option Text → Option Text
onto c none = none
onto c (some text) = some (c ∷ text)

-- The characters from a place between characters on, or from one inside a character.
unfoldable pub decode_from : Option Pending → Bytes → Option Text
decode_from none [] = some []
decode_from (some p) [] = none
decode_from none (b ∷ bs) = elim (ltb b 0x80) [
  | true ↦ onto b (decode_from none bs)
  | false ↦ elim (lead b) [ none ↦ none | some p ↦ decode_from (some p) bs ]
]
decode_from (some p) (b ∷ bs) = elim (leb p.least b && leb b p.most) [
  | false ↦ none
  | true ↦ elim p.more [
    | zero ↦ onto (p.bits * 0x40 + (b - 0x80)) (decode_from none bs)
    | suc more ↦ decode_from (some (pending more 0x80 0xbf (p.bits * 0x40 + (b - 0x80)))) bs
  ]
]

unfoldable pub from_utf8 : Bytes → Option Text
unfolding decode_from
from_utf8 bytes = decode_from none bytes
