-- ===== src/Cron/Chars.antt =====
-- What cron.rs uses of Rust's texts: they are sequences of code points.
use voodoo_store.Prelude.{
  ℕ, ◌+◌, ◌-◌, ◌*◌, Bool, true, false, ◌||◌, ◌&&◌, Option, none, some, List, [], ◌∷◌, ◌==◌, ltb,
  leb, if◌then◌else◌,
}

abbrev pub Text : Type 0
Text = List ℕ

-- `char::is_whitespace`: the code points with the property White_Space.
unfoldable pub is_whitespace : ℕ → Bool
is_whitespace c =
    (leb 9 c && leb c 13)
    || (c == 32)
    || (c == 0x85)
    || (c == 0xa0)
    || (c == 0x1680)
    || (leb 0x2000 c && leb c 0x200a)
    || (c == 0x2028)
    || (c == 0x2029)
    || (c == 0x202f)
    || (c == 0x205f)
    || (c == 0x3000)

-- One more character before the first piece.
abbrev pub onto_first : ℕ → List Text → List Text
onto_first c [] = (c ∷ []) ∷ []
onto_first c (piece ∷ pieces) = (c ∷ piece) ∷ pieces

-- `str::split` at every character that passes the test.
unfoldable pub split : (ℕ → Bool) → Text → List Text
split at [] = [] ∷ []
split at (c ∷ cs) = let rest = split at cs in if at c then [] ∷ rest else onto_first c rest

abbrev pub non_empty : List Text → List Text
non_empty [] = []
non_empty ([] ∷ pieces) = non_empty pieces
non_empty ((c ∷ cs) ∷ pieces) = (c ∷ cs) ∷ non_empty pieces

unfoldable pub split_whitespace : Text → List Text
split_whitespace text = non_empty (split is_whitespace text)

abbrev pub with_first : ℕ → Option (Text × Text) → Option (Text × Text)
with_first c none = none
with_first c (some (before, after)) = some (c ∷ before, after)

-- `str::split_once`.
unfoldable pub split_once : ℕ → Text → Option (Text × Text)
split_once at [] = none
split_once at (c ∷ cs) =
    let rest = split_once at cs in if c == at then some ([], cs) else with_first c rest

abbrev pub text_eq : Text → Text → Bool
text_eq [] [] = true
text_eq [] (y ∷ ys) = false
text_eq (x ∷ xs) [] = false
text_eq (x ∷ xs) (y ∷ ys) = x == y && text_eq xs ys

-- The digits of a number that must stay below 256.
unfoldable pub u8_digits : ℕ → Text → Option ℕ
u8_digits value [] = some value
u8_digits value (c ∷ cs) = elim (leb b'0' c && leb c b'9') [
  | false ↦ none
  | true ↦ elim (ltb (value * 10 + (c - b'0')) 256) [
    | false ↦ none
    | true ↦ u8_digits (value * 10 + (c - b'0')) cs
  ]
]

unfoldable pub unsigned : Text → Option ℕ
unfolding u8_digits
unsigned [] = none
unsigned (c ∷ cs) = u8_digits 0 (c ∷ cs)

-- `str::parse::<u8>`: a plus sign may stand before the digits.
unfoldable pub parse_u8 : Text → Option ℕ
unfolding unsigned
parse_u8 [] = none
parse_u8 (c ∷ cs) = if c == b'+' then unsigned cs else unsigned (c ∷ cs)
