-- ===== src/Cron/Fields/Grammar.antt =====
-- cron.rs: what a part of a field means, said of its text.
use native.Mathlib.Nat.{pow-suc, add-mul, mul_assoc, mul_comm, le-mul_of_pos_right, one-le-pow}
use voodoo_store.Prelude.{
  ℕ, suc, ◌+◌, ◌-◌, ◌*◌, ◌^◌, ◌<◌, ◌≤◌, ◌≡◌, ◌≢◌, refl, sym, ap, ap₂, subst, ◌∙◌, ◌⊎◌, inl, inr,
  Bool, true, false, ◌&&◌, Option, none, some, [], ◌∷◌, ◌++◌, arith, ltb, leb, ◌==◌, length,
  Bool-cases, Option-cases, ltb→lt, lt→ltb, eqb_refl, eqb→eq, ne→eqb,
}
use voodoo_store.Cron.Chars.{Text, split_once, u8_digits, unsigned, parse_u8, text_eq}

-- The characters from 0 to 9 only.
abbrev pub AllDigits : Text → Type 0
AllDigits [] = Unit {0}
AllDigits (c ∷ cs) = (b'0' ≤ c) × (c ≤ b'9') × AllDigits cs

-- The number that digits write in base ten.
abbrev pub decimal : Text → ℕ
decimal [] = 0
decimal (c ∷ cs) = (c - b'0') * 10 ^ length cs + decimal cs

-- One digit or more, with a plus sign before them or without, that write a number below 256.
abbrev pub IsDigits : Text → ℕ → Type 0
IsDigits digits n = (digits ≢ []) × AllDigits digits × (n ≡ decimal digits) × (n < 256)

abbrev pub IsNumber : Text → ℕ → Type 0
IsNumber text n = IsDigits text n ⊎ ((digits : Text) × (text ≡ b'+' ∷ digits) × IsDigits digits n)

-- A text without a character.
abbrev pub Lacks : ℕ → Text → Type 0
Lacks at [] = Unit {0}
Lacks at (c ∷ cs) = (c ≢ at) × Lacks at cs

-- The step of a part is the number behind its slash, not zero, and one without a slash.
abbrev pub IsStep : Text → Text → ℕ → Type 0
IsStep part base step =
    (Lacks b'/' part × (base ≡ part) × (step ≡ 1))
    ⊎ ((number : Text) × (part ≡ base ++ b'/' ∷ number)
        × Lacks b'/' base
        × IsNumber number step
        × (0 < step))

-- What stands before it: a star for all values, two numbers with a dash between, or one number.
abbrev pub IsRange : ℕ → ℕ → Text → ℕ → ℕ → Type 0
IsRange min max base start end =
    ((base ≡ b'*' ∷ []) × (start ≡ min) × (end ≡ max))
    ⊎ ((first : Text) × (last : Text) × (base ≡ first ++ b'-' ∷ last)
        × Lacks b'-' first
        × IsNumber first start
        × IsNumber last end)
    ⊎ (Lacks b'-' base × IsNumber base start × (end ≡ start))

-- One more digit, by the number before it and by its place.
horner : (v d e k : ℕ) → (v * 10 + d) * 10 ^ k + e ≡ v * 10 ^ suc k + (d * 10 ^ k + e)
horner v d e k =
    let place : v * 10 ^ suc k ≡ v * 10 * 10 ^ k =
      ap (λ x. v * x) (pow-suc 10 k ∙ mul_comm (10 ^ k) 10) ∙ sym (mul_assoc v 10 (10 ^ k)) in
    omega (arith, place, add-mul (v * 10) d (10 ^ k))

below_of_sum : (v d e k : ℕ) → v * 10 ^ suc k + (d * 10 ^ k + e) < 256 → v * 10 + d < 256
below_of_sum v d e k small =
    omega (
      arith,
      horner v d e k,
      le-mul_of_pos_right (v * 10 + d) (one-le-pow k 10 (omega arith)),
      small,
    )

module _ (value c : ℕ) (cs : Text) where
  is_digit : Bool
  is_digit = leb b'0' c && leb c b'9'

  no_digit : is_digit ≡ false → u8_digits value (c ∷ cs) ≡ none
  unfolding u8_digits is_digit
  no_digit e = rw (e, u8_digits) refl

  module _ (e : is_digit ≡ true) where
    too_large : ltb (value * 10 + (c - b'0')) 256 ≡ false → u8_digits value (c ∷ cs) ≡ none
    unfolding u8_digits is_digit
    too_large f = rw (e, f, u8_digits) refl

    next_digit :
        ltb (value * 10 + (c - b'0')) 256 ≡ true
        → u8_digits value (c ∷ cs) ≡ u8_digits (value * 10 + (c - b'0')) cs
    unfolding u8_digits is_digit
    next_digit f = rw (e, f, u8_digits) refl

none_ne_some : {A : Type 0} {o : Option A} {a : A} → o ≡ none → o ≡ some a → ⊥
none_ne_some e f = cc

u8_digits-decimal :
    (value : ℕ) (text : Text) {n : ℕ}
    → u8_digits value text ≡ some n
    → value < 256
    → AllDigits text × (n ≡ value * 10 ^ length text + decimal text) × (n < 256)
unfolding u8_digits is_digit
u8_digits-decimal value [] {n} h small =
    let e : value ≡ n = cc in (tt, omega (arith, e), omega (arith, e, small))
u8_digits-decimal value (c ∷ cs) h small = elim (Bool-cases (is_digit value c cs)) [
  | inr other ↦ absurd (none_ne_some (no_digit value c cs other) h)
  | inl digit ↦ elim (Bool-cases (ltb (value * 10 + (c - b'0')) 256)) [
    | inr large ↦ absurd (none_ne_some (too_large value c cs digit large) h)
    | inl fit ↦
        let (digits, e, below) =
          u8_digits-decimal (value * 10 + (c - b'0')) cs (sym (next_digit value c cs digit fit) ∙ h)
            (ltb→lt _ 256 fit) in
        (
          (low digit, high digit, digits),
          e ∙ horner value (c - b'0') (decimal cs) (length cs),
          below,
        )
  ]
]
  where
    low : is_digit value c cs ≡ true → b'0' ≤ c
    low digit = ground arith

    high : is_digit value c cs ≡ true → c ≤ b'9'
    high digit = ground arith

decimal-u8_digits :
    (value : ℕ) (text : Text)
    → AllDigits text
    → value * 10 ^ length text + decimal text < 256
    → u8_digits value text ≡ some (value * 10 ^ length text + decimal text)
unfolding u8_digits is_digit
decimal-u8_digits value [] digits small = ap some (omega arith)
decimal-u8_digits value (c ∷ cs) (low, high, digits) small =
    let d = c - b'0' in
    let e = horner value d (decimal cs) (length cs) in
    next_digit value c cs digit (lt→ltb _ 256 (below_of_sum value d (decimal cs) (length cs) small))
    ∙ decimal-u8_digits (value * 10 + d) cs digits (subst (λ x. x < 256) (sym e) small)
    ∙ ap some e
  where
    digit : is_digit value c cs ≡ true
    digit = ground arith

unsigned-IsDigits : (text : Text) (n : ℕ) → unsigned text ≡ some n → IsDigits text n
unfolding unsigned
unsigned-IsDigits [] n h = cc
unsigned-IsDigits (c ∷ cs) n h =
    let (digits, e, small) = u8_digits-decimal 0 (c ∷ cs) h (omega arith) in
    (λ same. cc, digits, omega (arith, e), small)

IsDigits-unsigned : (text : Text) (n : ℕ) → IsDigits text n → unsigned text ≡ some n
unfolding unsigned
IsDigits-unsigned [] n (filled, _, _, _) = absurd (filled refl)
IsDigits-unsigned (c ∷ cs) n (filled, digits, e, small) =
    decimal-u8_digits 0 (c ∷ cs) digits (omega (arith, e, small)) ∙ ap some (omega (arith, e))

pub parse_u8-IsNumber : (text : Text) (n : ℕ) → parse_u8 text ≡ some n → IsNumber text n
unfolding parse_u8
parse_u8-IsNumber [] n = λ h. cc
parse_u8-IsNumber (c ∷ cs) n = elim (Bool-cases (c == b'+')) [
  | inl plus ↦
      rw plus (λ h. inr (cs, ap (λ x. x ∷ cs) (eqb→eq c b'+' plus), unsigned-IsDigits cs n h))
  | inr other ↦ rw other (λ h. inl (unsigned-IsDigits (c ∷ cs) n h))
]

pub IsNumber-parse_u8 : (text : Text) (n : ℕ) → IsNumber text n → parse_u8 text ≡ some n
unfolding parse_u8
IsNumber-parse_u8 [] n (inl (filled, _, _, _)) = absurd (filled refl)
IsNumber-parse_u8 [] n (inr (digits, e, _)) = cc
IsNumber-parse_u8 (c ∷ cs) n (inl h) = rw (ne→eqb c b'+' no_plus) (IsDigits-unsigned (c ∷ cs) n h)
  where
    no_plus : c ≢ b'+'
    no_plus e = omega (arith, e, h.1.0)
IsNumber-parse_u8 (c ∷ cs) n (inr (digits, e, h)) =
    subst (λ t. parse_u8 t ≡ some n) (sym e) (IsDigits-unsigned digits n h)

pub text_eq→eq : (a b : Text) → text_eq a b ≡ true → a ≡ b
text_eq→eq [] [] = λ h. refl
text_eq→eq [] (y ∷ ys) = λ h. cc
text_eq→eq (x ∷ xs) [] = λ h. cc
text_eq→eq (x ∷ xs) (y ∷ ys) = elim (Bool-cases (x == y)) [
  | inl e ↦ rw e (λ h. ap₂ (λ z zs. z ∷ zs) (eqb→eq x y e) (text_eq→eq xs ys h))
  | inr e ↦ rw e (λ h. cc)
]

pub text_eq_refl : (a : Text) → text_eq a a ≡ true
text_eq_refl [] = refl
text_eq_refl (x ∷ xs) = rw (eqb_refl x) (text_eq_refl xs)

pub ne→text_eq : (a b : Text) → a ≢ b → text_eq a b ≡ false
ne→text_eq a b ne = elim (Bool-cases (text_eq a b)) [
  | inl e ↦ absurd (ne (text_eq→eq a b e))
  | inr e ↦ e
]

some_injective : {a b : Text × Text} → some a ≡ some b → a ≡ b
some_injective e = cc

differs : (x y : ℕ) → x ≡ y → (x == y) ≡ false → ⊥
differs x y same other = ground arith

pub split_once-some :
    (at : ℕ) (text : Text) {before after : Text}
    → split_once at text ≡ some (before, after)
    → (text ≡ before ++ at ∷ after) × Lacks at before
unfolding split_once
split_once-some at [] = λ h. cc
split_once-some at (c ∷ cs) {before} {after} = elim (Bool-cases (c == at)) [
  | inl here ↦ rw here (λ h. found (eqb→eq c at here) h)
  | inr other ↦ rw other (elim (Option-cases (split_once at cs)) [
    | inl e ↦ rw e (λ h. absurd (none_ne_some refl h))
    | inr ((first, rest), e) ↦
        rw e
          (λ h. let (same, lacks) = split_once-some at cs e in longer first rest same lacks other h)
  ])
]
  where
    found :
        c ≡ at
        → ◌≡◌ {A = Option (Text × Text)} (some ([], cs)) (some (before, after))
        → (c ∷ cs ≡ before ++ at ∷ after) × Lacks at before
    found e h =
        let same : ([], cs) ≡ (before, after) = some_injective h in
        (
          ap₂ (λ x xs. x ∷ xs) e (ap (λ p. p.1) same)
              ∙ ap (λ xs. xs ++ at ∷ after) (ap (λ p. p.0) same),
          subst (Lacks at) (ap (λ p. p.0) same) tt,
        )

    longer :
        (first rest : Text)
        → cs ≡ first ++ at ∷ rest
        → Lacks at first
        → (c == at) ≡ false
        → ◌≡◌ {A = Option (Text × Text)} (some (c ∷ first, rest)) (some (before, after))
        → (c ∷ cs ≡ before ++ at ∷ after) × Lacks at before
    longer first rest same lacks other h =
        let pair : (c ∷ first, rest) ≡ (before, after) = some_injective h in
        (
          ap (λ xs. c ∷ xs) same ∙ ap (λ (p : Text × Text). p.0 ++ at ∷ p.1) pair,
          subst (Lacks at) (ap (λ p. p.0) pair) ((λ e. differs c at e other), lacks),
        )

pub split_once-none : (at : ℕ) (text : Text) → split_once at text ≡ none → Lacks at text
unfolding split_once
split_once-none at [] = λ h. tt
split_once-none at (c ∷ cs) = elim (Bool-cases (c == at)) [
  | inl here ↦ rw here (λ h. cc)
  | inr other ↦ rw other (elim (Option-cases (split_once at cs)) [
    | inl e ↦ rw e (λ h. ((λ same. differs c at same other), split_once-none at cs e))
    | inr ((first, rest), e) ↦ rw e (λ h. cc)
  ])
]

pub Lacks-split_once : (at : ℕ) (text : Text) → Lacks at text → split_once at text ≡ none
unfolding split_once
Lacks-split_once at [] h = refl
Lacks-split_once at (c ∷ cs) (ne, rest) = rw (ne→eqb c at ne, Lacks-split_once at cs rest) refl

pub split_once-append :
    (at : ℕ) (before after : Text)
    → Lacks at before
    → split_once at (before ++ at ∷ after) ≡ some (before, after)
unfolding split_once
split_once-append at [] after h = rw (eqb_refl at) refl
split_once-append at (c ∷ cs) after (ne, rest) =
    rw (ne→eqb c at ne, split_once-append at cs after rest) refl
