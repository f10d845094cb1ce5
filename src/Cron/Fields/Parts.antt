-- ===== src/Cron/Fields/Parts.antt =====
-- cron.rs: the parts of a field that parse have a range between the bounds of the field.
use voodoo_store.Prelude.{
  ℕ, ◌<◌, ◌≤◌, ◌≡◌, refl, subst, inl, inr, Bool, true, false, ◌||◌, List, [], ◌∷◌, arith, ltb, ◌==◌,
  Bool-cases, Option-cases, ltb→le,
}
use voodoo_store.Result.{Result, ok, fail_if, ok_or, ◌>>◌, >>=-eq-ok}
use voodoo_store.Cron.Chars.{Text, split_once, parse_u8, text_eq}
use voodoo_store.Cron.Fields.{
  CronError, invalid_field, parse_value, parse_step, parse_range, parse_part, mark_range,
}
use voodoo_store.Cron.Fields.Ranges.{InRange}

abbrev pub cron_ok : {A : Type 0} → A → Result CronError A
cron_ok a = ok a

pub ok_injective : {A : Type 0} {a b : A} → cron_ok a ≡ cron_ok b → a ≡ b
ok_injective e = cc

-- A check that lets the chain go on.
pub fail_if-ok :
    (test : Bool) (error : CronError) {A : Type 0} (next : Result CronError A) {a : A}
    → (fail_if test error >> next) ≡ ok a
    → (test ≡ false) × (next ≡ ok a)
fail_if-ok true error next h = cc
fail_if-ok false error next h = (refl, h)

parse_value-bounds :
    (value : Text) (min max : ℕ) (original : Text) {n : ℕ}
    → parse_value value min max original ≡ ok n
    → (min ≤ n) × (n ≤ max)
unfolding parse_value
parse_value-bounds value min max original {n} h =
    let (v, e, rest) = >>=-eq-ok (ok_or (parse_u8 value) (invalid_field original)) _ h in
    let (inside, same) = fail_if-ok _ _ _ rest in bounds v inside same
  where
    bounds : (v : ℕ) → (ltb v min || ltb max v) ≡ false → cron_ok v ≡ ok n → (min ≤ n) × (n ≤ max)
    bounds v inside same = let e : v ≡ n = cc in ground arith

module _ (input : Text) (min max : ℕ) where
  pub parse_step-positive :
      (part : Text) {base : Text} {step : ℕ} → parse_step input part ≡ ok (base, step) → 0 < step
  unfolding parse_step
  parse_step-positive part {base} {step} = elim (Option-cases (split_once b'/' part)) [
    | inl e ↦ rw (e, parse_step) (λ h. one h)
    | inr ((before, after), e) ↦
        rw (e, parse_step)
          (λ h.
            let (n, parsed, rest) = >>=-eq-ok (ok_or (parse_u8 after) (invalid_field input)) _ h in
            let (positive, same) = fail_if-ok _ _ _ rest in of_test n positive same)
  ]
    where
      one : cron_ok {A = Text × ℕ} (part, 1) ≡ ok (base, step) → 0 < step
      one h = let e : 1 ≡ step = cc in omega (arith, e)

      of_test :
          (n : ℕ) {before : Text}
          → (n == 0) ≡ false
          → cron_ok {A = Text × ℕ} (before, n) ≡ ok (base, step)
          → 0 < step
      of_test n positive same = let e : n ≡ step = cc in ground arith

  abbrev pub Bounds : ℕ → ℕ → Type 0
  Bounds start end = (min ≤ start) × (start ≤ max) × (min ≤ end) × (end ≤ max)

  pub parse_range-Bounds :
      (base : Text) {start end : ℕ}
      → min ≤ max
      → parse_range input base min max ≡ ok (start, end)
      → Bounds start end
  unfolding parse_range
  parse_range-Bounds base {start} {end} ordered = elim (Bool-cases (text_eq base (b'*' ∷ []))) [
    | inl star ↦
        rw star (λ h. of_pair h (omega (arith, ordered), ordered, ordered, omega (arith, ordered)))
    | inr other ↦ rw other (elim (Option-cases (split_once b'-' base)) [
      | inl e ↦ rw e (λ h.
          let (v, parsed, same) = >>=-eq-ok (parse_value base min max input) _ h in
          let (least, most) = parse_value-bounds base min max input parsed in
          of_pair same (least, most, least, most))
      | inr ((before, after), e) ↦ rw e (λ h.
          let (s, parsed, rest) = >>=-eq-ok (parse_value before min max input) _ h in
          let (t, parsed', same) = >>=-eq-ok (parse_value after min max input) _ rest in
          let (least, most) = parse_value-bounds before min max input parsed in
          let (least', most') = parse_value-bounds after min max input parsed' in
          of_pair same (least, most, least', most'))
    ])
  ]
    where
      of_pair :
          {s t : ℕ} → cron_ok {A = ℕ × ℕ} (s, t) ≡ ok (start, end) → Bounds s t → Bounds start end
      of_pair {s} {t} h b =
          let first : s ≡ start = cc in
          let second : t ≡ end = cc in
          subst (λ n. Bounds start n) second (subst (λ n. Bounds n t) first b)

  -- The range of one part of the text.
  pub record IsPart (part base : Text) (step start end : ℕ) : Type 0 where
    pub steps : parse_step input part ≡ ok (base, step)
    pub ranges : parse_range input base min max ≡ ok (start, end)
    pub ordered : start ≤ end

  -- The value is in the range of the part.
  abbrev pub PartAllows : Text → ℕ → Type 0
  PartAllows part value =
      (base : Text) × (step : ℕ) × (start : ℕ) × (end : ℕ) × IsPart part base step start end
      × InRange start step end value

  pub parse_part-IsPart :
      (part : Text) (allowed : List Bool) {result : List Bool}
      → parse_part input min max part allowed ≡ ok result
      → (base : Text) × (step : ℕ) × (start : ℕ) × (end : ℕ) × IsPart part base step start end
        × (result ≡ mark_range min start step end allowed)
  unfolding parse_part
  parse_part-IsPart part allowed h =
      let ((base, step), e, rest) = >>=-eq-ok (parse_step input part) _ h in
      let ((start, end), e', rest') = >>=-eq-ok (parse_range input base min max) _ rest in
      let (inside, same) = fail_if-ok _ _ _ rest' in
      (
        base,
        step,
        start,
        end,
        record { steps = e; ranges = e'; ordered = ltb→le end start inside },
        result_of same,
      )
    where
      result_of : {a b : List Bool} → cron_ok a ≡ ok b → b ≡ a
      result_of e = cc
