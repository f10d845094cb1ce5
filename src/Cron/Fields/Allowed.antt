-- ===== src/Cron/Fields/Allowed.antt =====
-- cron.rs: a field matches the values of the ranges that its text lists.
use mathlib.Core.List.{Memᴰ}
use voodoo_store.Prelude.{
  ℕ, suc, ◌+◌, ◌-◌, ◌<◌, ◌≤◌, ◌≡◌, refl, sym, subst, ap, ◌⊎◌, inl, inr, ◌∙◌, ◌↔◌, Bool, true, false,
  ◌||◌, not, List, [], ◌∷◌, arith, ltb, ◌==◌, length, Bool-cases,
}
use voodoo_store.Result.{ok, >>=-eq-ok}
use voodoo_store.Cron.Chars.{Text, split}
use voodoo_store.Cron.Fields.{
  Field, parse_range, parse_part, parse_parts, parse, matches, mark_range, none_allowed, any,
}
use voodoo_store.Cron.Fields.Ranges.{
  InRange, IsAllowed, mark_only, mark_all, mark_keeps, length-mark, length-none_allowed,
  none_allowed-IsAllowed,
}
use voodoo_store.Cron.Fields.Parts.{
  ok_injective, fail_if-ok, parse_step-positive, parse_range-Bounds, IsPart, PartAllows,
  parse_part-IsPart,
}

module _ (field : Field) where
  matches→bounds :
      (value : ℕ)
      → matches field value ≡ true
      → (field.min ≤ value) × (value ≤ field.max) × IsAllowed field.allowed (value - field.min)
  unfolding matches
  matches→bounds value = elim (Bool-cases (ltb value field.min || ltb field.max value)) [
    | inl out ↦ rw out (λ h. cc)
    | inr inside ↦ rw inside (λ h. (ground arith, ground arith, h))
  ]

  bounds→matches :
      (value : ℕ)
      → field.min ≤ value
      → value ≤ field.max
      → IsAllowed field.allowed (value - field.min)
      → matches field value ≡ true
  unfolding matches
  bounds→matches value least most h =
      let inside : (ltb value field.min || ltb field.max value) ≡ false = ground arith in
      rw inside h

module _ (input : Text) (min max : ℕ) where
  -- What holds of the marks after a part, when they are for the values from `min` to `max`.
  record Marks (allowed result : List Bool) (Allows : ℕ → Type 0) : Type 0 where
    len : length result ≡ length allowed
    only : (i : ℕ) → IsAllowed result i → IsAllowed allowed i ⊎ Allows (i + min)
    old : (i : ℕ) → IsAllowed allowed i → IsAllowed result i
    all : (i : ℕ) → Allows (i + min) → IsAllowed result i

  module _ (ordered : min ≤ max) (small : max < 256) where
    parse_part-Marks :
        (part : Text) (allowed : List Bool) {result : List Bool}
        → length allowed ≡ max - min + 1
        → parse_part input min max part allowed ≡ ok result
        → Marks allowed result (PartAllows input min max part)
    parse_part-Marks part allowed {result} whole h =
        let (base, step, start, end, p, e) = parse_part-IsPart input min max part allowed h in
        subst (λ r. Marks allowed r (PartAllows input min max part)) (sym e)
          (marks base step start end p)
      where
        marks :
            (base : Text) (step start end : ℕ)
            → IsPart input min max part base step start end
            → Marks allowed (mark_range min start step end allowed) (PartAllows input min max part)
        marks base step start end p =
            let (least, _, _, most) = parse_range-Bounds input min max base ordered p.ranges in
            record {
              len = length-mark min step end (suc (end - start)) start allowed;
              only = λ i h.
                  elim (mark_only min step end i (suc (end - start)) start allowed least p.ordered
                    h) [
                      | inl before ↦ inl before
                      | inr reached ↦ inr (base, step, start, end, p, reached)
                    ];
              old = λ i h. mark_keeps min step end (suc (end - start)) start allowed i h;
              all = λ i (base', step', start', end', p', reached).
                  mark_all min step end i (suc (end - start)) start allowed
                    (parse_step-positive input min max part p.steps) least
                    (omega (arith, most, small)) (omega (arith, most, whole, ordered))
                    (omega (arith, p.ordered)) (same base' step' start' end' i p' reached);
            }
          where
            same :
                (base' : Text) (step' start' end' i : ℕ)
                → IsPart input min max part base' step' start' end'
                → InRange start' step' end' (i + min)
                → InRange start step end (i + min)
            same base' step' start' end' i p' reached =
                let e : (base', step') ≡ (base, step) = ok_injective (sym p'.steps ∙ p.steps) in
                let ranges' : parse_range input base' min max ≡ ok (start, end) =
                  subst (λ b. parse_range input b min max ≡ ok (start, end)) (sym (ap (λ q. q.0) e))
                    p.ranges in
                let e' : (start', end') ≡ (start, end) = ok_injective (sym p'.ranges ∙ ranges') in
                subst (λ q. InRange q.0 step q.1 (i + min)) e'
                  (subst (λ n. InRange start' n end' (i + min)) (ap (λ q. q.1) e) reached)

    -- One of the parts has the value in its range.
    abbrev pub ListAllows : List Text → ℕ → Type 0
    ListAllows parts value = (part : Text) × Memᴰ part parts × PartAllows input min max part value

    parse_parts-Marks :
        (parts : List Text) (allowed : List Bool) {result : List Bool}
        → length allowed ≡ max - min + 1
        → parse_parts input min max parts allowed ≡ ok result
        → Marks allowed result (ListAllows parts)
    unfolding parse_parts
    parse_parts-Marks [] allowed whole h =
        subst (λ r. Marks allowed r (ListAllows [])) (ok_injective h)
          (record {
            len = refl;
            only = λ i h. inl h;
            old = λ i h. h;
            all = λ i (part, m, _). absurd (nowhere m);
          })
      where
        nowhere : {part : Text} → Memᴰ part [] → ⊥
        nowhere m = elim m [ ]
    parse_parts-Marks (part ∷ parts) allowed whole h =
        let (between, first, rest) = >>=-eq-ok (parse_part input min max part allowed) _ h in
        let one = parse_part-Marks part allowed whole first in
        both one (parse_parts-Marks parts between (one.len ∙ whole) rest)
      where
        of_head :
            (i : ℕ)
            → ListAllows (part ∷ parts) i
            → PartAllows input min max part i ⊎ ListAllows parts i
        of_head i (p, Memᴰ.head e, a) = inl (subst (λ q. PartAllows input min max q i) e a)
        of_head i (p, Memᴰ.tail m, a) = inr (p, m, a)

        both :
            {between result : List Bool}
            → Marks allowed between (PartAllows input min max part)
            → Marks between result (ListAllows parts)
            → Marks allowed result (ListAllows (part ∷ parts))
        both one more = record {
          len = more.len ∙ one.len;
          only = λ i h. elim (more.only i h) [
            | inr (p, m, a) ↦ inr (p, Memᴰ.tail m, a)
            | inl before ↦ elim (one.only i before) [
              | inl before ↦ inl before
              | inr a ↦ inr (part, Memᴰ.head refl, a)
            ]
          ];
          old = λ i h. more.old i (one.old i h);
          all = λ i a. elim (of_head (i + min) a) [
            | inl first ↦ more.old i (one.all i first)
            | inr rest ↦ more.all i rest
          ];
        }

    -- A part allows only values between the bounds.
    PartAllows-bounds :
        (part : Text) (value : ℕ)
        → PartAllows input min max part value
        → (min ≤ value) × (value ≤ max)
    PartAllows-bounds part value (base, step, start, end, p, (k, e, most)) =
        let (least, _, _, last) = parse_range-Bounds input min max base ordered p.ranges in
        (omega (arith, least, e), omega (arith, most, last))

    -- The field that a text parses to.
    record IsParsed (field : Field) : Type 0 where
      low : field.min ≡ min
      high : field.max ≡ max
      marks :
          Marks
            (none_allowed (max - min + 1))
            field.allowed
            (ListAllows (split (λ c. c == b',') input))

    parse-IsParsed : {field : Field} → parse input min max ≡ ok field → IsParsed field
    unfolding parse
    parse-IsParsed {field} h =
        let (allowed, parsed, rest) = >>=-eq-ok (parse_parts input min max _ _) _ h in
        let (found, same) = fail_if-ok (not (any allowed)) _ _ rest in
        subst IsParsed (ok_injective same) (record {
          low = refl;
          high = refl;
          marks = parse_parts-Marks _ _ (length-none_allowed (max - min + 1)) parsed;
        })

    -- A field matches the values of the ranges that the parser has found in its parts.
    pub parse-allows :
        {field : Field}
        → parse input min max ≡ ok field
        → (value : ℕ)
        → (matches field value ≡ true) ↔ (
            (part : Text) × Memᴰ part (split (λ c. c == b',') input)
            × PartAllows input min max part value)
    parse-allows {field} h value = (forth, back)
      where
        p : IsParsed field
        p = parse-IsParsed h

        forth : matches field value ≡ true → ListAllows (split (λ c. c == b',') input) value
        forth hit =
            let (least, most, allowed) = matches→bounds field value hit in
            elim (p.marks.only (value - field.min) allowed) [
              | inl before ↦ absurd (none_allowed-IsAllowed _ _ before)
              | inr found ↦
                  let e : value - field.min + min ≡ value = omega (arith, least, p.low) in
                  subst (ListAllows (split (λ c. c == b',') input)) e found
            ]

        back : ListAllows (split (λ c. c == b',') input) value → matches field value ≡ true
        back (part, m, a) =
            let (least, most) = PartAllows-bounds part value a in
            let e : value - field.min + min ≡ value = omega (arith, least, p.low) in
            bounds→matches field value (omega (arith, least, p.low)) (omega (arith, most, p.high)) (
              p.marks.all (value - field.min)
                (subst (ListAllows (split (λ c. c == b',') input)) (sym e) (part, m, a)))
