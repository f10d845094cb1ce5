-- ===== src/Cron/Fields/Meaning.antt =====
-- cron.rs: a field matches what its text means.
use mathlib.Core.List.{Memᴰ}
use voodoo_store.Prelude.{
  ℕ, ◌<◌, ◌≤◌, ◌≡◌, ◌≢◌, refl, sym, ap, subst, ◌∙◌, inl, inr, ◌↔◌, true, false, ◌||◌, Option, some,
  none, [], ◌∷◌, ◌++◌, arith, length, ltb, ◌==◌, ne→eqb, Bool-cases, Option-cases,
}
use voodoo_store.Result.{ok, ok_or, >>=-eq-ok}
use voodoo_store.Cron.Chars.{Text, split, split_once, parse_u8, text_eq}
use voodoo_store.Cron.Fields.{
  CronError, invalid_field, Field, parse_value, parse_step, parse_range, parse, matches,
}
use voodoo_store.Cron.Fields.Grammar.{
  Lacks, IsNumber, IsStep, IsRange, parse_u8-IsNumber, IsNumber-parse_u8, text_eq→eq, ne→text_eq,
  split_once-some, split_once-none, Lacks-split_once, split_once-append,
}
use voodoo_store.Cron.Fields.Ranges.{InRange}
use voodoo_store.Cron.Fields.Parts.{
  cron_ok, ok_injective, fail_if-ok, PartAllows, parse_range-Bounds,
}
use voodoo_store.Cron.Fields.Allowed.{parse-allows}

unfoldable first_char : Text → ℕ
first_char [] = 0
first_char (c ∷ _) = c

no_range_star : (first last : Text) → first ++ b'-' ∷ last ≢ b'*' ∷ []
unfolding first_char
no_range_star [] last e = let heads = ap first_char e in omega (arith, heads)
no_range_star (c ∷ []) last e = let lengths = ap length e in omega (arith, lengths)
no_range_star (c ∷ d ∷ cs) last e = let lengths = ap length e in omega (arith, lengths)

no-IsNumber_star : (n : ℕ) → ¬ IsNumber (b'*' ∷ []) n
unfolding first_char
no-IsNumber_star n (inl (_, (low, _, _), _, _)) = omega (arith, low)
no-IsNumber_star n (inr (digits, f, _)) = let heads = ap first_char f in omega (arith, heads)

ok_or-some :
    {A : Type 0} (o : Option A) (e : CronError) {a : A} → ok_or o e ≡ cron_ok a → o ≡ some a
ok_or-some none e h = cc
ok_or-some (some a) e h = cc

module _ (input : Text) (min max : ℕ) where
  parse_value-IsNumber :
      (value : Text) {n : ℕ} → parse_value value min max input ≡ ok n → IsNumber value n
  unfolding parse_value
  parse_value-IsNumber value {n} h =
      let (v, parsed, rest) = >>=-eq-ok (ok_or (parse_u8 value) (invalid_field input)) _ h in
      let (_, same) = fail_if-ok _ _ _ rest in
      subst (IsNumber value) (ok_injective same)
        (parse_u8-IsNumber value v (ok_or-some (parse_u8 value) _ parsed))

  IsNumber-parse_value :
      (value : Text) (n : ℕ)
      → IsNumber value n
      → min ≤ n
      → n ≤ max
      → parse_value value min max input ≡ ok n
  unfolding parse_value
  IsNumber-parse_value value n number least most =
      rw (IsNumber-parse_u8 value n number, inside) refl
    where
      inside : (ltb n min || ltb max n) ≡ false
      inside = ground arith

  parse_step-IsStep :
      (part : Text) {base : Text} {step : ℕ}
      → parse_step input part ≡ ok (base, step)
      → IsStep part base step
  unfolding parse_step
  parse_step-IsStep part {base} {step} = elim (Option-cases (split_once b'/' part)) [
    | inl e ↦ rw (e, parse_step) (λ h. whole (split_once-none b'/' part e) (ok_injective h))
    | inr ((before, after), e) ↦
        rw (e, parse_step)
          (λ h.
            let (n, parsed, rest) = >>=-eq-ok (ok_or (parse_u8 after) (invalid_field input)) _ h in
            let (positive, same) = fail_if-ok _ _ _ rest in
            let (text, lacks) = split_once-some b'/' part e in
            parted before after n text lacks
              (parse_u8-IsNumber after n (ok_or-some (parse_u8 after) _ parsed)) positive
              (ok_injective same))
  ]
    where
      whole : Lacks b'/' part → ◌≡◌ {A = Text × ℕ} (part, 1) (base, step) → IsStep part base step
      whole lacks e = inl (lacks, sym (ap (λ p. p.0) e), sym (ap (λ p. p.1) e))

      parted :
          (before after : Text) (n : ℕ)
          → part ≡ before ++ b'/' ∷ after
          → Lacks b'/' before
          → IsNumber after n
          → (n == 0) ≡ false
          → ◌≡◌ {A = Text × ℕ} (before, n) (base, step)
          → IsStep part base step
      parted before after n text lacks number positive e =
          subst (λ (p : Text × ℕ). IsStep part p.0 p.1) e
            (inr (after, text, lacks, number, ground arith))

  IsStep-parse_step :
      (part base : Text) (step : ℕ)
      → IsStep part base step
      → parse_step input part ≡ ok (base, step)
  unfolding parse_step
  IsStep-parse_step part base step (inl (lacks, e, f)) =
      rw (Lacks-split_once b'/' part lacks, parse_step) (rw (e, f) refl)
  IsStep-parse_step part base step (inr (number, text, lacks, is_number, positive)) =
      rw
        (
          text,
          split_once-append b'/' base number lacks,
          parse_step,
          IsNumber-parse_u8 number step is_number,
          ne→eqb step 0 (λ e. omega (arith, e, positive)),
        )
        refl

  parse_range-IsRange :
      (base : Text) {start end : ℕ}
      → parse_range input base min max ≡ ok (start, end)
      → IsRange min max base start end
  unfolding parse_range
  parse_range-IsRange base {start} {end} = elim (Bool-cases (text_eq base (b'*' ∷ []))) [
    | inl star ↦
        rw star (λ h. of_pair min max h (inl (text_eq→eq base (b'*' ∷ []) star, refl, refl)))
    | inr other ↦ rw other (elim (Option-cases (split_once b'-' base)) [
      | inl e ↦ rw e (λ h.
          let (v, parsed, same) = >>=-eq-ok (parse_value base min max input) _ h in
          of_pair v v same
            (inr (inr (split_once-none b'-' base e, parse_value-IsNumber base parsed, refl))))
      | inr ((before, after), e) ↦ rw e (λ h.
          let (v, parsed, rest) = >>=-eq-ok (parse_value before min max input) _ h in
          let (w, parsed', same) = >>=-eq-ok (parse_value after min max input) _ rest in
          let (text, lacks) = split_once-some b'-' base e in
          of_pair v w same (
            inr (
              inl (
                before,
                after,
                text,
                lacks,
                parse_value-IsNumber before parsed,
                parse_value-IsNumber after parsed',
              ))))
    ])
  ]
    where
      of_pair :
          (v w : ℕ)
          → cron_ok {A = ℕ × ℕ} (v, w) ≡ ok (start, end)
          → IsRange min max base v w
          → IsRange min max base start end
      of_pair v w h r = subst (λ (p : ℕ × ℕ). IsRange min max base p.0 p.1) (ok_injective h) r

  IsRange-parse_range :
      (base : Text) (start end : ℕ)
      → IsRange min max base start end
      → min ≤ start
      → start ≤ end
      → end ≤ max
      → parse_range input base min max ≡ ok (start, end)
  unfolding parse_range
  IsRange-parse_range base start end (inl (e, f, g)) least ordered most = rw (e, f, g) refl
  IsRange-parse_range base start end (inr (inl (first, last, text, lacks, a, b))) least ordered
        most =
      rw
        (
          ne→text_eq base (b'*' ∷ []) (λ e. no_range_star first last (sym text ∙ e)),
          text,
          split_once-append b'-' first last lacks,
          IsNumber-parse_value first start a least (omega (arith, ordered, most)),
          IsNumber-parse_value last end b (omega (arith, ordered, least)) most,
        )
        refl
  IsRange-parse_range base start end (inr (inr (lacks, a, e))) least ordered most =
      rw
        (
          ne→text_eq base (b'*' ∷ [])
              (λ f. no-IsNumber_star start (subst (λ t. IsNumber t start) f a)),
          Lacks-split_once b'-' base lacks,
          IsNumber-parse_value base start a least (omega (arith, ordered, most)),
          e,
        )
        refl

  -- A part means the values from its start by its step up to its end, between the bounds.
  abbrev pub PartMeans : Text → ℕ → Type 0
  PartMeans part value =
      (base : Text) × (step : ℕ) × (start : ℕ) × (end : ℕ) × IsStep part base step
      × IsRange min max base start end
      × (min ≤ start)
      × (start ≤ end)
      × (end ≤ max)
      × InRange start step end value

  allows→means :
      (part : Text) (value : ℕ)
      → min ≤ max
      → PartAllows input min max part value
      → PartMeans part value
  allows→means part value ordered (base, step, start, end, p, reached) =
      let (least, _, _, most) = parse_range-Bounds input min max base ordered p.ranges in
      (
        base,
        step,
        start,
        end,
        parse_step-IsStep part p.steps,
        parse_range-IsRange base p.ranges,
        least,
        p.ordered,
        most,
        reached,
      )

  means→allows :
      (part : Text) (value : ℕ) → PartMeans part value → PartAllows input min max part value
  means→allows part value
        (base, step, start, end, is_step, is_range, least, ordered, most, reached) =
      (
        base,
        step,
        start,
        end,
        record {
          steps = IsStep-parse_step part base step is_step;
          ranges = IsRange-parse_range base start end is_range least ordered most;
          ordered = ordered;
        },
        reached,
      )

  -- A field that parses between bounds below 256 matches a value just when one of the parts that the
  -- commas of its text separate means the value. A part is a star for all values, a number for itself,
  -- or two numbers with a dash between for the values from the one to the other; a slash and a number
  -- behind it keep every so many of them.
  pub parse-matches :
      {field : Field}
      → min ≤ max
      → max < 256
      → parse input min max ≡ ok field
      → (value : ℕ)
      → (matches field value ≡ true)
        ↔ ((part : Text) × Memᴰ part (split (λ c. c == b',') input) × PartMeans part value)
  parse-matches ordered small h value =
      let (forth, back) = parse-allows input min max ordered small h value in
      (
        λ hit. let (part, m, a) = forth hit in (part, m, allows→means part value ordered a),
        λ (part, m, a). back (part, m, means→allows part value a),
      )
