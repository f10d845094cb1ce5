-- ===== src/Cron/Fields/Ranges.antt =====
-- cron.rs: the loop over the values of a part allows the values of its range, and no others.
use native.Mathlib.Nat.{suc-mul}
use voodoo_store.Prelude.{
  ℕ, zero, suc, ◌+◌, ◌-◌, ◌*◌, ◌<◌, ◌≤◌, ◌≡◌, refl, subst, ◌⊎◌, inl, inr, ◌∙◌, ap, Bool, true,
  false, ◌&&◌, List, [], ◌∷◌, arith, ltb, leb, length, Bool-cases,
}
use voodoo_store.Cron.Fields.{allow, allowed_at, mark, none_allowed}

-- The values start, start + step, ... up to the end.
abbrev pub InRange : ℕ → ℕ → ℕ → ℕ → Type 0
InRange start step end value = (k : ℕ) × (value ≡ start + k * step) × (value ≤ end)

abbrev pub IsAllowed : List Bool → ℕ → Type 0
IsAllowed allowed i = allowed_at allowed i ≡ true

pub none_allowed-IsAllowed : (n i : ℕ) → IsAllowed (none_allowed n) i → ⊥
unfolding allowed_at
none_allowed-IsAllowed zero i h = cc
none_allowed-IsAllowed (suc n) zero h = cc
none_allowed-IsAllowed (suc n) (suc i) h = none_allowed-IsAllowed n i h

pub length-none_allowed : (n : ℕ) → length (none_allowed n) ≡ n
length-none_allowed zero = refl
length-none_allowed (suc n) = ap suc (length-none_allowed n)

length-allow : (i : ℕ) (allowed : List Bool) → length (allow i allowed) ≡ length allowed
unfolding allow
length-allow i [] = refl
length-allow zero (value ∷ values) = refl
length-allow (suc i) (value ∷ values) = ap suc (length-allow i values)

allow-IsAllowed : (i : ℕ) (allowed : List Bool) → i < length allowed → IsAllowed (allow i allowed) i
unfolding allow allowed_at
allow-IsAllowed i [] h = absurd (omega (arith, h))
allow-IsAllowed zero (value ∷ values) h = refl
allow-IsAllowed (suc i) (value ∷ values) h = allow-IsAllowed i values (omega (arith, h))

allow_keeps : (i k : ℕ) (allowed : List Bool) → IsAllowed allowed k → IsAllowed (allow i allowed) k
unfolding allow allowed_at
allow_keeps i k [] h = h
allow_keeps zero zero (value ∷ values) h = refl
allow_keeps zero (suc k) (value ∷ values) h = h
allow_keeps (suc i) zero (value ∷ values) h = h
allow_keeps (suc i) (suc k) (value ∷ values) h = allow_keeps i k values h

allow_only :
    (i k : ℕ) (allowed : List Bool) → IsAllowed (allow i allowed) k → IsAllowed allowed k ⊎ (k ≡ i)
unfolding allow allowed_at
allow_only i k [] h = inl h
allow_only zero zero (value ∷ values) h = inr refl
allow_only zero (suc k) (value ∷ values) h = inl h
allow_only (suc i) zero (value ∷ values) h = inl h
allow_only (suc i) (suc k) (value ∷ values) h = elim (allow_only i k values h) [
  | inl kept ↦ inl kept
  | inr same ↦ inr (ap suc same)
]

module _ (min step end : ℕ) where
  -- The test for another round.
  goes_on : ℕ → Bool
  goes_on value = ltb (value + step) 256 && leb (value + step) end

  mark_last :
      (fuel value : ℕ) (allowed : List Bool)
      → goes_on value ≡ false
      → mark (suc fuel) min value step end allowed ≡ allow (value - min) allowed
  unfolding goes_on mark allow
  mark_last fuel value allowed stop = rw (stop, mark) refl

  mark_on :
      (fuel value : ℕ) (allowed : List Bool)
      → goes_on value ≡ true
      → mark (suc fuel) min value step end allowed
        ≡ mark fuel min (value + step) step end (allow (value - min) allowed)
  unfolding goes_on mark
  mark_on fuel value allowed on = rw (on, mark) refl

  goes_on-le : (value : ℕ) → goes_on value ≡ true → value + step ≤ end
  unfolding goes_on
  goes_on-le value on = ground arith

  goes_on-lt : (value : ℕ) → end < 256 → goes_on value ≡ false → end < value + step
  unfolding goes_on
  goes_on-lt value small stop = ground arith

  pub length-mark :
      (fuel value : ℕ) (allowed : List Bool)
      → length (mark fuel min value step end allowed) ≡ length allowed
  unfolding mark
  length-mark zero value allowed = refl
  length-mark (suc fuel) value allowed = elim (Bool-cases (goes_on value)) [
    | inr stop ↦ rw (mark_last fuel value allowed stop) (length-allow (value - min) allowed)
    | inl on ↦ rw (mark_on fuel value allowed on) (
        length-mark fuel (value + step) (allow (value - min) allowed)
        ∙ length-allow (value - min) allowed)
  ]

  pub mark_keeps :
      (fuel value : ℕ) (allowed : List Bool) (i : ℕ)
      → IsAllowed allowed i
      → IsAllowed (mark fuel min value step end allowed) i
  unfolding mark
  mark_keeps zero value allowed i h = h
  mark_keeps (suc fuel) value allowed i h = elim (Bool-cases (goes_on value)) [
    | inr stop ↦ rw (mark_last fuel value allowed stop) (allow_keeps (value - min) i allowed h)
    | inl on ↦ rw (mark_on fuel value allowed on) (
        mark_keeps fuel (value + step) (allow (value - min) allowed) i
          (allow_keeps (value - min) i allowed h))
  ]

  module _ (i : ℕ) where
    abbrev pub Reaches : ℕ → Type 0
    Reaches value = InRange value step end (i + min)

    here : (value : ℕ) → min ≤ value → value ≤ end → i ≡ value - min → Reaches value
    here value least most same = (0, omega (arith, least, same), omega (arith, least, most, same))

    later : (value : ℕ) → Reaches (value + step) → Reaches value
    later value (k, e, most) = (suc k, e ∙ omega (arith, suc-mul k step), most)

    -- The loop allows nothing but what is in the range.
    pub mark_only :
        (fuel value : ℕ) (allowed : List Bool)
        → min ≤ value
        → value ≤ end
        → IsAllowed (mark fuel min value step end allowed) i
        → IsAllowed allowed i ⊎ Reaches value
    unfolding mark
    mark_only zero value allowed least most = λ h. inl h
    mark_only (suc fuel) value allowed least most = elim (Bool-cases (goes_on value)) [
      | inr stop ↦ rw (mark_last fuel value allowed stop) (λ h. one value allowed least most h)
      | inl on ↦ rw (mark_on fuel value allowed on) (λ h.
          elim (mark_only fuel (value + step) (allow (value - min) allowed) (omega (arith, least))
            (goes_on-le value on) h) [
              | inl before ↦ one value allowed least most before
              | inr further ↦ inr (later value further)
            ])
    ]
      where
        one :
            (value : ℕ) (allowed : List Bool)
            → min ≤ value
            → value ≤ end
            → IsAllowed (allow (value - min) allowed) i
            → IsAllowed allowed i ⊎ Reaches value
        one value allowed least most h = elim (allow_only (value - min) i allowed h) [
          | inl before ↦ inl before
          | inr same ↦ inr (here value least most same)
        ]

    -- The loop allows all of the range.
    pub mark_all :
        (fuel value : ℕ) (allowed : List Bool)
        → 0 < step
        → min ≤ value
        → end < 256
        → end < length allowed + min
        → end < fuel + value
        → Reaches value
        → IsAllowed (mark fuel min value step end allowed) i
    unfolding mark
    mark_all zero value allowed positive least small inside enough (k, e, most) =
        absurd (omega (arith, enough, e, most))
    mark_all (suc fuel) value allowed positive least small inside enough (zero, e, most) =
        let same : value - min ≡ i = omega (arith, e, least) in
        let first : IsAllowed (allow (value - min) allowed) i =
          subst (λ j. IsAllowed (allow (value - min) allowed) j) same
            (allow-IsAllowed (value - min) allowed (omega (arith, e, most, inside, least))) in
        elim (Bool-cases (goes_on value)) [
          | inr stop ↦ rw (mark_last fuel value allowed stop) first
          | inl on ↦
              rw (mark_on fuel value allowed on)
                (mark_keeps fuel (value + step) (allow (value - min) allowed) i first)
        ]
    mark_all (suc fuel) value allowed positive least small inside enough (suc k, e, most) =
        elim (Bool-cases (goes_on value)) [
          | inr stop ↦ absurd (omega (arith, e, most, goes_on-lt value small stop, suc-mul k step))
          | inl on ↦ rw (mark_on fuel value allowed on) (
              mark_all fuel (value + step) (allow (value - min) allowed) positive
                (omega (arith, least)) small (rw (length-allow (value - min) allowed) inside)
                (omega (arith, enough, positive)) (k, e ∙ omega (arith, suc-mul k step), most))
        ]
