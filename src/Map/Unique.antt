-- ===== src/Map/Unique.antt =====
-- A map that lists no key twice: what it lists is what a lookup finds.
use mathlib.Core.List.{Memᴰ}
use mathlib.Core.List.Memᴰ
use voodoo_store.Prelude.{
  ◌≡◌, ◌≢◌, refl, sym, ap, ◌∙◌, inl, inr, false, Option, none, some, [], ◌∷◌, Bool-cases,
}
use voodoo_store.Map.{Eq, Map, get, insert, remove, get-insert_ne, get-remove_ne}

module _ {ℓ κ} {K : Type ℓ} {V : Type κ} ⦃e : Eq K⦄ where
  abbrev pub IsUnique : Map K V → Type κ
  IsUnique [] = Unit {κ}
  IsUnique ((k, v) ∷ m) = (get m k ≡ none) × IsUnique m

none_not_some {ℓ} : {A : Type ℓ} {a : A} → ◌≡◌ {A = Option A} none (some a) → ⊥
none_not_some h = cc

module _ {ℓ} {K : Type ℓ} ⦃e : Eq K⦄ where
  beq→ne : (j k : K) → e.beq j k ≡ false → j ≢ k
  beq→ne j k h same = cc (e.beq_refl j)

module _ {ℓ κ} {K : Type ℓ} {V : Type κ} ⦃e : Eq K⦄ where
  pub insert-IsUnique : (m : Map K V) (k : K) (v : V) → IsUnique m → IsUnique (insert m k v)
  unfolding insert get
  insert-IsUnique [] k v h = (refl, tt)
  insert-IsUnique ((j, w) ∷ m) k v (absent, h) = elim (Bool-cases (e.beq j k)) [
    | inl same ↦ rw same (absent, h)
    | inr differ ↦ rw differ (
      get-insert_ne m k j v (λ same. beq→ne j k differ (sym same)) ∙ absent,
      insert-IsUnique m k v h,
    )
  ]

  pub remove-IsUnique : (m : Map K V) (k : K) → IsUnique m → IsUnique (remove m k)
  unfolding remove get
  remove-IsUnique [] k h = tt
  remove-IsUnique ((j, w) ∷ m) k (absent, h) = elim (Bool-cases (e.beq j k)) [
    | inl same ↦ rw same (remove-IsUnique m k h)
    | inr differ ↦
        rw differ (
          get-remove_ne m k j (λ same. beq→ne j k differ (sym same)) ∙ absent,
          remove-IsUnique m k h,
        )
  ]

  -- An entry of the list is the one that a lookup finds.
  pub Memᴰ-get :
      (m : Map K V) (k : K) (v : V) → IsUnique m → Memᴰ {A = K × V} (k, v) m → get m k ≡ some v
  unfolding get
  Memᴰ-get [] k v h i = absurd (Memᴰ.not-nil i)
  Memᴰ-get ((j, w) ∷ m) k v (absent, h) i = elim (Memᴰ.cases_cons i) [
    | inl q ↦
        let same : j ≡ k = sym (ap (λ (x : K × V). x.0) q) in
        let value : w ≡ v = sym (ap (λ (x : K × V). x.1) q) in rw (same, e.beq_refl k, value) refl
    | inr later ↦ elim (Bool-cases (e.beq j k)) [
      | inl same ↦ absurd (
          none_not_some
            (sym absent ∙ ap (λ x. get m x) (e.beq→eq j k same) ∙ Memᴰ-get m k v h later))
      | inr differ ↦ rw differ (Memᴰ-get m k v h later)
    ]
  ]
