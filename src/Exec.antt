-- ===== src/Exec.antt =====
-- Methods on `&mut self` that return a `Result`: what was changed before an error stays changed.
use voodoo_store.Prelude.{◌≡◌, refl}
use voodoo_store.Result.{Result, ok, err, map_err}

abbrev pub Exec {ℓ κ μ} : Type ℓ → Type κ → Type μ → Type (ℓ ⊔ κ ⊔ μ)
Exec S E A = S → Result E A × S

module _ {ℓ κ μ} {S : Type ℓ} {E : Type κ} {A : Type μ} where
  abbrev pub pure : A → Exec S E A
  pure a s = (ok a, s)

  abbrev pub raise : E → Exec S E A
  raise e s = (err e, s)

  abbrev pub lift : Result E A → Exec S E A
  lift r s = (r, s)

  abbrev pub gets : (S → A) → Exec S E A
  gets f s = (ok (f s), s)

abbrev pub modify {ℓ κ} : {S : Type ℓ} {E : Type κ} → (S → S) → Exec S E (Unit {0})
modify f s = (ok tt, f s)

module _ {ℓ κ μ ν} {S : Type ℓ} {E : Type κ} {A : Type μ} {B : Type ν} where
  abbrev pub continue : Result E A → (A → Exec S E B) → Exec S E B
  continue (ok a) f s = f a s
  continue (err e) f s = (err e, s)

  infixl 5 ◌>>=◌
  abbrev pub ◌>>=◌ : Exec S E A → (A → Exec S E B) → Exec S E B
  ◌>>=◌ m f s = continue (m s).0 f (m s).1

infixl 5 ◌>>◌
abbrev pub ◌>>◌ {ℓ κ μ} :
    {S : Type ℓ} {E : Type κ} {B : Type μ} → Exec S E (Unit {0}) → Exec S E B → Exec S E B
m >> k = m >>= λ _. k

-- The `From` conversion that `?` applies to the error of a call.
abbrev pub map_error {ℓ κ μ ν} :
    {S : Type ℓ} {E : Type κ} {F : Type μ} {A : Type ν} → (E → F) → Exec S E A → Exec S F A
map_error f m s = (map_err f (m s).0, (m s).1)

-- The rule for a step of a chain: what holds when it succeeds, and when it fails.
pub continue_ind {ℓ κ μ ν ρ} :
    {S : Type ℓ} {E : Type κ} {A : Type μ} {B : Type ν} (P : Result E B → S → Type ρ)
    (r : Result E A) (f : A → Exec S E B) (s : S)
    → ((a : A) → r ≡ ok a → P (f a s).0 (f a s).1)
    → ((e : E) → r ≡ err e → P (err e) s)
    → P (continue r f s).0 (continue r f s).1
continue_ind P (ok a) f s good bad = good a refl
continue_ind P (err e) f s good bad = bad e refl
