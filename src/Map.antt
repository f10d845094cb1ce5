-- ===== src/Map.antt =====
-- `HashMap`, `HashSet` and the sorting of entries by key. A map lists its entries in the order of
-- their first insertion; the code that iterates over one sorts the entries or only adds them up.
pub mod Unique
pub mod Table
use voodoo_store.Prelude.{
  ℕ, ◌≡◌, ◌≢◌, refl, Bool, true, false, Option, none, some, List, [], ◌∷◌, arith, if◌then◌else◌,
  eqb→eq, eqb_refl, ◌==◌,
}
use voodoo_store.Bytes.{Bytes, bytes_eq, bytes_eq→eq, bytes_eq_refl, bytes_lt}

pub record Eq {ℓ} (A : Type ℓ) : Type ℓ where
  pub beq : A → A → Bool
  pub beq→eq : (a b : A) → beq a b ≡ true → a ≡ b
  pub beq_refl : (a : A) → beq a a ≡ true

instance abbrev pub id_eq : Eq ℕ
id_eq = record { beq = ◌==◌; beq→eq = eqb→eq; beq_refl = eqb_refl }

instance abbrev pub key_eq : Eq Bytes
key_eq = record { beq = bytes_eq; beq→eq = bytes_eq→eq; beq_refl = bytes_eq_refl }

abbrev pub Map {ℓ κ} : Type ℓ → Type κ → Type (ℓ ⊔ κ)
Map K V = List (K × V)

module _ {ℓ κ} {K : Type ℓ} {V : Type κ} ⦃e : Eq K⦄ where
  unfoldable pub get : Map K V → K → Option V
  get [] k = none
  get ((j, v) ∷ m) k = if e.beq j k then some v else get m k

  unfoldable pub insert : Map K V → K → V → Map K V
  insert [] k v = (k, v) ∷ []
  insert ((j, w) ∷ m) k v = if e.beq j k then (j, v) ∷ m else (j, w) ∷ insert m k v

  unfoldable pub remove : Map K V → K → Map K V
  remove [] k = []
  remove ((j, w) ∷ m) k = let rest = remove m k in if e.beq j k then rest else (j, w) ∷ rest

module _ {ℓ κ} {K : Type ℓ} {V : Type κ} ⦃e : Eq K⦄ where
  pub get-insert_self : (m : Map K V) (k : K) (v : V) → get (insert m k v) k ≡ some v
  unfolding get insert
  get-insert_self [] k v = ground (arith, e.beq_refl k)
  get-insert_self ((j, w) ∷ m) k v = ground (arith, get-insert_self m k v)

  pub get-insert_ne : (m : Map K V) (k j : K) (v : V) → k ≢ j → get (insert m k v) j ≡ get m j
  unfolding get insert
  get-insert_ne [] k j v h = ground (arith, e.beq→eq k j)
  get-insert_ne ((i, w) ∷ m) k j v h =
      ground (arith, e.beq→eq i k, e.beq→eq i j, get-insert_ne m k j v h)

  pub get-remove_self : (m : Map K V) (k : K) → get (remove m k) k ≡ none
  unfolding get remove
  get-remove_self [] k = refl
  get-remove_self ((j, w) ∷ m) k = ground (arith, get-remove_self m k)

  pub get-remove_ne : (m : Map K V) (k j : K) → k ≢ j → get (remove m k) j ≡ get m j
  unfolding get remove
  get-remove_ne [] k j h = refl
  get-remove_ne ((i, w) ∷ m) k j h =
      ground (arith, e.beq→eq i k, e.beq→eq i j, get-remove_ne m k j h)

module _ {ℓ} {K : Type ℓ} ⦃e : Eq K⦄ where
  -- `HashSet::contains`, and `[T]::contains`.
  unfoldable pub contains : List K → K → Bool
  contains [] k = false
  contains (j ∷ s) k = if e.beq j k then true else contains s k

  -- `HashSet::insert`
  unfoldable pub add : List K → K → List K
  add s k = if contains s k then s else k ∷ s

-- `sort_unstable_by(|left, right| left.0.cmp(&right.0))`: keys differ, so the order is the only one.
module _ {ℓ} {V : Type ℓ} where
  unfoldable pub insert_sorted : Bytes × V → Map Bytes V → Map Bytes V
  insert_sorted (k, v) [] = (k, v) ∷ []
  insert_sorted (k, v) ((j, w) ∷ m) =
      if bytes_lt j k then (j, w) ∷ insert_sorted (k, v) m else (k, v) ∷ (j, w) ∷ m

  unfoldable pub sort_by_key : Map Bytes V → Map Bytes V
  unfolding insert_sorted
  sort_by_key [] = []
  sort_by_key (entry ∷ m) = insert_sorted entry (sort_by_key m)
