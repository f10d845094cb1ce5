-- ===== src/Map/Table.antt =====
-- The entries of a map under a prefix as a table of records: what is so of every record.
use voodoo_store.Prelude.{
  ◌≡◌, ◌≢◌, sym, ap, subst, ◌∙◌, inl, inr, true, false, Option, some, Bool-cases,
}
use voodoo_store.Result.{Result, ok}
use voodoo_store.Bytes.{Bytes, starts_with, bytes_eq, bytes_eq→eq, bytes_eq_refl}
use voodoo_store.Map.{Map, get, key_eq}

-- Every record that decodes, under a key with the prefix, is good for its key.
pub record IsTable {E R : Type 0} (prefix : Bytes) (decode : Bytes → Result E R)
    (Good : Bytes → R → Type 0) (state : Map Bytes Bytes) : Type 0 where
  pub at :
      (key value : Bytes) (r : R)
      → starts_with key prefix ≡ true
      → get state key ≡ some value
      → decode value ≡ ok r
      → Good key r

module _ {E R : Type 0} {prefix : Bytes} {decode : Bytes → Result E R} {Good : Bytes → R → Type 0}
    (state state' : Map Bytes Bytes) (table : IsTable prefix decode Good state) where
  -- One record is stored.
  pub IsTable-stored :
      (key value : Bytes) (r : R)
      → get state' key ≡ some value
      → decode value ≡ ok r
      → Good key r
      → ((j : Bytes) → starts_with j prefix ≡ true → key ≢ j → get state' j ≡ get state j)
      → IsTable prefix decode Good state'
  IsTable-stored key value r stored decoded good others = record { at = at }
    where
      differ_ne : (j : Bytes) → bytes_eq key j ≡ false → key ≢ j
      differ_ne j h same = cc (bytes_eq_refl key)

      some_inj : {v w : Bytes} → ◌≡◌ {A = Option Bytes} (some v) (some w) → v ≡ w
      some_inj h = cc

      ok_inj : {x y : R} → ◌≡◌ {A = Result E R} (ok x) (ok y) → x ≡ y
      ok_inj h = cc

      at :
          (j v : Bytes) (x : R)
          → starts_with j prefix ≡ true
          → get state' j ≡ some v
          → decode v ≡ ok x
          → Good j x
      at j v x prefixed found read = elim (Bool-cases (bytes_eq key j)) [
        | inl same ↦
            let key_same = bytes_eq→eq key j same in
            let value_same : v ≡ value =
              some_inj (sym found ∙ ap (λ k. get state' k) (sym key_same) ∙ stored) in
            let r_same : r ≡ x = ok_inj (sym decoded ∙ ap decode (sym value_same) ∙ read) in
            subst (λ k. Good k x) key_same (subst (λ y. Good key y) r_same good)
        | inr differ ↦
            table.at j v x prefixed (sym (others j prefixed (differ_ne j differ)) ∙ found) read
      ]

  -- One record is removed, or no key of the table has changed.
  pub IsTable-kept :
      ((j v : Bytes) → starts_with j prefix ≡ true → get state' j ≡ some v → get state j ≡ some v)
      → IsTable prefix decode Good state'
  IsTable-kept kept = record {
    at = λ j v x prefixed found read. table.at j v x prefixed (kept j v prefixed found) read;
  }
