-- ===== src/Bytes/Prefix.antt =====
-- Prefixes of byte strings: which strings start with them.
use voodoo_store.Prelude.{◌≡◌, refl, Bool, true, false, not, ◌||◌, [], ◌∷◌, ◌++◌, arith, ◌==◌}
use voodoo_store.Bytes.{Bytes, starts_with}

-- No string starts with both.
abbrev pub parts_from : Bytes → Bytes → Bool
parts_from [] r = false
parts_from (x ∷ p) [] = false
parts_from (x ∷ p) (y ∷ r) = not (x == y) || parts_from p r

pub starts_with-parts_from :
    (key p r : Bytes) → parts_from p r ≡ true → starts_with key p ≡ true → starts_with key r ≡ false
unfolding starts_with
starts_with-parts_from key [] r h k = cc
starts_with-parts_from key (x ∷ p) [] h k = cc
starts_with-parts_from [] (x ∷ p) (y ∷ r) h k = cc
starts_with-parts_from (b ∷ key) (x ∷ p) (y ∷ r) h k =
    ground (arith, starts_with-parts_from key p r)

pub starts_with-append_self : (p rest : Bytes) → starts_with (p ++ rest) p ≡ true
unfolding starts_with
starts_with-append_self [] rest = refl
starts_with-append_self (x ∷ p) rest = ground (arith, starts_with-append_self p rest)

pub starts_with-append_both : (p a b : Bytes) → starts_with (p ++ a) (p ++ b) ≡ starts_with a b
unfolding starts_with
starts_with-append_both [] a b = refl
starts_with-append_both (x ∷ p) a b = ground (arith, starts_with-append_both p a b)
