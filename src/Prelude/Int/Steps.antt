-- ===== src/Prelude/Int/Steps.antt =====
-- Times at equal distances, and searches along them.
use native.Mathlib.Nat.{suc-mul}
use voodoo_store.Prelude.{ℕ, zero, suc, ◌*◌, ◌≡◌, ◌<◌, ◌≤◌, sym, subst, ◌∙◌, arith}
use voodoo_store.Prelude.Int.{ℤ, pos, ◌+ℤ◌, int_laws, eq_of_parts, +ℤ_parts}

-- The run that is `k` intervals later.
abbrev pub run_at : ℤ → ℕ → ℕ → ℤ
run_at next every k = next +ℤ pos (k * every)

pub run_at-zero : (next : ℤ) (every : ℕ) → run_at next every 0 ≡ next
run_at-zero next every = omega int_laws

pub run_at-suc :
    (next : ℤ) (every k : ℕ) → run_at (next +ℤ pos every) every k ≡ run_at next every (suc k)
run_at-suc next every k = eq_of_parts _ _ (
    omega (
      arith,
      suc-mul k every,
      +ℤ_parts next (pos every),
      +ℤ_parts next (pos (suc k * every)),
      +ℤ_parts (next +ℤ pos every) (pos (k * every)),
    ))

pub run_at-one : (next : ℤ) (every : ℕ) → run_at next every 1 ≡ next +ℤ pos every
run_at-one next every = sym (run_at-suc next every 0) ∙ run_at-zero (next +ℤ pos every) every

module _ {ℓ} (P : ℤ → Type ℓ) (every : ℕ) where
  -- What is so of the later times, and of the first one.
  pub all_times :
      (next : ℤ) (k : ℕ)
      → P next
      → ((j : ℕ) → j < k → P (run_at (next +ℤ pos every) every j))
      → (j : ℕ) → j < suc k
      → P (run_at next every j)
  all_times next k first rest zero h = subst P (sym (run_at-zero next every)) first
  all_times next k first rest (suc j) h = subst P (run_at-suc next every j) (rest j (omega arith))

  pub first_time : (next : ℤ) → P next → (j : ℕ) → j ≤ 0 → P (run_at next every j)
  first_time next first j h =
      subst (λ i. P (run_at next every i)) (zero_of h)
        (subst P (sym (run_at-zero next every)) first)
    where
      zero_of : j ≤ 0 → 0 ≡ j
      zero_of h = omega arith
