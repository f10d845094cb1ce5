-- ===== src/Atomic/Effects.antt =====
-- atomic.rs: what the operations do to the store.
use voodoo_store.Prelude.{
  ℕ, subst, length, inl, inr, ◌==◌, Bool-cases, ◌≡◌, ◌≢◌, refl, ap, ◌∙◌, Bool, true, false, Option,
  none, some, arith,
}
use voodoo_store.Prelude.Int.{ℤ, pos, ◌+ℤ◌}
use voodoo_store.Result.{Result, ok, err, ok_or, map_err}
use voodoo_store.Exec.{continue, continue_ind, pure}
use voodoo_store.Bytes.{
  Bytes, bytes_eq→eq, bytes_eq_refl, to_le_bytes, from_le_bytes, length-to_le_bytes,
  from_le_bytes-to_le_bytes,
}
use voodoo_store.Bytes.Words.{
  i64_half, fits, from_bits, to_bits, to_bits-lt, from_bits-to_bits, checked_add_i64, Fits,
  fits→Fits,
}
use voodoo_store.Platform.{Platform}
use voodoo_store.Map.{get, key_eq, get-insert_self, get-insert_ne, get-remove_self, get-remove_ne}
use voodoo_store.Engine.Payload.{put, delete, EngineError, apply_operation}
use voodoo_store.Engine.Store.{Store}
use voodoo_store.Engine.Commit.{transact, put_key}
use voodoo_store.Engine.Durability.Sealing.{HasLog}
use voodoo_store.Engine.Durability.Keys.{IsOutside}
use voodoo_store.Engine.Durability.UserKeys.{
  ensure_user_key-IsOutside, UserPost, put_user-UserPost, delete_user-UserPost,
}
use voodoo_store.Atomic.{
  CasOutcome, swapped, mismatch, AtomicError, store, overflow, invalid_counter, same_value,
  counter_of, replace_value, swap_if, compare_and_swap, increment_i64,
}

same_value→eq : (a b : Option Bytes) → same_value a b ≡ true → a ≡ b
unfolding same_value
same_value→eq none none h = refl
same_value→eq none (some w) h = cc
same_value→eq (some v) none h = cc
same_value→eq (some v) (some w) h = ap some (bytes_eq→eq v w h)

same_value_refl : (a : Option Bytes) → same_value a a ≡ true
unfolding same_value
same_value_refl none = refl
same_value_refl (some v) = bytes_eq_refl v

same_value→ne : (a b : Option Bytes) → same_value a b ≡ false → a ≢ b
same_value→ne a b h e = cc (same_value_refl a)

module _ ⦃d : Platform⦄ where
  -- The key reads as `replacement`, and no other key outside the change feed has changed.
  pub record Replaced (key : Bytes) (replacement : Option Bytes) (s s' : Store) : Type 0 where
    pub now : get s'.state key ≡ replacement
    pub others : (j : Bytes) → IsOutside j → key ≢ j → get s'.state j ≡ get s.state j

  abbrev pub CasPost :
      Bytes → Option Bytes → Option Bytes → Store → Result EngineError CasOutcome → Store → Type 0
  CasPost key expected replacement s (ok swapped) s' =
      HasLog s' × (get s.state key ≡ expected) × Replaced key replacement s s'
  CasPost key expected replacement s (ok mismatch) s' = (get s.state key ≢ expected) × (s' ≡ s)
  CasPost key expected replacement s (err _) s' = HasLog s' × (s'.state ≡ s.state)

  put-Replaced :
      (key value : Bytes) (s s' : Store)
      → UserPost key (put key value) s (ok tt) s'
      → Replaced key (some value) s s'
  unfolding apply_operation
  put-Replaced key value s s' (_, user, reads) = record {
    now = reads key (ensure_user_key-IsOutside key user) ∙ get-insert_self s.state key value;
    others = λ j o ne. reads j o ∙ get-insert_ne s.state key j value ne;
  }

  delete-Replaced :
      (key : Bytes) (s s' : Store) → UserPost key (delete key) s (ok tt) s' → Replaced key none s s'
  unfolding apply_operation
  delete-Replaced key s s' (_, user, reads) = record {
    now = reads key (ensure_user_key-IsOutside key user) ∙ get-remove_self s.state key;
    others = λ j o ne. reads j o ∙ get-remove_ne s.state key j ne;
  }

  module _ (key : Bytes) (expected : Option Bytes) (s : Store)
      (held : get s.state key ≡ expected) where
    put_swapped :
        (value : Bytes) (r : Result EngineError (Unit {0})) (s' : Store)
        → UserPost key (put key value) s r s'
        → CasPost key expected
            (some value)
            s
            (continue r (λ _. pure swapped) s').0
            (continue r (λ _. pure swapped) s').1
    put_swapped value (err _) s' p = p
    put_swapped value (ok _) s' p = (p.0, held, put-Replaced key value s s' p)

    delete_swapped :
        (r : Result EngineError (Unit {0})) (s' : Store)
        → UserPost key (delete key) s r s'
        → CasPost key expected none s
            (continue r (λ _. pure swapped) s').0
            (continue r (λ _. pure swapped) s').1
    delete_swapped (err _) s' p = p
    delete_swapped (ok _) s' p = (p.0, held, delete-Replaced key s s' p)

    replaced :
        (replacement : Option Bytes)
        → HasLog s
        → let m = transact true (replace_value key replacement) s in
          CasPost key expected replacement s
            (continue m.0 (λ _. pure swapped) m.1).0
            (continue m.0 (λ _. pure swapped) m.1).1
    unfolding replace_value
    replaced (some value) h = put_swapped value _ _ (put_user-UserPost key value s h)
    replaced none h = delete_swapped _ _ (delete_user-UserPost key s h)

  -- `compare_and_swap` swaps only if the key had the expected value, and then exactly that key is
  -- replaced; a mismatch is reported only if it had another, and nothing has changed; after an error no
  -- key has changed.
  pub compare_and_swap-CasPost :
      (key : Bytes) (expected replacement : Option Bytes) (s : Store)
      → HasLog s
      → CasPost key expected replacement s
          (compare_and_swap key expected replacement s).0
          (compare_and_swap key expected replacement s).1
  unfolding compare_and_swap
  compare_and_swap-CasPost key expected replacement s h =
      compared (same_value (get s.state key) expected) refl
    where
      compared :
          (b : Bool)
          → same_value (get s.state key) expected ≡ b
          → CasPost key expected replacement s
              (swap_if b key replacement s).0
              (swap_if b key replacement s).1
      compared true e =
          replaced key expected s (same_value→eq (get s.state key) expected e) replacement h
      compared false e = (same_value→ne (get s.state key) expected e, refl)

  -- The value of a counter: zero if the key is missing, or the i64 in its eight bytes.
  abbrev pub IsCounter : Option Bytes → ℤ → Type 0
  IsCounter none n = n ≡ pos 0
  IsCounter (some value) n = (length value ≡ 8) × (n ≡ from_bits i64_half (from_le_bytes value))

  counter_of-IsCounter : (o : Option Bytes) (n : ℤ) → counter_of o ≡ ok n → IsCounter o n
  unfolding counter_of
  counter_of-IsCounter none n h = cc
  counter_of-IsCounter (some value) n h = ground arith

  -- Why there is an error: a value that is no counter, a sum that is no i64, or the store.
  abbrev pub Fails : Option Bytes → ℤ → AtomicError → Type 0
  Fails before delta invalid_counter = (value : Bytes) × (before ≡ some value) × (length value ≢ 8)
  Fails before delta overflow =
      (current : ℤ) × IsCounter before current × (fits i64_half (current +ℤ delta) ≡ false)
  Fails before delta (store _) = Unit {0}

  counter_of-Fails :
      (o : Option Bytes) (delta : ℤ) (e : AtomicError) → counter_of o ≡ err e → Fails o delta e
  unfolding counter_of
  counter_of-Fails none delta e h = cc
  counter_of-Fails (some value) delta e h = elim (Bool-cases (length value == 8)) [
    | inl whole ↦ absurd (wrong (rw whole at h))
    | inr other ↦
        subst (Fails (some value) delta) (same (rw other at h))
          (value, refl, λ whole. differs (length value) whole other)
  ]
    where
      wrong : {n : ℤ} → ◌≡◌ {A = Result AtomicError ℤ} (ok n) (err e) → ⊥
      wrong q = cc

      same : ◌≡◌ {A = Result AtomicError ℤ} (err invalid_counter) (err e) → invalid_counter ≡ e
      same q = cc

      differs : (n : ℕ) → n ≡ 8 → (n == 8) ≡ false → ⊥
      differs n whole q = ground arith

  sum-Fails :
      (o : Option Bytes) (current delta : ℤ) (e : AtomicError)
      → counter_of o ≡ ok current
      → ok_or (checked_add_i64 current delta) overflow ≡ err e
      → Fails o delta e
  sum-Fails o current delta e h q = elim (Bool-cases (fits i64_half (current +ℤ delta))) [
    | inl inside ↦ absurd (wrong (rw inside at q))
    | inr out ↦
        subst (Fails o delta) (same (rw out at q)) (current, counter_of-IsCounter o current h, out)
  ]
    where
      wrong : {n : ℤ} → ◌≡◌ {A = Result AtomicError ℤ} (ok n) (err e) → ⊥
      wrong q = cc

      same : ◌≡◌ {A = Result AtomicError ℤ} (err overflow) (err e) → overflow ≡ e
      same q = cc

  -- What `increment_i64` promises.
  pub record Incremented (key : Bytes) (delta : ℤ) (s s' : Store) (next : ℤ) : Type 0 where
    pub current : ℤ
    pub before : IsCounter (get s.state key) current
    pub sum : next ≡ current +ℤ delta
    pub next_fits : Fits i64_half next
    pub after : get s'.state key ≡ some (to_le_bytes 8 (to_bits i64_half next))
    pub is_counter : IsCounter (get s'.state key) next
    pub others : (j : Bytes) → IsOutside j → key ≢ j → get s'.state j ≡ get s.state j

  abbrev pub IncrementPost : Bytes → ℤ → Store → Result AtomicError ℤ → Store → Type 0
  IncrementPost key delta s (ok next) s' = HasLog s' × Incremented key delta s s' next
  IncrementPost key delta s (err e) s' =
      HasLog s' × (s'.state ≡ s.state) × Fails (get s.state key) delta e

  counter_of-bytes :
      (next : ℤ)
      → Fits i64_half next
      → counter_of (some (to_le_bytes 8 (to_bits i64_half next))) ≡ ok next
  unfolding counter_of
  counter_of-bytes next f =
      rw
        (
          length-to_le_bytes 8 (to_bits i64_half next),
          from_le_bytes-to_le_bytes 8 (to_bits i64_half next) (to_bits-lt i64_half next f),
        )
        (ap ok (from_bits-to_bits i64_half next f))

  sum_of :
      (a b c : ℤ) → ok_or (checked_add_i64 a b) overflow ≡ ok c → (c ≡ a +ℤ b) × Fits i64_half c
  sum_of a b c h = ground (arith, fits→Fits i64_half c)

  module _ (key : Bytes) (delta current next : ℤ) (s : Store)
      (before : counter_of (get s.state key) ≡ ok current) (sum : next ≡ current +ℤ delta)
      (f : Fits i64_half next) where
    incremented :
        (r : Result EngineError (Unit {0})) (s' : Store)
        → UserPost key (put key (to_le_bytes 8 (to_bits i64_half next))) s r s'
        → IncrementPost key delta s
            (continue (map_err store r) (λ _. pure next) s').0
            (continue (map_err store r) (λ _. pure next) s').1
    incremented (err _) s' (h, same) = (h, same, tt)
    incremented (ok _) s' p =
        let replaced_ = put-Replaced key (to_le_bytes 8 (to_bits i64_half next)) s s' p in
        (
          p.0,
          record {
            current = current;
            before = counter_of-IsCounter (get s.state key) current before;
            sum = sum;
            next_fits = f;
            after = replaced_.now;
            is_counter =
                counter_of-IsCounter (get s'.state key) next
                  (ap counter_of replaced_.now ∙ counter_of-bytes next f);
            others = replaced_.others;
          },
        )

  -- `increment_i64` on a store whose file holds its state succeeds only on a counter, which is a missing
  -- key, worth zero, or a value of eight bytes: it returns the sum of its value and `delta`, which fits
  -- i64, has stored it as eight bytes, and has changed no other key outside the change feed. After an
  -- error no key has changed: the value is no counter if the error says so, and the sum fits no i64 if
  -- the error is an overflow.
  pub increment_i64-IncrementPost :
      (key : Bytes) (delta : ℤ) (s : Store)
      → HasLog s
      → IncrementPost key delta s (increment_i64 key delta s).0 (increment_i64 key delta s).1
  unfolding increment_i64 put_key
  increment_i64-IncrementPost key delta s h =
      continue_ind (IncrementPost key delta s) (counter_of (get s.state key)) _ s
        (λ current before.
          continue_ind (IncrementPost key delta s) (ok_or (checked_add_i64 current delta) overflow)
            _ s
            (λ next e.
              let (sum, f) = sum_of current delta next e in
              incremented key delta current next s before sum f _ _
                (put_user-UserPost key (to_le_bytes 8 (to_bits i64_half next)) s h))
            (λ e q. (h, refl, sum-Fails (get s.state key) current delta e before q)))
        (λ e q. (h, refl, counter_of-Fails (get s.state key) delta e q))
