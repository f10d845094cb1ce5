-- ===== src/Cdc/Selection.antt =====
-- cdc.rs: which changes `changes_after` returns.
use voodoo_store.Prelude.{
  none, some, Bool, ltb, ℕ, zero, suc, ◌+◌, ◌≡◌, refl, sym, ap, ◌∙◌, ◌⊎◌, inl, inr, true, false,
  Option, List, [], ◌∷◌, ◌++◌, length, take, arith, ◌==◌, length-append, ne→eqb, eqb_refl,
  Bool-cases, if◌then◌else◌,
}
use mathlib.Core.List.{append_assoc, append-nil}
use voodoo_store.Result.{Result, ok, >>=-eq-ok}
use voodoo_store.Bytes.{Bytes}
use voodoo_store.Engine.Payload.{State}
use voodoo_store.Engine.Store.{scan_prefix}
use voodoo_store.Cdc.Record.{ChangeRecord, ChangeFeedError, cdc_prefix}
use voodoo_store.Cdc.Cursor.{decode_change}
use voodoo_store.Cdc.Reader.{is_seen, collect_after, changes_after, decode_all}

-- Does a change come after the given transaction? All do where none is given.
abbrev pub comes_after : Option ℕ → ℕ → Bool
comes_after none tx_id = true
comes_after (some after) tx_id = ltb after tx_id

-- The changes of the later transactions, in order.
abbrev pub unseen : Option ℕ → List ChangeRecord → List ChangeRecord
unseen after [] = []
unseen after (c ∷ changes) =
    let rest = unseen after changes in if comes_after after c.tx_id then c ∷ rest else rest

-- The test of the code is the opposite one.
is_seen_lem :
    (after : Option ℕ) (c : ChangeRecord) (rest : List ChangeRecord)
    → (if is_seen after c then rest else c ∷ rest)
      ≡ (if comes_after after c.tx_id then c ∷ rest else rest)
unfolding is_seen
is_seen_lem none c rest = refl
is_seen_lem (some after) c rest = ground arith

decode_all-cons :
    (key encoded : Bytes) (entries : State) (changes : List ChangeRecord)
    → decode_all ((key, encoded) ∷ entries) ≡ ok changes
    → (c : ChangeRecord) × (rest : List ChangeRecord) × (decode_change encoded ≡ ok c)
      × (decode_all entries ≡ ok rest)
      × (changes ≡ c ∷ rest)
unfolding decode_all
decode_all-cons key encoded entries changes h =
    let (c, e, h') = >>=-eq-ok (decode_change encoded) _ h in
    let (rest, f, g) = >>=-eq-ok (decode_all entries) _ h' in (c, rest, e, f, ok_inj g)
  where
    ok_inj :
        {x : List ChangeRecord}
        → ◌≡◌ {A = Result ChangeFeedError (List ChangeRecord)} (ok x) (ok changes)
        → changes ≡ x
    ok_inj e = cc

-- One change: what the loop has, with `k` more to come.
step :
    (after : Option ℕ) (limit k : ℕ) (c : ChangeRecord) (key encoded : Bytes) (entries : State)
    (found rest : List ChangeRecord)
    → decode_change encoded ≡ ok c
    → limit ≡ length found + suc k
    → ((k' : ℕ) (found' : List ChangeRecord)
        → limit ≡ length found' + suc k'
        → collect_after after limit entries found' ≡ ok (found' ++ take (suc k') rest))
    → collect_after after limit ((key, encoded) ∷ entries) found
      ≡ ok (found ++ take (suc k) (if is_seen after c then rest else c ∷ rest))
unfolding collect_after
step after limit k c key encoded entries found rest e l later =
    at (Bool-cases (is_seen after c)) k l
  where
    size : length (found ++ c ∷ []) ≡ length found + 1
    size = length-append found (c ∷ [])

    at :
        (is_seen after c ≡ true) ⊎ (is_seen after c ≡ false)
        → (k : ℕ) → limit ≡ length found + suc k
        → collect_after after limit ((key, encoded) ∷ entries) found
          ≡ ok (found ++ take (suc k) (if is_seen after c then rest else c ∷ rest))
    at (inl seen) k l = rw (collect_after, e, seen) (later k found l)
    at (inr new) zero l =
        rw
          (
            collect_after,
            e,
            new,
            ap (λ n. n == limit) size,
            ap (λ n. length found + 1 == n) l,
            eqb_refl (length found + 1),
          )
          refl
    at (inr new) (suc k) l =
        rw
          (
            collect_after,
            e,
            new,
            ne→eqb (length (found ++ c ∷ [])) limit (λ same. omega (arith, same, size, l)),
          )
          (later k (found ++ c ∷ []) (omega (arith, l, size))
            ∙ ap ok (append_assoc found (c ∷ []) (take (suc k) rest)))

collect_after_lem :
    (after : Option ℕ) (limit k : ℕ) (entries : State) (found changes : List ChangeRecord)
    → decode_all entries ≡ ok changes
    → limit ≡ length found + suc k
    → collect_after after limit entries found ≡ ok (found ++ take (suc k) (unseen after changes))
unfolding collect_after decode_all
collect_after_lem after limit k [] found [] h l = ap ok (sym (append-nil found))
collect_after_lem after limit k [] found (c ∷ changes) h l = cc
collect_after_lem after limit k ((key, encoded) ∷ entries) found changes h l =
    let (c, rest, e, f, same) = decode_all-cons key encoded entries changes h in
    step after limit k c key encoded entries found (unseen after rest) e l
      (λ k' found' l'. collect_after_lem after limit k' entries found' rest f l')
    ∙ ap (λ cs. ok (found ++ take (suc k) cs)) (is_seen_lem after c (unseen after rest))
    ∙ ap (λ cs. ok (found ++ take (suc k) (unseen after cs))) (sym same)

-- Where every record of the change feed can be decoded, `changes_after` returns the first `limit` of
-- those whose transaction comes after the given one, in the order of the feed.
pub changes_after_lem :
    (after : Option ℕ) (limit : ℕ) (state : State) (changes : List ChangeRecord)
    → decode_all (scan_prefix state cdc_prefix) ≡ ok changes
    → changes_after after limit state ≡ ok (take limit (unseen after changes))
unfolding changes_after
changes_after_lem after zero state changes h = refl
changes_after_lem after (suc k) state changes h =
    rw (ne→eqb (suc k) 0 (λ e. omega (arith, e)))
      (collect_after_lem after (suc k) k (scan_prefix state cdc_prefix) [] changes h (omega arith))
