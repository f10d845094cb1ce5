-- ===== src/Queue/Claim/Best.antt =====
-- queue.rs: the message that `claim` takes is the best of the eligible ones.
use mathlib.Core.List.{Memᴰ}
use mathlib.Core.List.Memᴰ
use voodoo_store.Prelude.{
  ◌≡◌, refl, sym, ap, ◌∙◌, true, false, none, some, [], ◌∷◌, arith, inl, inr, ◌⊎◌, subst,
}
use voodoo_store.Prelude.Int.{ℤ}
use voodoo_store.Result.{ok, err, result_cases}
use voodoo_store.Bytes.{Bytes}
use voodoo_store.Engine.Payload.{State}
use voodoo_store.Queue.Message.{QueueError, StoredMessage, decode_message}
use voodoo_store.Queue.Claim.{eligible, precedes, Candidate, replaces, consider, select}

-- No message comes before itself, and "does not come before" is transitive.
precedes_trans :
    (a b c : StoredMessage) → precedes a b ≡ false → precedes b c ≡ false → precedes a c ≡ false
unfolding precedes
precedes_trans a b c h k = ground arith

precedes_irrefl : (a : StoredMessage) → precedes a a ≡ false
unfolding precedes
precedes_irrefl a = ground arith

precedes_asym : (a b : StoredMessage) → precedes a b ≡ true → precedes b a ≡ false
unfolding precedes
precedes_asym a b h = ground arith

-- An entry of the queue, decoded.
pub record IsStored (entries : State) (key : Bytes) (m : StoredMessage) : Type 0 where
  pub value : Bytes
  pub entry : Memᴰ (key, value) entries
  pub decoded : decode_message value ≡ ok m

-- `m` is not before the candidate.
abbrev pub Beaten : StoredMessage → Candidate → Type 0
Beaten m none = ⊥
Beaten m (some (key, best)) = precedes m best ≡ false

-- The second candidate is the first, or is before it.
abbrev Improves : Candidate → Candidate → Type 0
Improves none c = Unit {0}
Improves (some (key, m)) c = Beaten m c

-- A candidate comes from the queue and is eligible.
abbrev pub IsEligible : ℤ → State → Candidate → Type 0
IsEligible now_ms entries none = Unit {0}
IsEligible now_ms entries (some (key, best)) =
    IsStored entries key best × (eligible now_ms best ≡ true)

record SelectPost (now_ms : ℤ) (entries : State) (candidate selected : Candidate) : Type 0 where
  improves : Improves candidate selected
  origin : (selected ≡ candidate) ⊎ IsEligible now_ms entries selected
  beats :
      (key : Bytes) (m : StoredMessage)
      → IsStored entries key m
      → eligible now_ms m ≡ true
      → Beaten m selected

Improves-refl : (c : Candidate) → Improves c c
Improves-refl none = tt
Improves-refl (some (key, m)) = precedes_irrefl m

-- One step: the new candidate improves on the old one and on the message.
consider-Improves :
    (now_ms : ℤ) (key : Bytes) (m : StoredMessage) (c : Candidate)
    → Improves c (consider now_ms key m c)
unfolding consider replaces
consider-Improves now_ms key m none = tt
consider-Improves now_ms key m (some (k, best)) =
    ground (arith, precedes_irrefl best, precedes_asym m best)

Improves-trans : (a b c : Candidate) → Improves a b → Improves b c → Improves a c
Improves-trans none b c h k = tt
Improves-trans (some (i, x)) none c h k = absurd h
Improves-trans (some (i, x)) (some (j, y)) none h k = absurd k
Improves-trans (some (i, x)) (some (j, y)) (some (l, z)) h k = precedes_trans x y z h k

Beaten-Improves : (m : StoredMessage) (b c : Candidate) → Beaten m b → Improves b c → Beaten m c
Beaten-Improves m none c h k = absurd h
Beaten-Improves m (some (j, y)) none h k = absurd k
Beaten-Improves m (some (j, y)) (some (l, z)) h k = precedes_trans m y z h k

consider-Beaten :
    (now_ms : ℤ) (key : Bytes) (m : StoredMessage) (c : Candidate)
    → eligible now_ms m ≡ true
    → Beaten m (consider now_ms key m c)
unfolding consider replaces
consider-Beaten now_ms key m none h = ground (arith, precedes_irrefl m)
consider-Beaten now_ms key m (some (k, best)) h = ground (arith, precedes_irrefl m)

consider-Origin :
    (now_ms : ℤ) (key : Bytes) (m : StoredMessage) (c : Candidate)
    → (consider now_ms key m c ≡ c)
      ⊎ ((consider now_ms key m c ≡ some (key, m)) × (eligible now_ms m ≡ true))
unfolding consider
consider-Origin now_ms key m c = ground arith

IsEligible-there :
    (now_ms : ℤ) (entry : Bytes × Bytes) (entries : State) (c : Candidate)
    → IsEligible now_ms entries c
    → IsEligible now_ms (entry ∷ entries) c
IsEligible-there now_ms entry entries none h = tt
IsEligible-there now_ms entry entries (some (k, best)) (stored, good) = (
  record { value = stored.value; entry = Memᴰ.tail stored.entry; decoded = stored.decoded },
  good,
)

eq_of_decoded :
    (v w : Bytes) (m n : StoredMessage)
    → v ≡ w
    → decode_message w ≡ ok m
    → decode_message v ≡ ok n
    → m ≡ n
eq_of_decoded v w m n p d e = cc

-- The rest of the list, after a step on its first entry.
select-step :
    (now_ms : ℤ) (key value : Bytes) (entries : State) (m : StoredMessage) (c selected : Candidate)
    → decode_message value ≡ ok m
    → SelectPost now_ms entries (consider now_ms key m c) selected
    → SelectPost now_ms ((key, value) ∷ entries) c selected
select-step now_ms key value entries m c selected e p = record {
  improves =
      Improves-trans c (consider now_ms key m c) selected (consider-Improves now_ms key m c)
        p.improves;
  origin = elim p.origin [
    | inr good ↦ inr (IsEligible-there now_ms (key, value) entries selected good)
    | inl same ↦ elim (consider-Origin now_ms key m c) [
      | inl kept ↦ inl (same ∙ kept)
      | inr (taken, good) ↦
          inr (subst (IsEligible now_ms ((key, value) ∷ entries)) (sym (same ∙ taken)) (here, good))
    ]
  ];
  beats =
      λ k n stored good. known k n stored.value stored.decoded good (Memᴰ.cases_cons stored.entry);
}
  where
    here : IsStored ((key, value) ∷ entries) key m
    here = record { value = value; entry = Memᴰ.head refl; decoded = e }

    known :
        (k : Bytes) (n : StoredMessage) (v : Bytes)
        → decode_message v ≡ ok n
        → eligible now_ms n ≡ true
        → (◌≡◌ {A = Bytes × Bytes} (k, v) (key, value)) ⊎ Memᴰ (k, v) entries
        → Beaten n selected
    known k n v d good (inr entry) =
        p.beats k n (record { value = v; entry = entry; decoded = d }) good
    known k n v d good (inl q) =
        let same = eq_of_decoded v value m n (ap (λ (x : Bytes × Bytes). x.1) q) e d in
        Beaten-Improves n (consider now_ms key m c) selected
          (subst (λ x. Beaten x (consider now_ms key m c)) same
            (consider-Beaten now_ms key m c
              (subst (λ x. eligible now_ms x ≡ true) (sym same) good)))
          p.improves

select-SelectPost :
    (now_ms : ℤ) (entries : State) (c selected : Candidate)
    → select now_ms entries c ≡ ok selected
    → SelectPost now_ms entries c selected
unfolding select
select-SelectPost now_ms [] c selected h = record {
  improves = subst (Improves c) (cc) (Improves-refl c);
  origin = inl cc;
  beats = λ k m stored good. absurd (Memᴰ.not-nil stored.entry);
}
select-SelectPost now_ms ((key, value) ∷ entries) c selected h = elim decoded_cases [
  | inl (m, e) ↦
      select-step now_ms key value entries m c selected e
        (select-SelectPost now_ms entries (consider now_ms key m c) selected (tail_of e))
  | inr (error, e) ↦ absurd (tail_not e)
]
  where
    decoded_cases :
        ((m : StoredMessage) × (decode_message value ≡ ok m))
        ⊎ ((error : QueueError) × (decode_message value ≡ err error))
    decoded_cases = result_cases (decode_message value)

    tail_of :
        {m : StoredMessage}
        → decode_message value ≡ ok m
        → select now_ms entries (consider now_ms key m c) ≡ ok selected
    tail_of {m} e = rw (select, e) at h

    tail_not : {error : QueueError} → decode_message value ≡ err error → ⊥
    tail_not {error} e = cc

-- When the queue is scanned without an error, the candidate is stored in the queue and eligible, and
-- no eligible message comes before it; there is no candidate only if no message is eligible.
pub select-best :
    (now_ms : ℤ) (entries : State) (selected : Candidate)
    → select now_ms entries none ≡ ok selected
    → IsEligible now_ms entries selected
      × ((key : Bytes) (m : StoredMessage)
          → IsStored entries key m
          → eligible now_ms m ≡ true
          → Beaten m selected)
select-best now_ms entries selected h =
    let p = select-SelectPost now_ms entries none selected h in
    (
      elim p.origin [ inl e ↦ subst (IsEligible now_ms entries) (sym e) tt | inr good ↦ good ],
      p.beats,
    )
