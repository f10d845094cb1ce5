-- ===== src/Jobs/History/Sequence.antt =====
-- jobs.rs: the number of the next entry in the history of a job.
use voodoo_store.Prelude.{
  ℕ, ◌+◌, ◌≡◌, refl, ap, ◌⊎◌, inl, inr, none, some, [], ◌∷◌, ◌++◌, length, drop, arith,
}
use voodoo_store.Result.{ok, >>=-eq-ok}
use voodoo_store.Bytes.{Bytes, from_be_bytes}
use voodoo_store.Engine.Payload.{State}
use voodoo_store.Engine.Store.{scan_prefix}
use voodoo_store.Jobs.Fields.{history_prefix}
use voodoo_store.Jobs.History.{decode_history_sequence, last_key, after_last, next_history_sequence}

-- The first entry of a history is entry 0, and a later one has the number after that in the last key.
abbrev pub IsNextSequence : Bytes → State → ℕ → Type 0
IsNextSequence id state n =
    ((scan_prefix state (history_prefix id) ≡ []) × (n ≡ 0))
    ⊎ ((before : State) × (key : Bytes) × (value : Bytes) × (scan_prefix state (history_prefix id)
          ≡ before ++ (key, value) ∷ [])
        × (length key ≡ length (history_prefix id) + 8)
        × (n ≡ from_be_bytes (drop (length (history_prefix id)) key) + 1))

last_key-IsLast :
    (entries : State)
    → ((entries ≡ []) × (last_key entries ≡ none))
      ⊎ ((before : State) × (key : Bytes) × (value : Bytes) × (entries
            ≡ before ++ (key, value) ∷ [])
          × (last_key entries ≡ some key))
unfolding last_key
last_key-IsLast [] = inl (refl, refl)
last_key-IsLast ((key, value) ∷ []) = inr ([], key, value, refl, refl)
last_key-IsLast (entry ∷ next ∷ entries) = elim (last_key-IsLast (next ∷ entries)) [
  | inl (e, _) ↦ cc
  | inr (before, key, value, e, last) ↦
      inr (entry ∷ before, key, value, ap (λ es. entry ∷ es) e, last)
]

decode_history_sequence-number :
    (id key : Bytes) (n : ℕ)
    → decode_history_sequence id key ≡ ok n
    → (length key ≡ length (history_prefix id) + 8)
      × (n ≡ from_be_bytes (drop (length (history_prefix id)) key))
unfolding decode_history_sequence
decode_history_sequence-number id key n h = ground arith

after_last-number :
    (id key : Bytes) (n : ℕ)
    → after_last id (some key) ≡ ok n
    → (length key ≡ length (history_prefix id) + 8)
      × (n ≡ from_be_bytes (drop (length (history_prefix id)) key) + 1)
after_last-number id key n h =
    let (last, e, more) = >>=-eq-ok (decode_history_sequence id key) _ h in
    let (whole, number) = decode_history_sequence-number id key last e in
    (whole, ground (arith, number, more))

pub next_history_sequence-IsNextSequence :
    (id : Bytes) (state : State) (n : ℕ)
    → next_history_sequence id state ≡ ok n
    → IsNextSequence id state n
unfolding next_history_sequence
next_history_sequence-IsNextSequence id state n h =
    elim (last_key-IsLast (scan_prefix state (history_prefix id))) [
      | inl (e, last) ↦ inl (e, first (rw last at h))
      | inr (before, key, value, e, last) ↦
          let (whole, number) = after_last-number id key n (rw last at h) in
          inr (before, key, value, e, whole, number)
    ]
  where
    first : after_last id none ≡ ok n → n ≡ 0
    first same = cc
