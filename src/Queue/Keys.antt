-- ===== src/Queue/Keys.antt =====
-- queue.rs: the keys that a queue's scan finds are its messages', and the change feed uses none of
-- them.
use mathlib.Core.List.{Memᴰ}
use mathlib.Core.List.Memᴰ
use voodoo_store.Prelude.{
  ℕ, ◌≡◌, refl, sym, ap, subst, ◌∙◌, ◌⊎◌, inl, inr, Bool, true, false, [], ◌∷◌, ◌++◌, if◌then◌else◌,
  length,
}
use voodoo_store.Result.{Result, ok, ok_or, >>=-eq-ok}
use voodoo_store.Bytes.{Bytes, starts_with, starts_with-append, to_be_bytes}
use voodoo_store.Bytes.Words.{to_u32}
use voodoo_store.Map.{insert_sorted, sort_by_key}
use voodoo_store.Bytes.{bytes_lt}
use voodoo_store.Engine.Payload.{State}
use voodoo_store.Engine.Store.{filter_prefix, scan_prefix}
use voodoo_store.Engine.Durability.Keys.{IsOutside}
use voodoo_store.Queue.Message.{
  Queue, new, message_key, queue_prefix, name_too_long, handle, QueueError,
}
use voodoo_store.Cdc.Record.{cdc_prefix}
use voodoo_store.Bytes.Prefix.{starts_with-parts_from}

abbrev Entry : Type 0
Entry = Bytes × Bytes

Memᴰ-insert_sorted :
    (x entry : Entry) (m : State) → Memᴰ x (insert_sorted entry m) → (x ≡ entry) ⊎ Memᴰ x m
unfolding insert_sorted
Memᴰ-insert_sorted x (k, v) [] h = Memᴰ.cases_cons h
Memᴰ-insert_sorted x (k, v) ((j, w) ∷ m) h = go (bytes_lt j k) (Memᴰ-insert_sorted x (k, v) m) h
  where
    go :
        (b : Bool)
        → (Memᴰ x (insert_sorted (k, v) m) → (x ≡ (k, v)) ⊎ Memᴰ x m)
        → Memᴰ x (if b then (j, w) ∷ insert_sorted (k, v) m else (k, v) ∷ (j, w) ∷ m)
        → (x ≡ (k, v)) ⊎ Memᴰ x ((j, w) ∷ m)
    go true rest h' = elim (Memᴰ.cases_cons h') [
      | inl e ↦ inr (Memᴰ.head e)
      | inr h'' ↦ elim (rest h'') [ inl e ↦ inl e | inr i ↦ inr (Memᴰ.tail i) ]
    ]
    go false rest h' = Memᴰ.cases_cons h'

Memᴰ-sort_by_key : (x : Entry) (m : State) → Memᴰ x (sort_by_key m) → Memᴰ x m
unfolding sort_by_key
Memᴰ-sort_by_key x [] h = h
Memᴰ-sort_by_key x (entry ∷ m) h = elim (Memᴰ-insert_sorted x entry (sort_by_key m) h) [
  | inl e ↦ Memᴰ.head e
  | inr i ↦ Memᴰ.tail (Memᴰ-sort_by_key x m i)
]

Memᴰ-filter_prefix :
    (key value : Bytes) (m : State) (prefix : Bytes)
    → Memᴰ (key, value) (filter_prefix m prefix)
    → Memᴰ (key, value) m × (starts_with key prefix ≡ true)
unfolding filter_prefix
Memᴰ-filter_prefix key value [] prefix h = absurd (Memᴰ.not-nil h)
Memᴰ-filter_prefix key value ((j, w) ∷ m) prefix h =
    go (starts_with j prefix) refl (Memᴰ-filter_prefix key value m prefix) h
  where
    go :
        (b : Bool)
        → starts_with j prefix ≡ b
        → (Memᴰ (key, value) (filter_prefix m prefix)
            → Memᴰ (key, value) m × (starts_with key prefix ≡ true))
        → Memᴰ (key, value) (if b then (j, w) ∷ filter_prefix m prefix else filter_prefix m prefix)
        → Memᴰ (key, value) ((j, w) ∷ m) × (starts_with key prefix ≡ true)
    go false e rest h' = let (i, p) = rest h' in (Memᴰ.tail i, p)
    go true e rest h' = elim (Memᴰ.cases_cons h') [
      | inl q ↦ (Memᴰ.head q, ap (λ (x : Entry). starts_with (x.0) prefix) q ∙ e)
      | inr i ↦ let (i', p) = rest i in (Memᴰ.tail i', p)
    ]

-- What a scan lists is in the state, under the prefix.
pub Memᴰ-scan_prefix :
    (key value : Bytes) (m : State) (prefix : Bytes)
    → Memᴰ (key, value) (scan_prefix m prefix)
    → Memᴰ (key, value) m × (starts_with key prefix ≡ true)
unfolding scan_prefix
Memᴰ-scan_prefix key value m prefix h =
    Memᴰ-filter_prefix key value m prefix (Memᴰ-sort_by_key (key, value) (filter_prefix m prefix) h)

pub queue_key-IsOutside : (key : Bytes) → starts_with key queue_prefix ≡ true → IsOutside key
queue_key-IsOutside key = starts_with-parts_from key queue_prefix cdc_prefix refl

pub handle_of : (name : Bytes) (q : Queue) → new name ≡ ok q → (n : ℕ) × (q ≡ handle name n)
unfolding new
handle_of [] q h = cc
handle_of (b ∷ bs) q h =
    let (n, _, e) = >>=-eq-ok (ok_or (to_u32 (length (b ∷ bs))) name_too_long) _ h in (n, ok_inj e)
  where
    ok_inj : {x : Queue} → ◌≡◌ {A = Result QueueError Queue} (ok x) (ok q) → q ≡ x
    ok_inj e = cc

-- The keys that a queue's scan finds are outside the change feed.
pub scanned-IsOutside :
    (name key value : Bytes) (q : Queue) (m : State)
    → new name ≡ ok q
    → Memᴰ (key, value) (scan_prefix m q.message_prefix)
    → IsOutside key
scanned-IsOutside name key value q m h i =
    let (n, e) = handle_of name q h in
    queue_key-IsOutside key (
      starts_with-append key queue_prefix _ (
        subst (λ (x : Queue). starts_with key x.message_prefix ≡ true) e
          ((Memᴰ-scan_prefix key value m q.message_prefix i).1)))

pub message_key-IsOutside :
    (name : Bytes) (q : Queue) (id : ℕ) → new name ≡ ok q → IsOutside (message_key q id)
unfolding message_key starts_with
message_key-IsOutside name q id h =
    let (n, e) = handle_of name q h in
    subst (λ (x : Queue). IsOutside (x.message_prefix ++ to_be_bytes 8 id)) (sym e) (outside n)
  where
    outside : (n : ℕ) → IsOutside ((handle name n).message_prefix ++ to_be_bytes 8 id)
    outside n = refl

-- So are all keys under a queue's prefix.
pub prefixed-IsOutside :
    (name key : Bytes) (q : Queue)
    → new name ≡ ok q
    → starts_with key q.message_prefix ≡ true
    → IsOutside key
prefixed-IsOutside name key q h p =
    let (n, e) = handle_of name q h in
    queue_key-IsOutside key (
      starts_with-append key queue_prefix _
        (subst (λ (x : Queue). starts_with key x.message_prefix ≡ true) e p))
