-- ===== src/Queue/Push.antt =====
-- queue.rs: what `push_with_options` does to the store.
use voodoo_store.Prelude.{
  ℕ, ◌+◌, ◌^◌, ◌<◌, ◌≡◌, ◌≢◌, refl, sym, ap, subst, ◌∙◌, some, List, [], ◌∷◌, ◌++◌, length, drop,
  arith, drop-append, true,
}
use mathlib.Core.List.{append_assoc}
use voodoo_store.Result.{Result, ok, err, ok_or}
use voodoo_store.Engine.Transaction.{put_internal}
use voodoo_store.Exec.{pure, continue, continue_ind, ◌>>◌, map_error}
use voodoo_store.Bytes.{
  Bytes, to_le_bytes, to_be_bytes, starts_with, from_le_bytes-to_le_bytes, length-to_le_bytes,
}
use voodoo_store.Bytes.Words.{checked_add}
use voodoo_store.Platform.{Platform}
use voodoo_store.Map.{get, insert, key_eq, get-insert_self, get-insert_ne}
use voodoo_store.Engine.Payload.{Operation, put, apply_operation, apply_operations}
use voodoo_store.Engine.Store.{Store}
use voodoo_store.Engine.Durability.Sealing.{HasLog}
use voodoo_store.Engine.Durability.Keys.{IsOutside}
use voodoo_store.Engine.Durability.Batch.{
  Stages, Stages-put, Stages-bind, Stages-lift, Stages-weaken, Both, BatchPost,
  transact_from-BatchPost,
}
use voodoo_store.Queue.{PushOptions, next_id, pushed, put_message, push_with_options}
use voodoo_store.Queue.Message.{
  Queue, new, QueueError, store, id_exhausted, message_key, encode_message, handle, queue_prefix,
}
use voodoo_store.Queue.Keys.{handle_of, message_key-IsOutside}

pub meta_key-IsOutside : (name : Bytes) (q : Queue) → new name ≡ ok q → IsOutside q.meta_key
unfolding starts_with
meta_key-IsOutside name q h =
    let (n, e) = handle_of name q h in
    subst (λ (x : Queue). IsOutside x.meta_key) (sym e) (outside n)
  where
    outside : (n : ℕ) → IsOutside (handle name n).meta_key
    outside n = refl

pub meta_ne_message :
    (name : Bytes) (q : Queue) (id : ℕ) → new name ≡ ok q → q.meta_key ≢ message_key q id
unfolding message_key
meta_ne_message name q id h =
    let (n, e) = handle_of name q h in
    subst (λ (x : Queue). x.meta_key ≢ x.message_prefix ++ to_be_bytes 8 id) (sym e) (differ n)
  where
    differ : (n : ℕ) → (handle name n).meta_key ≢ (handle name n).message_prefix ++ to_be_bytes 8 id
    differ n same =
        let namespace = queue_prefix ++ (to_be_bytes 4 n ++ name) in
        let tails =
          sym (drop-append namespace _ (length namespace) refl)
          ∙ ap (λ bs. drop (length namespace) bs)
              (same ∙ append_assoc namespace (b':' ∷ b'm' ∷ b':' ∷ []) (to_be_bytes 8 id))
          ∙ drop-append namespace _ (length namespace) refl in
        ground (arith, tails)

module _ ⦃d : Platform⦄ where
  -- A pushed message: it has the id that the queue held ready, stands under its own key as a ready
  -- message without attempts, the next id is ready, and no other key outside the feed has changed.
  pub record Pushed (q : Queue) (payload : Bytes) (options : PushOptions) (s s' : Store) (id : ℕ)
      : Type 0 where
    pub fresh : next_id q s.state ≡ ok id
    pub next_fits : id + 1 < 2 ^ 64
    pub next : next_id q s'.state ≡ ok (id + 1)
    pub value : Bytes
    pub encoded : encode_message (pushed id payload options) ≡ ok value
    pub stored : get s'.state (message_key q id) ≡ some value
    pub others :
        (j : Bytes)
        → IsOutside j
        → q.meta_key ≢ j
        → message_key q id ≢ j
        → get s'.state j ≡ get s.state j

  abbrev pub PushPost : Queue → Bytes → PushOptions → Store → Result QueueError ℕ → Store → Type 0
  PushPost q payload options s (ok id) s' = HasLog s' × Pushed q payload options s s' id
  PushPost q payload options s (err _) s' = HasLog s' × (s'.state ≡ s.state)

module _ ⦃d : Platform⦄ (name : Bytes) (q : Queue) (payload : Bytes) (options : PushOptions)
    (s : Store) (n : new name ≡ ok q) (h : HasLog s) where
  -- The two writes of a push.
  abbrev Writes : ℕ → List Operation → Type 0
  Writes id operations =
      (value : Bytes) × (encode_message (pushed id payload options) ≡ ok value)
      × (operations ≡ put q.meta_key (to_le_bytes 8 (id + 1)) ∷ put (message_key q id) value ∷ [])

  body-Stages :
      (id : ℕ)
      → Stages (Writes id) (
          map_error store (put_internal q.meta_key (to_le_bytes 8 (id + 1)))
          >> put_message (message_key q id) (pushed id payload options))
  body-Stages id = Stages-weaken joined (
      Stages-bind (Stages-put store q.meta_key (to_le_bytes 8 (id + 1))) (λ _.
        Stages-lift (encode_message (pushed id payload options)) _
          (λ value e. Stages-weaken (single value e) (Stages-put store (message_key q id) value))))
    where
      Message : List Operation → Type 0
      Message operations =
          (value : Bytes) × (encode_message (pushed id payload options) ≡ ok value)
          × (operations ≡ put (message_key q id) value ∷ [])

      single :
          (value : Bytes)
          → encode_message (pushed id payload options) ≡ ok value
          → (operations : List Operation) → operations ≡ put (message_key q id) value ∷ []
          → Message operations
      single value e operations o = (value, e, o)

      joined :
          (operations : List Operation)
          → Both (λ xs. xs ≡ put q.meta_key (to_le_bytes 8 (id + 1)) ∷ []) Message operations
          → Writes id operations
      joined operations (xs, ys, o, first, (value, e, second)) = (
        value,
        e,
        o ∙ ap (λ x. x ++ ys) first ∙ ap (λ y. put q.meta_key (to_le_bytes 8 (id + 1)) ∷ y) second,
      )

  next_id_of :
      (state : List (Bytes × Bytes)) (id : ℕ)
      → id < 2 ^ 64
      → get state q.meta_key ≡ some (to_le_bytes 8 id)
      → next_id q state ≡ ok id
  unfolding next_id
  next_id_of state id f e =
      rw (e, next_id, length-to_le_bytes 8 id) (ap ok (from_le_bytes-to_le_bytes 8 id f))

  stored_push :
      (id : ℕ)
      → next_id q s.state ≡ ok id
      → id + 1 < 2 ^ 64
      → (r : Result QueueError (Unit {0})) (s' : Store) → BatchPost (Writes id) s r s'
      → PushPost q payload options s
          (continue r (λ _. pure id) s').0
          (continue r (λ _. pure id) s').1
  unfolding apply_operations apply_operation
  stored_push id fresh f (err _) s' p = p
  stored_push id fresh f (ok _) s' (h', (operations, (value, e, o), reads)) = (
    h',
    record {
      fresh = fresh;
      next_fits = f;
      next = next_id_of s'.state (id + 1) f (
          after q.meta_key (meta_key-IsOutside name q n)
          ∙ get-insert_ne (insert s.state q.meta_key (to_le_bytes 8 (id + 1))) (message_key q id)
              q.meta_key value (λ same. meta_ne_message name q id n (sym same))
          ∙ get-insert_self s.state q.meta_key (to_le_bytes 8 (id + 1)));
      value = value;
      encoded = e;
      stored =
          after (message_key q id) (message_key-IsOutside name q id n)
          ∙ get-insert_self _ (message_key q id) value;
      others = λ j outside meta message.
          after j outside
          ∙ get-insert_ne _ (message_key q id) j value message
          ∙ get-insert_ne s.state q.meta_key j _ meta;
    },
  )
    where
      after :
          (j : Bytes)
          → IsOutside j
          → get s'.state j
            ≡ get
                (insert
                  (insert s.state q.meta_key (to_le_bytes 8 (id + 1)))
                  (message_key q id)
                  value)
                j
      after j outside = reads j outside ∙ ap (λ x. get (apply_operations s.state x) j) o

  -- `push_with_options` on a store whose file holds its state: on success the queue has one message
  -- more, that of `pushed` under the id that was next, the id after it is next, and every other key
  -- outside the change feed reads as before; after an error no key has changed.
  pub push_with_options-PushPost :
      PushPost q payload options s
        (push_with_options q payload options s).0
        (push_with_options q payload options s).1
  unfolding push_with_options
  push_with_options-PushPost =
      continue_ind (PushPost q payload options s) (next_id q s.state) _ s
        (λ id fresh.
          continue_ind (PushPost q payload options s) (ok_or (checked_add id 1) id_exhausted) _ s
            (λ next e.
              let (same, f) = counted id next e in
              rw same (
                stored_push id fresh f _ _
                  (transact_from-BatchPost (Writes id) store true _ s (body-Stages id) h)))
            (λ _ _. (h, refl)))
        (λ _ _. (h, refl))
    where
      counted :
          (id next : ℕ)
          → ok_or (checked_add id 1) id_exhausted ≡ ok next
          → (next ≡ id + 1) × (id + 1 < 2 ^ 64)
      counted id next e = ground arith
