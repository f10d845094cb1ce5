-- ===== src/Queue/Release.antt =====
-- queue.rs: what `ack`, `nack` and `dead_letter` do to the store.
use voodoo_store.Prelude.{ℕ, ◌≡◌, ◌≢◌, refl, ◌∙◌, none}
use voodoo_store.Prelude.Int.{ℤ}
use voodoo_store.Result.{Result, ok, err, map_err}
use voodoo_store.Exec.{continue_ind, continue, modify}
use voodoo_store.Bytes.{Bytes}
use voodoo_store.Platform.{Platform}
use voodoo_store.Map.{get, key_eq, get-remove_self, get-remove_ne}
use voodoo_store.Engine.Payload.{delete, EngineError, apply_operation}
use voodoo_store.Engine.Store.{Store, record_queue_ack}
use voodoo_store.Engine.Commit.{delete_internal_key}
use voodoo_store.Engine.Durability.Sealing.{HasLog}
use voodoo_store.Engine.Durability.Commit.{HasLog-metrics}
use voodoo_store.Engine.Durability.Keys.{IsOutside, KeyPost, delete_internal_key-KeyPost}
use voodoo_store.Queue.{load_leased, as_ready, as_dead, save_message, ack, nack, dead_letter}
use voodoo_store.Queue.Message.{Queue, new, StoredMessage, QueueError, store, message_key}
use voodoo_store.Queue.Keys.{message_key-IsOutside}
use voodoo_store.Queue.Held.{Held, load_leased-Held}
use voodoo_store.Queue.Lease.{Saved, SavePost, save_message-SavePost}

module _ ⦃d : Platform⦄ where
  -- An ended message: it was held by the worker with this generation, and now it reads as `then`.
  pub record Ended (q : Queue) (id generation : ℕ) (change : StoredMessage → StoredMessage)
      (s s' : Store) : Type 0 where
    pub message : StoredMessage
    pub held : Held q id generation s.state message
    pub saved : Saved (message_key q id) (change message) s s'

  abbrev pub EndPost :
      Queue
      → ℕ
      → ℕ
      → (StoredMessage → StoredMessage)
      → Store
      → Result QueueError (Unit {0})
      → Store
      → Type 0
  EndPost q id generation change s (ok _) s' = HasLog s' × Ended q id generation change s s'
  EndPost q id generation change s (err _) s' = HasLog s' × (s'.state ≡ s.state)

  abbrev pub AckPost : Queue → ℕ → ℕ → Store → Result QueueError (Unit {0}) → Store → Type 0
  AckPost q id generation s (ok _) s' =
      HasLog s'
      × ((m : StoredMessage) × Held q id generation s.state m)
      × (get s'.state (message_key q id) ≡ none)
      × ((j : Bytes) → IsOutside j → message_key q id ≢ j → get s'.state j ≡ get s.state j)
  AckPost q id generation s (err _) s' = HasLog s' × (s'.state ≡ s.state)

  module _ (name : Bytes) (q : Queue) (id generation : ℕ) (s : Store) (n : new name ≡ ok q)
      (h : HasLog s) where
    saved_end :
        (change : StoredMessage → StoredMessage) (m : StoredMessage)
        → Held q id generation s.state m
        → (r : Result QueueError (Unit {0})) (s' : Store)
        → SavePost (message_key q id) (change m) s r s'
        → EndPost q id generation change s r s'
    saved_end change m held (err _) s' p = p
    saved_end change m held (ok _) s' (h', saved) =
        (h', record { message = m; held = held; saved = saved })

    save_end :
        (change : StoredMessage → StoredMessage) (m : StoredMessage)
        → load_leased q id generation s.state ≡ ok m
        → EndPost q id generation change s
            (save_message (message_key q id) (change m) s).0
            (save_message (message_key q id) (change m) s).1
    save_end change m e =
        saved_end change m (load_leased-Held q id generation s.state m e)
          (save_message (message_key q id) (change m) s).0 _
          (save_message-SavePost (message_key q id) (change m) s h
            (message_key-IsOutside name q id n))

    -- `nack` succeeds only for the message that is leased with the given generation, and stores what
    -- `as_ready` makes of it; otherwise no key has changed.
    pub nack-EndPost :
        (available_at_ms : ℤ)
        → EndPost q id generation
            (as_ready available_at_ms)
            s
            (nack q id generation available_at_ms s).0
            (nack q id generation available_at_ms s).1
    unfolding nack
    nack-EndPost available_at_ms =
        continue_ind (EndPost q id generation (as_ready available_at_ms) s)
          (load_leased q id generation s.state) _ s (λ m e. save_end (as_ready available_at_ms) m e)
          (λ _ _. (h, refl))

    -- The same of `dead_letter`, which stores what `as_dead` makes of the message.
    pub dead_letter-EndPost :
        EndPost q id generation as_dead s
          (dead_letter q id generation s).0
          (dead_letter q id generation s).1
    unfolding dead_letter
    dead_letter-EndPost =
        continue_ind (EndPost q id generation as_dead s) (load_leased q id generation s.state) _ s
          (λ m e. save_end as_dead m e) (λ _ _. (h, refl))

    deleted :
        (m : StoredMessage)
        → Held q id generation s.state m
        → (r : Result EngineError (Unit {0})) (s' : Store)
        → KeyPost (delete (message_key q id)) s r s'
        → AckPost q id generation s
            (continue (map_err store r) (λ _. modify record_queue_ack) s').0
            (continue (map_err store r) (λ _. modify record_queue_ack) s').1
    unfolding apply_operation record_queue_ack
    deleted m held (err _) s' p = p
    deleted m held (ok _) s' (h', reads) = (
      HasLog-metrics s' _ h',
      (m, held),
      reads (message_key q id) (message_key-IsOutside name q id n)
          ∙ get-remove_self s.state (message_key q id),
      λ j o ne. reads j o ∙ get-remove_ne s.state (message_key q id) j ne,
    )

    -- `ack` succeeds only for the message that is leased with the given generation, and removes it and
    -- no other message; otherwise no key has changed.
    pub ack-AckPost : AckPost q id generation s (ack q id generation s).0 (ack q id generation s).1
    unfolding ack
    ack-AckPost =
        continue_ind (AckPost q id generation s) (load_leased q id generation s.state) _ s
          (λ m e.
            deleted m (load_leased-Held q id generation s.state m e)
              (delete_internal_key (message_key q id) s).0 _
              (delete_internal_key-KeyPost (message_key q id) s h))
          (λ _ _. (h, refl))
