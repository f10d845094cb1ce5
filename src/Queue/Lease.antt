-- ===== src/Queue/Lease.antt =====
-- queue.rs: what `claim`, `ack`, `nack` and `dead_letter` do to the store, and the lease generation
-- that keeps a stale worker out.
use voodoo_store.Prelude.{
  ℕ, ◌+◌, ◌^◌, ◌<◌, ◌≡◌, ◌≢◌, refl, ap, subst, ◌∙◌, Bool, true, false, Option, none, some, arith,
  if◌then◌else◌,
}
use voodoo_store.Prelude.Int.{ℤ, pos, ◌+ℤ◌}
use voodoo_store.Result.{Result, ok, err, ok_or, map_err}
use voodoo_store.Exec.{continue_ind}
use voodoo_store.Bytes.{Bytes}
use voodoo_store.Bytes.Words.{
  checked_add_u32, to_i64, checked_add_i64, fits, Fits, fits→Fits, i64_half,
}
use voodoo_store.Platform.{Platform}
use voodoo_store.Map.{get, key_eq, get-insert_self, get-insert_ne}
use voodoo_store.Engine.Payload.{put, EngineError, apply_operation}
use voodoo_store.Engine.Store.{Store, scan_prefix, record_queue_claim}
use voodoo_store.Engine.Commit.{put_internal_key}
use voodoo_store.Engine.Durability.Sealing.{HasLog}
use voodoo_store.Engine.Durability.Commit.{HasLog-metrics}
use voodoo_store.Engine.Durability.Keys.{IsOutside, KeyPost, put_internal_key-KeyPost}
use voodoo_store.Queue.{QueueMessage, as_leased, delivered, lease_candidate, claim, save_message}
use voodoo_store.Queue.Message.{
  Queue, new, StoredMessage, QueueError, store, encode_message, attempt_exhausted, time_overflow,
}
use voodoo_store.Queue.Claim.{Candidate, select}
use voodoo_store.Queue.Claim as C
use voodoo_store.Queue.Claim.Best.{IsStored, IsEligible, Beaten, select-best}
use voodoo_store.Queue.Keys.{scanned-IsOutside}

module _ ⦃d : Platform⦄ where
  -- What a successful save of a message leaves in the store.
  pub record Saved (key : Bytes) (m : StoredMessage) (s s' : Store) : Type 0 where
    pub value : Bytes
    pub encoded : encode_message m ≡ ok value
    pub stored : get s'.state key ≡ some value
    pub others : (j : Bytes) → IsOutside j → key ≢ j → get s'.state j ≡ get s.state j

  abbrev pub SavePost :
      {A : Type 0} → Bytes → StoredMessage → Store → Result QueueError A → Store → Type 0
  SavePost key m s (ok _) s' = HasLog s' × Saved key m s s'
  SavePost key m s (err _) s' = HasLog s' × (s'.state ≡ s.state)

  put_saved :
      (key value : Bytes) (m : StoredMessage) (s : Store)
      → encode_message m ≡ ok value
      → IsOutside key
      → (r : Result EngineError (Unit {0})) (s' : Store) → KeyPost (put key value) s r s'
      → SavePost key m s (map_err store r) s'
  unfolding apply_operation
  put_saved key value m s e outside (err _) s' h = h
  put_saved key value m s e outside (ok _) s' (h, reads) = (
    h,
    record {
      value = value;
      encoded = e;
      stored = reads key outside ∙ get-insert_self s.state key value;
      others = λ j o ne. reads j o ∙ get-insert_ne s.state key j value ne;
    },
  )

  pub save_message-SavePost :
      (key : Bytes) (m : StoredMessage) (s : Store)
      → HasLog s
      → IsOutside key
      → SavePost key m s (save_message key m s).0 (save_message key m s).1
  save_message-SavePost key m s h outside =
      continue_ind (SavePost key m s) (encode_message m) _ s
        (λ value e.
          put_saved key value m s e outside (put_internal_key key value s).0 _
            (put_internal_key-KeyPost key value s h))
        (λ _ _. (h, refl))

  -- What `claim` promises: it delivers a message that is eligible and before which no eligible message
  -- comes, and stores it as leased, one generation further; or the state has not changed.
  pub record Claimed (q : Queue) (now_ms : ℤ) (lease_duration_ms : ℕ) (s s' : Store)
      (out : QueueMessage) : Type 0 where
    pub key : Bytes
    pub message : StoredMessage
    pub generation : ℕ
    pub until : ℤ
    pub eligible : IsEligible now_ms (scan_prefix s.state q.message_prefix) (some (key, message))
    pub best :
        (k : Bytes) (m : StoredMessage)
        → IsStored (scan_prefix s.state q.message_prefix) k m
        → C.eligible now_ms m ≡ true
        → C.precedes m message ≡ false
    pub next : generation ≡ message.attempts + 1
    pub until_eq : until ≡ now_ms +ℤ pos lease_duration_ms
    pub generation_fits : generation < 2 ^ 32
    pub until_fits : Fits i64_half until
    pub out_eq : out ≡ delivered (as_leased message generation until)
    pub saved : Saved key (as_leased message generation until) s s'

  saved_as :
      (key : Bytes) (m : StoredMessage) (s : Store)
      → HasLog s
      → IsOutside key
      → (r : Result QueueError (Unit {0})) → (save_message key m s).0 ≡ r
      → SavePost key m s r (save_message key m s).1
  saved_as key m s h outside r e =
      subst (λ x. SavePost key m s x (save_message key m s).1) e
        (save_message-SavePost key m s h outside)

  next_attempt :
      (n g : ℕ) → ok_or (checked_add_u32 n 1) attempt_exhausted ≡ ok g → (g ≡ n + 1) × (g < 2 ^ 32)
  next_attempt n g h = ground arith

  abbrev pub ClaimPost :
      Queue → ℤ → ℕ → Store → Result QueueError (Option QueueMessage) → Store → Type 0
  ClaimPost q now_ms duration s (ok (some out)) s' = HasLog s' × Claimed q now_ms duration s s' out
  ClaimPost q now_ms duration s (ok none) s' =
      (s' ≡ s) × (select now_ms (scan_prefix s.state q.message_prefix) none ≡ ok none)
  ClaimPost q now_ms duration s (err _) s' = HasLog s' × (s'.state ≡ s.state)

  lease_candidate-ClaimPost :
      (name : Bytes) (q : Queue) (now_ms : ℤ) (duration : ℕ) (until : ℤ) (s : Store)
      → new name ≡ ok q
      → HasLog s
      → until ≡ now_ms +ℤ pos duration
      → Fits i64_half until
      → (c : Candidate) → select now_ms (scan_prefix s.state q.message_prefix) none ≡ ok c
      → ClaimPost q now_ms duration s (lease_candidate until c s).0 (lease_candidate until c s).1
  unfolding lease_candidate record_queue_claim
  lease_candidate-ClaimPost name q now_ms duration until s n h e fit none found = (refl, found)
  lease_candidate-ClaimPost name q now_ms duration until s n h e fit (some (key, m)) found =
      continue_ind (ClaimPost q now_ms duration s)
        (ok_or (checked_add_u32 m.attempts 1) attempt_exhausted) _ s
        (λ generation g.
          let leased_m = as_leased m generation until in
          let outside = scanned-IsOutside name key _ q s.state n (best.0.0.entry) in
          continue_ind (ClaimPost q now_ms duration s) (save_message key leased_m s).0 _ _
            (λ _ r.
              let (h', saved) = saved_as key leased_m s h outside (ok _) r in
              (
                HasLog-metrics _ _ h',
                record {
                  key = key;
                  message = m;
                  generation = generation;
                  until = until;
                  eligible = best.0;
                  best = best.1;
                  next = (next_attempt m.attempts generation g).0;
                  until_eq = e;
                  generation_fits = (next_attempt m.attempts generation g).1;
                  until_fits = fit;
                  out_eq = refl;
                  saved = record {
                    value = saved.value;
                    encoded = saved.encoded;
                    stored = saved.stored;
                    others = saved.others;
                  };
                },
              ))
            (λ error r. saved_as key leased_m s h outside (err error) r))
        (λ _ _. (h, refl))
    where
      best :
          IsEligible now_ms (scan_prefix s.state q.message_prefix) (some (key, m))
          × ((k : Bytes) (n : StoredMessage)
              → IsStored (scan_prefix s.state q.message_prefix) k n
              → C.eligible now_ms n ≡ true
              → Beaten n (some (key, m)))
      best = select-best now_ms (scan_prefix s.state q.message_prefix) (some (key, m)) found

  until_of :
      (now_ms until duration : ℤ)
      → ok_or (checked_add_i64 now_ms duration) time_overflow ≡ ok until
      → until ≡ now_ms +ℤ duration
  until_of now_ms until duration h = ground arith

  until-Fits :
      (now_ms until duration : ℤ)
      → ok_or (checked_add_i64 now_ms duration) time_overflow ≡ ok until
      → Fits i64_half until
  until-Fits now_ms until duration h =
      fits→Fits i64_half until
        (checked_fits (now_ms +ℤ duration) (fits i64_half (now_ms +ℤ duration)) refl h)
    where
      checked_fits :
          (z : ℤ) (b : Bool)
          → fits i64_half z ≡ b
          → ok_or (if b then some z else none) time_overflow ≡ ok until
          → fits i64_half until ≡ true
      checked_fits z true e h' = cc
      checked_fits z false e h' = cc

  duration_of :
      (duration : ℕ) (z : ℤ) → ok_or (to_i64 duration) time_overflow ≡ ok z → z ≡ pos duration
  duration_of duration z h = ground arith

  -- `claim` on a store whose file holds its state leases what the scan has selected; if that is
  -- nothing, the store is the same, and after an error no key has changed.
  pub claim-ClaimPost :
      (name : Bytes) (q : Queue) (now_ms : ℤ) (duration : ℕ) (s : Store)
      → new name ≡ ok q
      → HasLog s
      → ClaimPost q now_ms duration s (claim q now_ms duration s).0 (claim q now_ms duration s).1
  unfolding claim
  claim-ClaimPost name q now_ms duration s n h =
      continue_ind P (ok_or (to_i64 duration) time_overflow) _ s
        (λ z ez.
          continue_ind P (ok_or (checked_add_i64 now_ms z) time_overflow) _ s
            (λ until eu.
              continue_ind P (select now_ms (scan_prefix s.state q.message_prefix) none) _ s
                (λ c found.
                  lease_candidate-ClaimPost name q now_ms duration until s n h
                    (until_of now_ms until z eu ∙ ap (λ x. now_ms +ℤ x) (duration_of duration z ez))
                    (until-Fits now_ms until z eu) c found)
                (λ _ _. (h, refl)))
            (λ _ _. (h, refl)))
        (λ _ _. (h, refl))
    where
      P : Result QueueError (Option QueueMessage) → Store → Type 0
      P = ClaimPost q now_ms duration s
