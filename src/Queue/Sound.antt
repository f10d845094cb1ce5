-- ===== src/Queue/Sound.antt =====
-- queue.rs: what every call on a queue keeps.
use voodoo_store.Prelude.{
  ℕ, ◌^◌, ◌<◌, ◌≡◌, ◌≢◌, refl, sym, ap, subst, ◌∙◌, true, false, none, some, List, [], ◌∷◌, ◌++◌,
  length, arith, Option,
}
use voodoo_store.Prelude.Int.{ℤ}
use voodoo_store.Result.{Result, ok, err}
use voodoo_store.Bytes.{Bytes, to_be_bytes, starts_with}
use voodoo_store.Bytes.Words.{Fits, i64_half}
use voodoo_store.Platform.{Platform}
use voodoo_store.Map.{get, key_eq}
use voodoo_store.Engine.Store.{Store}
use voodoo_store.Queue.{
  PushOptions, QueueMessage, pushed, as_ready, as_dead, push_with_options, claim, ack, nack,
  dead_letter,
}
use voodoo_store.Queue.Message.{
  Queue, new, StoredMessage, QueueError, message_key, encode_message, decode_message, queue_prefix,
  lease_mismatch,
}
use voodoo_store.Queue.Message.RoundTrip.{FitsMessage}
use voodoo_store.Queue.Keys.{handle_of, prefixed-IsOutside}
use voodoo_store.Queue.Held.{Held}
use voodoo_store.Queue.Lease.{ClaimPost, claim-ClaimPost}
use voodoo_store.Queue.Push.{Pushed, PushPost, push_with_options-PushPost}
use voodoo_store.Queue.Release.{EndPost, AckPost, ack-AckPost, nack-EndPost, dead_letter-EndPost}
use voodoo_store.Queue.Invariant.{
  IsQueue, stored-IsQueue, Saved-IsQueue, unchanged-IsQueue, claim-IsQueue, IsQueue-IsKeyed,
}
use voodoo_store.Queue.Fencing.{TurnedAway, claim-fences}
use voodoo_store.Queue.Commands.{
  Command, push, claim_next, ack_one, nack_one, dead_letter_one, FitsCommand, AllFit, run_command,
  run_commands, IsSound,
}
use voodoo_store.Bytes.Prefix.{starts_with-append_self, starts_with-append_both}

pub message_key-prefixed :
    (q : Queue) (id : ℕ) → starts_with (message_key q id) q.message_prefix ≡ true
unfolding message_key
message_key-prefixed q id = starts_with-append_self q.message_prefix (to_be_bytes 8 id)

pub meta_key-not-prefixed :
    (name : Bytes) (q : Queue) → new name ≡ ok q → starts_with q.meta_key q.message_prefix ≡ false
unfolding starts_with
meta_key-not-prefixed name q h =
    let (n, e) = handle_of name q h in
    subst (λ (x : Queue). starts_with x.meta_key x.message_prefix ≡ false) (sym e)
      (starts_with-append_both (queue_prefix ++ (to_be_bytes 4 n ++ name)) _ _)

payload_fits :
    (m : StoredMessage) (value : Bytes) → encode_message m ≡ ok value → length m.payload < 2 ^ 32
unfolding encode_message
payload_fits m value h = ground arith

pub as_ready-Fits :
    (available_at_ms : ℤ) (m : StoredMessage)
    → Fits i64_half available_at_ms
    → FitsMessage m
    → FitsMessage (as_ready available_at_ms m)
as_ready-Fits available_at_ms m f g = record {
  id = g.id;
  attempts = g.attempts;
  priority = g.priority;
  available_at_ms = f;
  lease_until_ms = omega arith;
  payload = g.payload;
}

pub as_dead-Fits : (m : StoredMessage) → FitsMessage m → FitsMessage (as_dead m)
as_dead-Fits m g = record {
  id = g.id;
  attempts = g.attempts;
  priority = g.priority;
  available_at_ms = g.available_at_ms;
  lease_until_ms = omega arith;
  payload = g.payload;
}

module _ ⦃d : Platform⦄ (name : Bytes) (q : Queue) (n : new name ≡ ok q) where
  pub Held-IsQueue :
      (id generation : ℕ) (s : Store) (m : StoredMessage)
      → IsQueue q s.state
      → Held q id generation s.state m
      → (message_key q id ≡ message_key q m.id) × FitsMessage m
  Held-IsQueue id generation s m i held =
      i.at (message_key q id) held.value m (message_key-prefixed q id) held.found held.decoded

  end-IsSound :
      (id generation : ℕ) (change : StoredMessage → StoredMessage) (s s' : Store)
      (r : Result QueueError (Unit {0}))
      → ((m : StoredMessage) → FitsMessage m → ((change m).id ≡ m.id) × FitsMessage (change m))
      → IsQueue q s.state
      → EndPost q id generation change s r s'
      → IsSound q s'
  end-IsSound id generation change s s' (err _) keeps i (h, same) =
      (h, unchanged-IsQueue name q n s s' same i)
  end-IsSound id generation change s s' (ok _) keeps i (h, ended) =
      let (own, f) = Held-IsQueue id generation s ended.message i ended.held in
      let (same, f') = keeps ended.message f in
      (
        h,
        Saved-IsQueue name q n (message_key q id) (change ended.message) s s' i
            (own ∙ ap (message_key q) (sym same)) f' ended.saved,
      )

  ack-IsSound :
      (id generation : ℕ) (s s' : Store) (r : Result QueueError (Unit {0}))
      → IsQueue q s.state
      → AckPost q id generation s r s'
      → IsSound q s'
  ack-IsSound id generation s s' (err _) i (h, same) = (h, unchanged-IsQueue name q n s s' same i)
  ack-IsSound id generation s s' (ok _) i (h, _, gone, others) = (h, record { at = at })
    where
      none_ne_some : {v : Bytes} → ◌≢◌ {A = Option Bytes} none (some v)
      none_ne_some e = cc

      at :
          (j v : Bytes) (m : StoredMessage)
          → starts_with j q.message_prefix ≡ true
          → get s'.state j ≡ some v
          → decode_message v ≡ ok m
          → (j ≡ message_key q m.id) × FitsMessage m
      at j v m prefixed found decoded =
          i.at j v m prefixed (sym (others j (prefixed-IsOutside name j q n prefixed) ne) ∙ found)
            decoded
        where
          ne : message_key q id ≢ j
          ne same = none_ne_some (sym gone ∙ ap (get s'.state) same ∙ found)

  pub pushed-Fits :
      (payload : Bytes) (options : PushOptions) (s s' : Store) (id : ℕ)
      → FitsCommand (push payload options)
      → Pushed q payload options s s' id
      → FitsMessage (pushed id payload options)
  pushed-Fits payload options s s' id (fp, fa) p = record {
    id = omega (arith, p.next_fits);
    attempts = omega arith;
    priority = fp;
    available_at_ms = fa;
    lease_until_ms = omega arith;
    payload = payload_fits (pushed id payload options) p.value p.encoded;
  }

  push-IsSound :
      (payload : Bytes) (options : PushOptions) (s s' : Store) (r : Result QueueError ℕ)
      → FitsCommand (push payload options)
      → IsQueue q s.state
      → PushPost q payload options s r s'
      → IsSound q s'
  push-IsSound payload options s s' (err _) f i (h, same) =
      (h, unchanged-IsQueue name q n s s' same i)
  push-IsSound payload options s s' (ok id) (fp, fa) i (h, p) = (
    h,
    stored-IsQueue q s.state s'.state (message_key q id) p.value (pushed id payload options) i refl
        (pushed-Fits payload options s s' id (fp, fa) p) p.encoded p.stored
        (λ j prefixed ne.
          p.others j (prefixed-IsOutside name j q n prefixed) (meta_ne j prefixed) ne),
  )
    where
      meta_ne : (j : Bytes) → starts_with j q.message_prefix ≡ true → q.meta_key ≢ j
      meta_ne j prefixed same = cc (meta_key-not-prefixed name q n)

  claimed-IsSound :
      (now_ms : ℤ) (duration : ℕ) (s s' : Store) (r : Result QueueError (Option QueueMessage))
      → IsSound q s
      → ClaimPost q now_ms duration s r s'
      → IsSound q s'
  claimed-IsSound now_ms duration s s' (ok none) (h, i) (same, found) =
      subst (λ (x : Store). IsSound q x) (sym same) (h, i)
  claimed-IsSound now_ms duration s s' (ok (some out)) (h, i) (h', c) =
      (h', claim-IsQueue name q n now_ms duration s s' (ok (some out)) h i (h', c))
  claimed-IsSound now_ms duration s s' (err error) (h, i) (h', same) =
      (h', unchanged-IsQueue name q n s s' same i)

  pub run_command-IsSound :
      (c : Command) (s : Store) → FitsCommand c → IsSound q s → IsSound q (run_command q c s)
  run_command-IsSound (push payload options) s f (h, i) =
      push-IsSound payload options s _ (push_with_options q payload options s).0 f i
        (push_with_options-PushPost name q payload options s n h)
  run_command-IsSound (claim_next now_ms duration) s f (h, i) =
      claimed-IsSound now_ms duration s _ (claim q now_ms duration s).0 (h, i)
        (claim-ClaimPost name q now_ms duration s n h)
  run_command-IsSound (ack_one id generation) s f (h, i) =
      ack-IsSound id generation s _ (ack q id generation s).0 i
        (ack-AckPost name q id generation s n h)
  run_command-IsSound (nack_one id generation available_at_ms) s f (h, i) =
      end-IsSound id generation (as_ready available_at_ms) s _
        (nack q id generation available_at_ms s).0
        (λ m g. (
          refl,
          record {
            id = g.id;
            attempts = g.attempts;
            priority = g.priority;
            available_at_ms = f;
            lease_until_ms = omega arith;
            payload = g.payload;
          },
        ))
        i (nack-EndPost name q id generation s n h available_at_ms)
  run_command-IsSound (dead_letter_one id generation) s f (h, i) =
      end-IsSound id generation as_dead s _ (dead_letter q id generation s).0
        (λ m g. (
          refl,
          record {
            id = g.id;
            attempts = g.attempts;
            priority = g.priority;
            available_at_ms = g.available_at_ms;
            lease_until_ms = omega arith;
            payload = g.payload;
          },
        ))
        i (dead_letter-EndPost name q id generation s n h)

  -- Any sequence of pushes, claims and ends, failed ones included, with arguments of their machine
  -- types, keeps a queue sound: the file holds the store's state, and every message of the queue stands
  -- under the key of its id with fields that fit their machine types.
  pub run_commands-IsSound :
      (commands : List Command) (s : Store)
      → AllFit commands
      → IsSound q s
      → IsSound q (run_commands q commands s)
  run_commands-IsSound [] s f i = i
  run_commands-IsSound (c ∷ cs) s (f, fs) i =
      run_commands-IsSound cs (run_command q c s) fs (run_command-IsSound c s f i)

  -- After any sequence of pushes, claims and ends with arguments of their machine types on a sound
  -- queue, once `claim` has delivered a message, `ack`, `nack` and `dead_letter` of it with any other
  -- lease generation fail with a mismatch and change nothing.
  pub run_commands-fences :
      (commands : List Command) (s : Store) (now_ms : ℤ) (duration : ℕ) (out : QueueMessage) (g : ℕ)
      → AllFit commands
      → IsSound q s
      → (claim q now_ms duration (run_commands q commands s)).0 ≡ ok (some out)
      → out.lease_generation ≢ g
      → TurnedAway q out.id g
          (lease_mismatch out.id out.lease_generation g)
          (claim q now_ms duration (run_commands q commands s)).1
  run_commands-fences commands s now_ms duration out g f i e ne =
      let (h, k) = run_commands-IsSound commands s f i in
      claim-fences name q now_ms duration (run_commands q commands s) out g n h
        (IsQueue-IsKeyed q (run_commands q commands s) h k) e ne
