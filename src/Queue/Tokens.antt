-- ===== src/Queue/Tokens.antt =====
-- queue.rs: lease generations as fencing tokens. A generation that has passed is never accepted again.
use voodoo_store.Prelude.{
  ℕ, ◌<◌, ◌≤◌, ◌≡◌, refl, sym, ap, subst, ◌∙◌, inl, inr, some, List, [], ◌∷◌, arith,
}
use voodoo_store.Prelude.Int.{ℤ}
use voodoo_store.Result.{ok, result_cases}
use voodoo_store.Bytes.{Bytes}
use voodoo_store.Platform.{Platform}
use voodoo_store.Map.{get, key_eq}
use voodoo_store.Engine.Store.{Store}
use voodoo_store.Queue.{
  QueueMessage, as_leased, as_ready, as_dead, next_id, load_leased, push_with_options, claim, ack,
  nack, dead_letter,
}
use voodoo_store.Queue.Message.{Queue, new, StoredMessage, QueueError, message_key, decode_message}
use voodoo_store.Queue.Message.RoundTrip.{FitsMessage}
use voodoo_store.Queue.Held.{load_leased-Held}
use voodoo_store.Queue.Lease.{Claimed, ClaimPost, claim-ClaimPost}
use voodoo_store.Queue.Push.{push_with_options-PushPost}
use voodoo_store.Queue.Release.{ack-AckPost, nack-EndPost, dead_letter-EndPost}
use voodoo_store.Queue.Fencing.{TurnedAway, turned_away}
use voodoo_store.Queue.Invariant.{IsQueue-IsKeyed, decoded_eq}
use voodoo_store.Queue.Commands.{
  Command, push, claim_next, ack_one, nack_one, dead_letter_one, FitsCommand, AllFit, run_command,
  run_commands, IsSound,
}
use voodoo_store.Queue.Sound.{run_command-IsSound, as_ready-Fits, as_dead-Fits}
use voodoo_store.Queue.Passed.{
  HasPassed, some_inj, Claimed-Fits, claim-HasPassed, end-HasPassed, ack-HasPassed, push-HasPassed,
}

module _ ⦃d : Platform⦄ (name : Bytes) (q : Queue) (n : new name ≡ ok q) (id generation : ℕ) where
  run_command-HasPassed :
      (c : Command) (s : Store)
      → FitsCommand c
      → IsSound q s
      → HasPassed q id generation s.state
      → HasPassed q id generation (run_command q c s).state
  run_command-HasPassed (push payload options) s f (h, i) p =
      push-HasPassed name q n id generation payload options s _
        (push_with_options q payload options s).0 f p
        (push_with_options-PushPost name q payload options s n h)
  run_command-HasPassed (claim_next now_ms duration) s f (h, i) p =
      claim-HasPassed name q n id generation now_ms duration s _ (claim q now_ms duration s).0
        (h, i) p (claim-ClaimPost name q now_ms duration s n h)
  run_command-HasPassed (ack_one id' g) s f (h, i) p =
      ack-HasPassed name q n id generation id' g s _ (ack q id' g s).0 p
        (ack-AckPost name q id' g s n h)
  run_command-HasPassed (nack_one id' g available_at_ms) s f (h, i) p =
      end-HasPassed name q n id generation id' g (as_ready available_at_ms) s _
        (nack q id' g available_at_ms s).0 (λ m fit. (refl, as_ready-Fits available_at_ms m f fit))
        i p (nack-EndPost name q id' g s n h available_at_ms)
  run_command-HasPassed (dead_letter_one id' g) s f (h, i) p =
      end-HasPassed name q n id generation id' g as_dead s _ (dead_letter q id' g s).0
        (λ m fit. (refl, as_dead-Fits m fit)) i p (dead_letter-EndPost name q id' g s n h)

  run_commands-HasPassed :
      (commands : List Command) (s : Store)
      → AllFit commands
      → IsSound q s
      → HasPassed q id generation s.state
      → HasPassed q id generation (run_commands q commands s).state
  run_commands-HasPassed [] s f i p = p
  run_commands-HasPassed (c ∷ cs) s (f, fs) i p =
      run_commands-HasPassed cs (run_command q c s) fs (run_command-IsSound name q n c s f i)
        (run_command-HasPassed c s f i p)

  -- A generation below the one passed is turned away.
  HasPassed-TurnedAway :
      (g : ℕ) (s : Store)
      → g < generation
      → HasPassed q id generation s.state
      → (error : QueueError) × TurnedAway q id g error s
  HasPassed-TurnedAway g s below p = elim (result_cases (load_leased q id g s.state)) [
    | inl (m, e) ↦
        let held = load_leased-Held q id g s.state m e in
        let low = p.low held.value m held.found held.decoded in
        absurd (omega (arith, low, held.generation, below))
    | inr (error, e) ↦ (error, turned_away q id g error s e)
  ]

module _ ⦃d : Platform⦄ (name : Bytes) (q : Queue) (n : new name ≡ ok q) where
  Claimed-HasPassed :
      (now_ms : ℤ) (duration : ℕ) (s s' : Store) (out : QueueMessage)
      → IsSound q s
      → Claimed q now_ms duration s s' out
      → ((k : ℕ) → next_id q s'.state ≡ ok k → out.id < k)
      → HasPassed q out.id out.lease_generation s'.state
  Claimed-HasPassed now_ms duration s s' out (h, i) c given = record { low = low; given = given }
    where
      message : StoredMessage
      message = as_leased c.message c.generation c.until

      well : (c.key ≡ message_key q c.message.id) × FitsMessage c.message
      well = IsQueue-IsKeyed q s h i c.key c.message c.eligible.0

      same_id : out.id ≡ message.id
      same_id = ap (λ (x : QueueMessage). x.id) c.out_eq

      low :
          (v : Bytes) (m : StoredMessage)
          → get s'.state (message_key q out.id) ≡ some v
          → decode_message v ≡ ok m
          → out.lease_generation ≤ m.attempts
      low v m found decoded =
          let stored =
            subst (λ k. get s'.state k ≡ some c.saved.value)
              (well.0 ∙ ap (message_key q) (sym same_id)) c.saved.stored in
          let value_same : v ≡ c.saved.value = some_inj (sym found ∙ stored) in
          let m_same =
            decoded_eq c.saved.value message m c.saved.encoded
              (Claimed-Fits q now_ms duration s s' out c well.1)
              (ap decode_message (sym value_same) ∙ decoded) in
          let g = ap (λ (x : QueueMessage). x.lease_generation) c.out_eq in
          let a = ap (λ (x : StoredMessage). x.attempts) m_same in omega (arith, g, a)

  -- Once `claim` has delivered a message of a sound queue, whose id is one that the queue has given
  -- out, no earlier lease generation is accepted for that id after any later sequence of pushes,
  -- claims and ends with arguments of their machine types: `ack`, `nack` and `dead_letter` fail with it
  -- and change nothing.
  pub run_commands-turn_away :
      (now_ms : ℤ) (duration : ℕ) (s : Store) (out : QueueMessage) (commands : List Command) (g : ℕ)
      → IsSound q s
      → (claim q now_ms duration s).0 ≡ ok (some out)
      → ((k : ℕ) → next_id q (claim q now_ms duration s).1.state ≡ ok k → out.id < k)
      → AllFit commands
      → g < out.lease_generation
      → (error : QueueError) × TurnedAway q out.id g error
          (run_commands q commands (claim q now_ms duration s).1)
  run_commands-turn_away now_ms duration s out commands g (h, i) e given f below =
      let post =
        subst (λ x. ClaimPost q now_ms duration s x (claim q now_ms duration s).1) e
          (claim-ClaimPost name q now_ms duration s n h) in
      let sound = run_command-IsSound name q n (claim_next now_ms duration) s tt (h, i) in
      HasPassed-TurnedAway name q n out.id out.lease_generation g _ below (
        run_commands-HasPassed name q n out.id out.lease_generation commands
          (claim q now_ms duration s).1 f sound
          (Claimed-HasPassed now_ms duration s (claim q now_ms duration s).1 out (h, i) post.1
            given))
