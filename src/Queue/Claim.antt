-- ===== src/Queue/Claim.antt =====
-- queue.rs: which message `claim` takes.
pub mod Best
use voodoo_store.Prelude.{
  ℕ, Bool, true, false, ◌&&◌, ◌||◌, Option, none, some, List, [], ◌∷◌, ltb, ◌==◌, if◌then◌else◌,
}
use voodoo_store.Prelude.Int.{ℤ, ltb_ℤ, leb_ℤ}
use voodoo_store.Result.{Result, ok, err}
use voodoo_store.Bytes.{Bytes}
use voodoo_store.Engine.Payload.{State}
use voodoo_store.Queue.Message.{
  QueueState, ready, leased, dead, QueueError, StoredMessage, decode_message,
}

unfoldable pub eligible : ℤ → StoredMessage → Bool
eligible now_ms m = elim m.state [
  | ready ↦ leb_ℤ m.available_at_ms now_ms
  | leased ↦ leb_ℤ m.lease_until_ms now_ms
  | dead ↦ false
]

-- `==` on i32.
abbrev same : ℤ → ℤ → Bool
same a b = leb_ℤ a b && leb_ℤ b a

-- A message takes the place of the current candidate.
unfoldable pub precedes : StoredMessage → StoredMessage → Bool
precedes m current =
    ltb_ℤ current.priority m.priority || (same m.priority current.priority && ltb m.id current.id)

abbrev pub Candidate : Type 0
Candidate = Option (Bytes × StoredMessage)

unfoldable pub replaces : StoredMessage → Candidate → Bool
unfolding precedes
replaces m none = true
replaces m (some (key, current)) = precedes m current

unfoldable pub consider : ℤ → Bytes → StoredMessage → Candidate → Candidate
unfolding eligible replaces
consider now_ms key m candidate =
    if eligible now_ms m && replaces m candidate then some (key, m) else candidate

-- The loop over the messages of the queue.
unfoldable pub select : ℤ → State → Candidate → Result QueueError Candidate
unfolding consider
select now_ms [] candidate = ok candidate
select now_ms ((key, value) ∷ entries) candidate = elim (decode_message value) [
  | err error ↦ err error
  | ok m ↦ select now_ms entries (consider now_ms key m candidate)
]
