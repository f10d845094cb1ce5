-- ===== src/Queue/Stats.antt =====
-- queue.rs: `QueueStats`, of one queue and of all queues of a store.
use voodoo_store.Prelude.{ℕ, Bool, false, ◌||◌, Option, none, some, [], ◌∷◌, if◌then◌else◌}
use voodoo_store.Prelude.Int.{ℤ, pos, negsuc, ◌-ℤ◌, ltb_ℤ, leb_ℤ}
use voodoo_store.Result.{Result, ok, err, ok_or, ◌>>=◌}
use voodoo_store.Bytes.{Bytes, starts_with}
use voodoo_store.Bytes.Words.{checked_add, wrap, i64_half}
use voodoo_store.Engine.Payload.{State}
use voodoo_store.Engine.Store.{scan_prefix}
use voodoo_store.Queue.Message.{
  ready, leased, dead, QueueError, count_overflow, StoredMessage, decode_message, Queue,
  queue_prefix,
}

pub record QueueStats : Type 0 where
  pub ready_count : ℕ
  pub leased_count : ℕ
  pub dead_count : ℕ
  pub total : ℕ
  pub oldest_ready_at_ms : Option ℤ

abbrev pub no_messages : QueueStats
no_messages = record {
  ready_count = 0;
  leased_count = 0;
  dead_count = 0;
  total = 0;
  oldest_ready_at_ms = none;
}

-- `u64::try_from` of the difference.
abbrev to_u64 : ℤ → Option ℕ
to_u64 (pos n) = some n
to_u64 (negsuc n) = none

-- The subtraction is that of a release build, which wraps.
unfoldable pub ready_lag_ms : QueueStats → ℤ → Option ℕ
ready_lag_ms stats now_ms = elim stats.oldest_ready_at_ms [
  | none ↦ none
  | some oldest ↦ if ltb_ℤ now_ms oldest then some 0 else to_u64 (wrap i64_half (now_ms -ℤ oldest))
]

abbrev pub increment : ℕ → Result QueueError ℕ
increment n = ok_or (checked_add n 1) count_overflow

abbrev pub oldest_of : Option ℤ → ℤ → ℤ
oldest_of none t = t
oldest_of (some oldest) t = if leb_ℤ oldest t then oldest else t

-- The body of the loop, for a decoded message.
unfoldable pub count_state : StoredMessage → QueueStats → Result QueueError QueueStats
count_state m stats = elim m.state [
  | ready ↦ increment stats.ready_count >>= λ n. ok (record stats {
    ready_count = n;
    oldest_ready_at_ms = some (oldest_of stats.oldest_ready_at_ms m.available_at_ms);
  })
  | leased ↦ increment stats.leased_count >>= λ n. ok (record stats { leased_count = n })
  | dead ↦ increment stats.dead_count >>= λ n. ok (record stats { dead_count = n })
]

unfoldable pub count_message : StoredMessage → QueueStats → Result QueueError QueueStats
unfolding count_state
count_message m stats = do
  total ← increment stats.total
  count_state m (record stats { total = total })

unfoldable pub count_messages : State → QueueStats → Result QueueError QueueStats
unfolding count_message
count_messages [] stats = ok stats
count_messages ((key, value) ∷ entries) stats =
    elim (decode_message value >>= λ m. count_message m stats) [
      | err error ↦ err error
      | ok counted ↦ count_messages entries counted
    ]

-- `Queue::stats`
unfoldable pub stats : Queue → State → Result QueueError QueueStats
unfolding count_messages
stats q state = count_messages (scan_prefix state q.message_prefix) no_messages

-- `key.windows(3).any(|window| window == b":m:")`
unfoldable pub has_message_mark : Bytes → Bool
has_message_mark [] = false
has_message_mark (b ∷ bs) = starts_with (b ∷ bs) (b':' ∷ b'm' ∷ b':' ∷ []) || has_message_mark bs

unfoldable pub message_entries : State → State
unfolding has_message_mark
message_entries [] = []
message_entries ((key, value) ∷ entries) =
    let rest = message_entries entries in if has_message_mark key then (key, value) ∷ rest else rest

-- `aggregate_stats`; the entries that it skips are not decoded.
unfoldable pub aggregate_stats : State → Result QueueError QueueStats
unfolding count_messages message_entries
aggregate_stats state =
    count_messages (message_entries (scan_prefix state queue_prefix)) no_messages
