-- ===== src/Queue/Commands.antt =====
-- queue.rs: a queue under any sequence of calls, errors included.
use voodoo_store.Prelude.{ℕ, List, [], ◌∷◌}
use voodoo_store.Prelude.Int.{ℤ}
use voodoo_store.Bytes.{Bytes}
use voodoo_store.Bytes.Words.{Fits, i32_half, i64_half}
use voodoo_store.Platform.{Platform}
use voodoo_store.Map.{key_eq}
use voodoo_store.Engine.Store.{Store}
use voodoo_store.Engine.Durability.Sealing.{HasLog}
use voodoo_store.Queue.{PushOptions, push_with_options, claim, ack, nack, dead_letter}
use voodoo_store.Queue.Message.{Queue}
use voodoo_store.Queue.Invariant.{IsQueue}

-- A call of a worker or a producer, with its arguments.
pub data Command : Type 0 where
  push : Bytes → PushOptions → Command
  claim_next : ℤ → ℕ → Command
  ack_one : ℕ → ℕ → Command
  nack_one : ℕ → ℕ → ℤ → Command
  dead_letter_one : ℕ → ℕ → Command

-- The arguments are values of their machine types.
abbrev pub FitsCommand : Command → Type 0
FitsCommand (push payload options) =
    Fits i32_half options.priority × Fits i64_half options.available_at_ms
FitsCommand (claim_next now_ms duration) = Unit
FitsCommand (ack_one id generation) = Unit
FitsCommand (nack_one id generation available_at_ms) = Fits i64_half available_at_ms
FitsCommand (dead_letter_one id generation) = Unit

abbrev pub AllFit : List Command → Type 0
AllFit [] = Unit
AllFit (c ∷ cs) = FitsCommand c × AllFit cs

module _ ⦃d : Platform⦄ where
  -- The store after a call, whatever it returned.
  abbrev pub run_command : Queue → Command → Store → Store
  run_command q (push payload options) s = (push_with_options q payload options s).1
  run_command q (claim_next now_ms duration) s = (claim q now_ms duration s).1
  run_command q (ack_one id generation) s = (ack q id generation s).1
  run_command q (nack_one id generation available_at_ms) s =
      (nack q id generation available_at_ms s).1
  run_command q (dead_letter_one id generation) s = (dead_letter q id generation s).1

  abbrev pub run_commands : Queue → List Command → Store → Store
  run_commands q [] s = s
  run_commands q (c ∷ cs) s = run_commands q cs (run_command q c s)

  -- The file holds the store's state, and the queue's messages stand under their keys.
  abbrev pub IsSound : Queue → Store → Type 0
  IsSound q s = HasLog s × IsQueue q s.state
