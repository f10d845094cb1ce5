-- ===== src/Queue/Held.antt =====
-- queue.rs: what `load_message` and `validate_lease` let through.
use voodoo_store.Prelude.{ℕ, ◌≡◌, ◌⊎◌, inl, inr, refl, sym, subst, Option, none, some, arith}
use voodoo_store.Result.{Result, ok, err, result_cases}
use voodoo_store.Bytes.{Bytes}
use voodoo_store.Map.{get, key_eq}
use voodoo_store.Engine.Payload.{State}
use voodoo_store.Queue.{load_leased, load_message, checked}
use voodoo_store.Queue.Message.{
  Queue, StoredMessage, leased, QueueError, message_key, decode_message, validate_lease,
}

-- The message that a worker may end: it is stored, leased, and of the worker's generation.
pub record Held (q : Queue) (id lease_generation : ℕ) (state : State) (m : StoredMessage)
    : Type 0 where
  pub value : Bytes
  pub found : get state (message_key q id) ≡ some value
  pub decoded : decode_message value ≡ ok m
  pub leased_state : m.state ≡ leased
  pub generation : m.attempts ≡ lease_generation

ok_not_err :
    {error : QueueError} {m : StoredMessage}
    → ◌≡◌ {A = Result QueueError StoredMessage} (err error) (ok m)
    → ⊥
ok_not_err h = cc

checked-ok :
    (lease_generation : ℕ) (m n : StoredMessage)
    → checked lease_generation m ≡ ok n
    → (n ≡ m) × (m.state ≡ leased) × (m.attempts ≡ lease_generation)
unfolding validate_lease
checked-ok lease_generation m n h = ground arith

pub load_leased-Held :
    (q : Queue) (id lease_generation : ℕ) (state : State) (m : StoredMessage)
    → load_leased q id lease_generation state ≡ ok m
    → Held q id lease_generation state m
unfolding load_leased load_message
load_leased-Held q id lease_generation state m h = from (get state (message_key q id)) refl
  where
    decoded_as :
        (v : Bytes) (n : StoredMessage)
        → get state (message_key q id) ≡ some v
        → decode_message v ≡ ok n
        → checked lease_generation n ≡ ok m
    decoded_as v n e dn = rw (load_leased, load_message, e, dn) at h

    held :
        (v : Bytes)
        → get state (message_key q id) ≡ some v
        → ((n : StoredMessage) × (decode_message v ≡ ok n))
          ⊎ ((error : QueueError) × (decode_message v ≡ err error))
        → Held q id lease_generation state m
    held v e (inl (n, dn)) =
        let (same, st, g) = checked-ok lease_generation n m (decoded_as v n e dn) in
        record {
          value = v;
          found = e;
          decoded = subst (λ x. decode_message v ≡ ok x) (sym same) dn;
          leased_state = subst (λ (x : StoredMessage). x.state ≡ leased) (sym same) st;
          generation = subst (λ (x : StoredMessage). x.attempts ≡ lease_generation) (sym same) g;
        }
    held v e (inr (error, dn)) = absurd (ok_not_err (rw (load_leased, load_message, e, dn) at h))

    from :
        (o : Option Bytes) → get state (message_key q id) ≡ o → Held q id lease_generation state m
    from none e = absurd (ok_not_err (rw (load_leased, load_message, e) at h))
    from (some v) e = held v e (result_cases (decode_message v))
