-- ===== src/Engine/Durability/Recovered.antt =====
-- What recovery makes of the file of a store, whole or with a record cut off behind it.
use voodoo_store.Prelude.{
  ℕ, ◌<◌, ◌≡◌, refl, ap, subst, ◌∙◌, none, List, [], ◌++◌, length, take, arith, length-append,
}
use mathlib.Core.List.{append_assoc, append-nil}
use voodoo_store.Result.{ok}
use voodoo_store.Bytes.{Bytes}
use voodoo_store.Platform.{Platform}
use voodoo_store.Header
use voodoo_store.Header.RoundTrip.{length-encode}
use voodoo_store.Log.{LogRecord}
use voodoo_store.Log.RoundTrip.{FitsRecord, record_bytes}
use voodoo_store.Engine.Store.{Store}
use voodoo_store.Engine.Recovery.{recover, Recovery, finish, next_record}
use voodoo_store.Engine.Recovery.Scan.{log_bytes, recover_log}
use voodoo_store.Engine.Recovery.Torn.{next_record-torn}
use voodoo_store.Engine.Durability.Sealing.{HasLog}
use voodoo_store.Engine.Durability.History.{Session, run_sessions, run_sessions-HasLog}

module _ ⦃d : Platform⦄ where
  -- Recovery succeeds on `bytes` and finds the store `s` in them.
  pub record Recovers (bytes : Bytes) (s : Store) : Type 0 where
    pub recovery : Recovery
    pub succeeds : recover bytes ≡ ok recovery
    pub state : recovery.state ≡ s.state
    pub max_tx_id : recovery.max_tx_id < s.next_tx_id
    pub max_sequence : recovery.max_sequence < s.next_sequence
    pub valid_end : recovery.valid_end ≡ length s.device.bytes

  -- What recovery returns for the file of `s`.
  abbrev pub recovery_of : (s : Store) → HasLog s → Recovery
  recovery_of s h = finish (h.at, length (log_bytes h.logged.entries))

  pub recover_tail :
      (s : Store) (tail : Bytes) (h : HasLog s)
      → next_record tail ≡ ok none
      → recover (s.device.bytes ++ tail) ≡ ok (recovery_of s h)
  recover_tail s tail h t =
      let l = h.logged in
      ap recover (
        ap (λ bs. bs ++ tail) l.file
        ∙ append_assoc (Header.encode s.header) (log_bytes l.entries) tail)
      ∙ recover_log (Header.encode s.header) l.entries tail (length-encode s.header l.header_fits) t
          l.fits
      ∙ rw l.replayed

  pub valid_end-recovery_of :
      (s : Store) (h : HasLog s) → (recovery_of s h).valid_end ≡ length s.device.bytes
  valid_end-recovery_of s h =
      let l = h.logged in
      omega (
        arith,
        ap (λ bs. length bs) l.file,
        length-append (Header.encode s.header) (log_bytes l.entries),
        length-encode s.header l.header_fits,
      )

  Recovers-tail :
      (s : Store) (tail : Bytes)
      → HasLog s
      → next_record tail ≡ ok none
      → Recovers (s.device.bytes ++ tail) s
  Recovers-tail s tail h t = record {
    recovery = recovery_of s h;
    succeeds = recover_tail s tail h t;
    state = h.logged.state;
    max_tx_id = h.logged.tx_id;
    max_sequence = h.logged.sequence;
    valid_end = valid_end-recovery_of s h;
  }

  pub recover_whole : (s : Store) → HasLog s → Recovers s.device.bytes s
  unfolding next_record
  recover_whole s h =
      subst (λ bytes. Recovers bytes s) (append-nil s.device.bytes) (Recovers-tail s [] h refl)

  -- A crash while a record is being written, after any number of its bytes but not all of them, is
  -- harmless: recovery succeeds, finds the state as it was before the record, and ends where the whole
  -- records end.
  pub crash-Recovers :
      (s : Store) (entry : LogRecord) (n : ℕ)
      → HasLog s
      → FitsRecord entry
      → n < length (record_bytes entry)
      → Recovers (s.device.bytes ++ take n (record_bytes entry)) s
  crash-Recovers s entry n h fe lt =
      Recovers-tail s (take n (record_bytes entry)) h (next_record-torn entry n fe lt)

  -- After any history of transactions, committed or rolled back, with failing operations or without,
  -- recovery of the file succeeds and finds exactly the state that the store has in memory.
  pub history-Recovers :
      (sessions : List Session) (s : Store)
      → HasLog s
      → Recovers (run_sessions sessions s).device.bytes (run_sessions sessions s)
  history-Recovers sessions s h =
      recover_whole (run_sessions sessions s) (run_sessions-HasLog sessions s h)
