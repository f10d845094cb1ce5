-- ===== src/Engine/Durability/Sealing.antt =====
-- The commit record, the sync and the new state: `seal` of `Engine.Commit`, and the change feed.
use voodoo_store.Prelude.{◌≡◌, refl, ap, subst, List, [], ◌∷◌, arith}
use voodoo_store.Result.{Result, ok, err, ok_and_err}
use voodoo_store.Exec.{continue_ind}
use voodoo_store.Platform.{Platform}
use voodoo_store.Log
use voodoo_store.Engine.Payload.{IoError, EngineError, apply_operations}
use voodoo_store.Engine.Device.{
  map_io_error, Device, Durability, strict, data_only, relaxed, Outcome, done, failed, sync_file,
  sync_with, sync_all, next_outcome, later_outcomes, IsSound, SyncsSucceed,
}
use voodoo_store.Engine.Store.{Store, append}
use voodoo_store.Engine.Transaction.{Transaction}
use voodoo_store.Engine.Commit.{seal, sync_store, elapsed_us, publish}
use voodoo_store.Engine.Recovery.{Replayed}
use voodoo_store.Engine.Durability.Append.{
  IsQuiet, HasWritten, AppendPost, append-AppendPost, entry_of,
}
use voodoo_store.Engine.Durability.Logged.{
  IsLogged, IsLogged-quiet, IsLogged-committed, after_commit,
}
use voodoo_store.Engine.Durability.Staging.{IsOpen}

sync_with_lem :
    (from : IoError → EngineError) (outcomes : List Outcome)
    → SyncsSucceed outcomes
    → (sync_with from (next_outcome outcomes) ≡ ok tt) × SyncsSucceed (later_outcomes outcomes)
sync_with_lem from [] h = (refl, tt)
sync_with_lem from (done ∷ outcomes) h = (refl, h)
sync_with_lem from (failed error written ∷ outcomes) h = absurd h

pub sync_all_lem :
    (from : IoError → EngineError) (device : Device)
    → IsSound device
    → ((sync_all from device).0 ≡ ok tt)
      × ((sync_all from device).1.bytes ≡ device.bytes)
      × IsSound (sync_all from device).1
unfolding sync_all
sync_all_lem from device h =
    let (e, s) = sync_with_lem from device.syncs h.syncs in
    (e, refl, record { writes = h.writes; syncs = s })

pub sync_file_lem :
    (durability : Durability) (device : Device)
    → IsSound device
    → ((sync_file durability device).0 ≡ ok tt)
      × ((sync_file durability device).1.bytes ≡ device.bytes)
      × IsSound (sync_file durability device).1
unfolding sync_file
sync_file_lem relaxed device h = (refl, refl, h)
sync_file_lem strict device h = sync_all_lem map_io_error device h
sync_file_lem data_only device h = sync_all_lem map_io_error device h

module _ ⦃d : Platform⦄ where
  pub record HasLog (s : Store) : Type 0 where
    pub at : Replayed
    pub logged : IsLogged s at

  abbrev pub SealPost : Transaction → Result EngineError (Unit {0}) → Store → Type 0
  SealPost t (ok _) s' = HasLog s' × (s'.state ≡ apply_operations t.store.state t.operations)
  SealPost t (err _) s' = IsQuiet t.store s'

module _ ⦃d : Platform⦄ (t : Transaction) (o : IsOpen t) where
  -- Once the commit record is written, the rest of `seal` succeeds.
  sealed :
      (s' : Store)
      → HasWritten (entry_of Log.commit t.tx_id [] t.store) t.store s'
      → (s'' : Store) → s''.device.bytes ≡ s'.device.bytes
      → IsSound s''.device
      → s''.header ≡ s'.header
      → s''.options ≡ s'.options
      → s''.next_tx_id ≡ s'.next_tx_id
      → s''.next_sequence ≡ s'.next_sequence
      → s''.state ≡ apply_operations t.store.state t.operations
      → HasLog s''
  sealed s' w s'' bytes sound header_ options next_tx_id next_sequence state = record {
    at = after_commit o.at t.tx_id t.store.next_sequence;
    logged =
        IsLogged-quiet (record s' { state = apply_operations t.store.state t.operations }) s''
          (after_commit o.at t.tx_id t.store.next_sequence)
          (IsLogged-committed t s' o.at o.logged o.staged w)
          (record {
            same = record {
              header = header_;
              options = options;
              state = state;
              next_tx_id = next_tx_id;
              sound = sound;
            };
            bytes = bytes;
            sequence = omega arith;
            sequence_fits = omega (arith, w.sequence_fits);
          });
  }

  appended_commit :
      (r : Result EngineError (Unit {0}))
      → (append Log.commit t.tx_id [] t.store).0 ≡ r
      → AppendPost
          (entry_of Log.commit t.tx_id [] t.store)
          t.store
          r
          (append Log.commit t.tx_id [] t.store).1
  appended_commit r e =
      subst
        (λ x.
          AppendPost (entry_of Log.commit t.tx_id [] t.store) t.store x
            (append Log.commit t.tx_id [] t.store).1)
        e (append-AppendPost Log.commit t.tx_id [] t.store o.logged.sound o.logged.sequence_fits)

  pub seal-SealPost :
      SealPost t (seal t.tx_id t.operations t.store).0 (seal t.tx_id t.operations t.store).1
  unfolding seal sync_store elapsed_us publish
  seal-SealPost =
      continue_ind (SealPost t) (append Log.commit t.tx_id [] t.store).0 _ _
        (λ _ e.
          let s' = (append Log.commit t.tx_id [] t.store).1 in
          let w = appended_commit (ok _) e in
          let (success, bytes, sound) =
            sync_file_lem s'.options.durability s'.device w.same.sound in
          continue_ind (SealPost t) (sync_store s').0 _ _
            (λ _ _.
              let state = ap (λ x. apply_operations x t.operations) w.same.state in
              (
                sealed s' w _ bytes (record { writes = sound.writes; syncs = sound.syncs }) refl
                    refl refl refl state,
                state,
              ))
            (λ error e'. absurd (ok_and_err (sync_store s').0 success e')))
        (λ error e. appended_commit (err error) e)
