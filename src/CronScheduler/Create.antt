-- ===== src/CronScheduler/Create.antt =====
-- cron_scheduler.rs: what creating a schedule does, and what a read finds then.
use voodoo_store.Prelude.{◌^◌, ◌<◌, ◌≡◌, ◌≢◌, refl, subst, ◌∙◌, none, some, true, length, arith}
use voodoo_store.Prelude.Int.{ℤ}
use voodoo_store.Result
use voodoo_store.Result.{Result, ok, err, map_err}
use voodoo_store.Exec.{continue, continue_ind}
use voodoo_store.Bytes.{Bytes, starts_with}
use voodoo_store.Bytes.Words.{Fits, i64_half}
use voodoo_store.Platform.{Platform}
use voodoo_store.Map.{get, key_eq, get-insert_self, get-insert_ne}
use voodoo_store.Engine.Payload.{EngineError, put, apply_operation}
use voodoo_store.Engine.Store.{Store}
use voodoo_store.Engine.Durability.Sealing.{HasLog}
use voodoo_store.Engine.Durability.Keys.{IsOutside, KeyPost, put_internal_key-KeyPost}
use voodoo_store.Jobs.Record.{JobSpec}
use voodoo_store.Cron
use voodoo_store.Cron.{CronExpression, next_after_utc_ms}
use voodoo_store.Cron.Fields.{CronError}
use voodoo_store.Cron.Next.{next_after_utc_ms-Fits}
use voodoo_store.Cron.Chars.{Text}
use voodoo_store.Cron.Utf8.{as_bytes}
use voodoo_store.Cron.Utf8.RoundTrip.{AllScalar, from_utf8-as_bytes}
use voodoo_store.CronScheduler.{decoded, save_schedule, create_cron_schedule, get_cron_schedule}
use voodoo_store.CronScheduler.Record.{
  DurableCronSchedule, CronSchedulerError, cron_key, encode_schedule, validate_job, store, cron,
}
use voodoo_store.CronScheduler.Decode.{decode_schedule}
use voodoo_store.CronScheduler.Fields.{FitsSpec}
use voodoo_store.CronScheduler.RoundTrip.{FitsSchedule, decode_schedule-encode_schedule}

cron_key-IsOutside : (id : Bytes) → IsOutside (cron_key id)
unfolding cron_key starts_with
cron_key-IsOutside id = refl

-- A schedule is stored, and no other key outside the feed has changed.
pub record Saved (schedule : DurableCronSchedule) (s s' : Store) : Type 0 where
  pub value : Bytes
  pub encoded : encode_schedule schedule ≡ ok value
  pub stored : get s'.state (cron_key schedule.id) ≡ some value
  pub others : (j : Bytes) → IsOutside j → cron_key schedule.id ≢ j → get s'.state j ≡ get s.state j

module _ ⦃d : Platform⦄ where
  abbrev pub SavePost :
      {A : Type 0} → DurableCronSchedule → Store → Result CronSchedulerError A → Store → Type 0
  SavePost schedule s (ok _) s' = HasLog s' × Saved schedule s s'
  SavePost schedule s (err _) s' = HasLog s' × (s'.state ≡ s.state)

  pub save_schedule-SavePost :
      (schedule : DurableCronSchedule) (s : Store)
      → HasLog s
      → SavePost schedule s
          (save_schedule schedule.id schedule s).0
          (save_schedule schedule.id schedule s).1
  unfolding apply_operation
  save_schedule-SavePost schedule s h =
      continue_ind (λ r s'. SavePost schedule s r s') (encode_schedule schedule) _ s
        (λ value e. from value e _ _ (put_internal_key-KeyPost (cron_key schedule.id) value s h))
        (λ error e. (h, refl))
    where
      from :
          (value : Bytes)
          → encode_schedule schedule ≡ ok value
          → (r : Result EngineError (Unit {0})) (s' : Store)
          → KeyPost (put (cron_key schedule.id) value) s r s'
          → SavePost schedule s (map_err store r) s'
      from value e (err _) s' p = p
      from value e (ok _) s' (h', reads) = (
        h',
        record {
          value = value;
          encoded = e;
          stored =
              reads (cron_key schedule.id) (cron_key-IsOutside schedule.id)
              ∙ get-insert_self s.state (cron_key schedule.id) value;
          others = λ j outside other.
              reads j outside ∙ get-insert_ne s.state (cron_key schedule.id) j value other;
        },
      )

-- What a read finds of a stored schedule.
pub get_cron_schedule-Saved :
    (schedule : DurableCronSchedule) (s s' : Store)
    → FitsSchedule schedule
    → Saved schedule s s'
    → get_cron_schedule schedule.id s'.state ≡ ok (some schedule)
unfolding get_cron_schedule
get_cron_schedule-Saved schedule s s' f saved =
    let decodes : decode_schedule saved.value ≡ ok schedule =
      subst (λ r. Result.◌>>=◌ r decode_schedule ≡ ok schedule) saved.encoded
        (decode_schedule-encode_schedule schedule f) in
    rw (saved.stored, decodes, decoded) refl

-- The schedule that is created.
abbrev pub new_schedule : Bytes → Text → JobSpec → ℤ → DurableCronSchedule
new_schedule id expression spec next_run_ms = record {
  id = id;
  expression = as_bytes expression;
  job = spec;
  next_run_ms = next_run_ms;
  enabled = true;
  fire_count = 0;
  last_fired_at_ms = none;
}

module _ ⦃d : Platform⦄ (expression : Text) (spec : JobSpec) (after_ms : ℤ) where
  abbrev pub CreatePost : Store → Result CronSchedulerError Bytes → Store → Type 0
  CreatePost s (ok id) s' =
      HasLog s'
      × (parsed : CronExpression) × (next_run_ms : ℤ) × (Cron.parse expression ≡ ok parsed)
      × (next_after_utc_ms parsed after_ms ≡ ok next_run_ms)
      × (get_cron_schedule id s'.state ≡ ok (some (new_schedule id expression spec next_run_ms)))
      × ((j : Bytes) → IsOutside j → cron_key id ≢ j → get s'.state j ≡ get s.state j)
  CreatePost s (err _) s' = HasLog s' × (s'.state ≡ s.state)

  -- The end of `create_cron_schedule`, with the schedule that fits.
  created :
      (id : Bytes) (parsed : CronExpression) (next_run_ms : ℤ) (s : Store)
      → HasLog s
      → FitsSchedule (new_schedule id expression spec next_run_ms)
      → Cron.parse expression ≡ ok parsed
      → next_after_utc_ms parsed after_ms ≡ ok next_run_ms
      → let m = save_schedule id (new_schedule id expression spec next_run_ms) s in
        let r = continue m.0 (λ _ t. (ok id, t)) m.1 in CreatePost s r.0 r.1
  created id parsed next_run_ms s h f p n =
      from _ _ (save_schedule-SavePost (new_schedule id expression spec next_run_ms) s h)
    where
      from :
          (r : Result CronSchedulerError (Unit {0})) (s' : Store)
          → SavePost (new_schedule id expression spec next_run_ms) s r s'
          → CreatePost s (continue r (λ _ t. (ok id, t)) s').0 (continue r (λ _ t. (ok id, t)) s').1
      from (err _) s' q = q
      from (ok _) s' (h', saved) = (
        h',
        parsed,
        next_run_ms,
        p,
        n,
        get_cron_schedule-Saved (new_schedule id expression spec next_run_ms) s s' f saved,
        saved.others,
      )

  -- Creating a schedule on a store whose file holds its state, with an id of 16 bytes, a text that u32
  -- can count and fields and a time that fit their machine types: after success the expression parses,
  -- a read finds the schedule, enabled, never fired and with the next time of the expression after the
  -- given one, and no other key outside the change feed has changed; after an error no key has.
  pub create_cron_schedule-CreatePost :
      (random_id : Result CronSchedulerError Bytes) (s : Store)
      → HasLog s
      → ((id : Bytes) → random_id ≡ ok id → length id ≡ 16)
      → AllScalar expression
      → length (as_bytes expression) < 2 ^ 32
      → FitsSpec spec
      → Fits i64_half after_ms
      → CreatePost s
          (create_cron_schedule random_id expression spec after_ms s).0
          (create_cron_schedule random_id expression spec after_ms s).1
  unfolding create_cron_schedule
  create_cron_schedule-CreatePost random_id s h sixteen scalar short fit time =
      continue_ind (CreatePost s) (validate_job spec) _ s
        (λ _ valid.
          continue_ind (CreatePost s) (map_err cron (Cron.parse expression)) _ s
            (λ parsed e.
              continue_ind (CreatePost s) random_id _ s
                (λ id i.
                  continue_ind (CreatePost s) (map_err cron (next_after_utc_ms parsed after_ms)) _ s
                    (λ next n.
                      let n' : next_after_utc_ms parsed after_ms ≡ ok next = map_err-ok _ n in
                      let e' : Cron.parse expression ≡ ok parsed = map_err-ok _ e in
                      created id parsed next s h
                        (record {
                          id = sixteen id i;
                          expression = short;
                          text = expression;
                          is_text = from_utf8-as_bytes expression scalar;
                          parsed = parsed;
                          is_parsed = e';
                          job = fit;
                          is_valid = valid;
                          next_run_ms = next_after_utc_ms-Fits parsed after_ms time n';
                          fire_count = omega arith;
                          last_fired_at_ms = tt;
                        })
                        e' n')
                    (λ _ _. (h, refl)))
                (λ _ _. (h, refl)))
            (λ _ _. (h, refl)))
        (λ _ _. (h, refl))
    where
      map_err-ok : {A : Type 0} (r : Result CronError A) {a : A} → map_err cron r ≡ ok a → r ≡ ok a
      map_err-ok (ok a) e = cc
      map_err-ok (err x) e = cc
