-- ===== src/Jobs/Stats.antt =====
-- jobs.rs: `list_jobs` and `job_stats`.
use voodoo_store.Prelude.{ℕ, ◌&&◌, ◌||◌, List, [], ◌∷◌, if◌then◌else◌}
use voodoo_store.Prelude.Int.{ltb_ℤ, eqb_ℤ}
use voodoo_store.Result.{Result, ok, err, ok_or, ◌>>=◌}
use voodoo_store.Bytes.{bytes_lt}
use voodoo_store.Bytes.Words.{checked_add}
use voodoo_store.Engine.Payload.{State}
use voodoo_store.Engine.Store.{scan_prefix}
use voodoo_store.Jobs.Record.{
  ready, leased, completed, dead, cancelled, JobError, count_overflow, DurableJob,
}
use voodoo_store.Jobs.Fields.{job_prefix}
use voodoo_store.Jobs.Codec.{decode_job}

unfoldable pub decode_jobs : State → Result JobError (List DurableJob)
decode_jobs [] = ok []
decode_jobs ((key, value) ∷ entries) = do
  job ← decode_job value
  jobs ← decode_jobs entries
  ok (job ∷ jobs)

-- `sort_unstable_by`: the latest first, and by falling id; ids differ.
unfoldable pub insert_job : DurableJob → List DurableJob → List DurableJob
insert_job job [] = job ∷ []
insert_job job (next ∷ jobs) =
    if ltb_ℤ job.available_at_ms next.available_at_ms
      || (eqb_ℤ job.available_at_ms next.available_at_ms && bytes_lt job.id next.id)
    then next ∷ insert_job job jobs
    else job ∷ next ∷ jobs

unfoldable pub sort_jobs : List DurableJob → List DurableJob
unfolding insert_job
sort_jobs [] = []
sort_jobs (job ∷ jobs) = insert_job job (sort_jobs jobs)

unfoldable pub list_jobs : State → Result JobError (List DurableJob)
list_jobs state = do jobs ← decode_jobs (scan_prefix state job_prefix); ok (sort_jobs jobs)

pub record DurableJobStats : Type 0 where
  pub total : ℕ
  pub ready_count : ℕ
  pub leased_count : ℕ
  pub completed_count : ℕ
  pub dead_count : ℕ
  pub cancelled_count : ℕ

-- `DurableJobStats::default()`
abbrev pub no_jobs : DurableJobStats
no_jobs = record {
  total = 0;
  ready_count = 0;
  leased_count = 0;
  completed_count = 0;
  dead_count = 0;
  cancelled_count = 0;
}

abbrev pub increment : ℕ → Result JobError ℕ
increment n = ok_or (checked_add n 1) count_overflow

-- The `match` on the state.
unfoldable pub count_state : DurableJob → DurableJobStats → Result JobError DurableJobStats
count_state job stats = elim job.state [
  | ready ↦ increment stats.ready_count >>= λ n. ok (record stats { ready_count = n })
  | leased ↦ increment stats.leased_count >>= λ n. ok (record stats { leased_count = n })
  | completed ↦ increment stats.completed_count >>= λ n. ok (record stats { completed_count = n })
  | dead ↦ increment stats.dead_count >>= λ n. ok (record stats { dead_count = n })
  | cancelled ↦ increment stats.cancelled_count >>= λ n. ok (record stats { cancelled_count = n })
]

unfoldable pub count_job : DurableJob → DurableJobStats → Result JobError DurableJobStats
unfolding count_state
count_job job stats = do
  total ← increment stats.total
  count_state job (record stats { total = total })

unfoldable pub count_jobs : State → DurableJobStats → Result JobError DurableJobStats
unfolding count_job
count_jobs [] stats = ok stats
count_jobs ((key, value) ∷ entries) stats = elim (decode_job value >>= λ job. count_job job stats) [
  | err error ↦ err error
  | ok counted ↦ count_jobs entries counted
]

unfoldable pub job_stats : State → Result JobError DurableJobStats
unfolding count_jobs
job_stats state = count_jobs (scan_prefix state job_prefix) no_jobs
