-- ===== src/Jobs/Claim.antt =====
-- jobs.rs: which job `claim_job_for_handlers` takes, and which ones are too late.
use voodoo_store.Prelude.{
  Bool, true, false, not, ◌&&◌, ◌||◌, Option, none, some, List, [], ◌∷◌, ◌++◌, if◌then◌else◌,
}
use voodoo_store.Prelude.Int.{ℤ, ltb_ℤ, leb_ℤ, eqb_ℤ}
use voodoo_store.Result.{Result, ok, err}
use voodoo_store.Bytes.{Bytes}
use voodoo_store.Map.{contains, key_eq}
use voodoo_store.Engine.Payload.{State}
use voodoo_store.Jobs.Record.{
  ready, leased, completed, dead, cancelled, DurableJobState, JobError, DurableJob,
}
use voodoo_store.Jobs.Codec.{decode_job}

-- What the loop over the jobs has found so far.
pub record Selection : Type 0 where
  pub candidate : Option DurableJob
  pub expired : List DurableJob

abbrev pub nothing_found : Selection
nothing_found = record { candidate = none; expired = [] }

-- `!handlers.is_empty() && !handlers.iter().any(|handler| handler == &job.handler)`
unfoldable pub is_filtered : List Bytes → Bytes → Bool
is_filtered [] handler = false
is_filtered (h ∷ hs) handler = not (contains (h ∷ hs) handler)

unfoldable pub is_reclaimable : ℤ → DurableJob → Bool
is_reclaimable now_ms job = elim job.state [
  | ready ↦ true
  | leased ↦ leb_ℤ job.lease_until_ms now_ms
  | completed ↦ false
  | dead ↦ false
  | cancelled ↦ false
]

unfoldable pub is_late : ℤ → Option ℤ → Bool
is_late now_ms none = false
is_late now_ms (some deadline) = leb_ℤ deadline now_ms

abbrev pub is_ready : DurableJobState → Bool
is_ready ready = true
is_ready leased = false
is_ready completed = false
is_ready dead = false
is_ready cancelled = false

-- A job takes the place of the current candidate.
unfoldable pub precedes : DurableJob → DurableJob → Bool
precedes job current =
    ltb_ℤ current.priority job.priority
    || (eqb_ℤ job.priority current.priority && ltb_ℤ job.available_at_ms current.available_at_ms)

unfoldable pub replaces : DurableJob → Option DurableJob → Bool
replaces job none = true
replaces job (some current) = precedes job current

-- The body of the loop, for a decoded job.
unfoldable pub consider : ℤ → List Bytes → DurableJob → Selection → Selection
consider now_ms handlers job found =
    if is_filtered handlers job.handler
    then found
    else if not (is_reclaimable now_ms job)
    then found
    else if is_late now_ms job.deadline_ms
    then record found { expired = found.expired ++ job ∷ [] }
    else if is_ready job.state && ltb_ℤ now_ms job.available_at_ms
    then found
    else if replaces job found.candidate
    then record found { candidate = some job }
    else found

unfoldable pub select : ℤ → List Bytes → State → Selection → Result JobError Selection
select now_ms handlers [] found = ok found
select now_ms handlers ((key, value) ∷ entries) found = elim (decode_job value) [
  | err error ↦ err error
  | ok job ↦ select now_ms handlers entries (consider now_ms handlers job found)
]
