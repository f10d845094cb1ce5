-- ===== src/Jobs/Calls/Good.antt =====
-- jobs.rs: the jobs that the calls read from the store are good.
use mathlib.Core.List.{Memᴰ}
use voodoo_store.Prelude.{
  ◌≡◌, ◌≢◌, refl, subst, ◌∙◌, inl, inr, true, Option, none, some, List, [], ◌∷◌, ◌++◌, arith,
  Bool-cases,
}
use voodoo_store.Prelude.Int.{ℤ}
use voodoo_store.Result.{Result, ok, err, >>=-eq-ok, result_cases}
use voodoo_store.Bytes.{Bytes}
use voodoo_store.Platform.{Platform}
use voodoo_store.Map.{get, key_eq}
use voodoo_store.Map.Unique.{Memᴰ-get}
use voodoo_store.Engine.Payload.{State}
use voodoo_store.Engine.Store.{Store, scan_prefix}
use voodoo_store.Queue.Keys.{Memᴰ-scan_prefix}
use voodoo_store.Queue.Invariant.{HasLog-IsUnique}
use voodoo_store.Jobs.Record.{leased, JobError, DurableJob}
use voodoo_store.Jobs.Fields.{job_prefix, job_key}
use voodoo_store.Jobs.Codec.{decode_job}
use voodoo_store.Jobs.Persist.{get_job, decoded}
use voodoo_store.Jobs.Claim.{Selection, consider, select}
use voodoo_store.Jobs.Transitions.{collect_lost, is_lost}
use voodoo_store.Jobs.Invariant.{IsGood, IsJobs, IsOwn, IsSound, job_key-prefixed}

abbrev pub AllGood : List DurableJob → Type 0
AllGood [] = Unit
AllGood (job ∷ jobs) = IsGood job × AllGood jobs

abbrev pub OptionGood : Option DurableJob → Type 0
OptionGood none = Unit
OptionGood (some job) = IsGood job

-- Every job among these entries is good.
abbrev pub EntriesGood : State → Type 0
EntriesGood entries =
    (key value : Bytes) (job : DurableJob)
    → Memᴰ {A = Bytes × Bytes} (key, value) entries
    → decode_job value ≡ ok job
    → IsGood job

AllGood-append :
    (jobs : List DurableJob) (job : DurableJob)
    → AllGood jobs
    → IsGood job
    → AllGood (jobs ++ job ∷ [])
AllGood-append [] job h g = (g, tt)
AllGood-append (j ∷ jobs) job (first, h) g = (first, AllGood-append jobs job h g)

abbrev pub SelectionGood : Selection → Type 0
SelectionGood found = OptionGood found.candidate × AllGood found.expired

consider-SelectionGood :
    (now_ms : ℤ) (handlers : List Bytes) (job : DurableJob) (found : Selection)
    → IsGood job
    → SelectionGood found
    → SelectionGood (consider now_ms handlers job found)
unfolding consider
consider-SelectionGood now_ms handlers job found g (c, e) =
    ground (arith, AllGood-append found.expired job e g)

pub select-SelectionGood :
    (now_ms : ℤ) (handlers : List Bytes) (entries : State) (found chosen : Selection)
    → EntriesGood entries
    → SelectionGood found
    → select now_ms handlers entries found ≡ ok chosen
    → SelectionGood chosen
unfolding select
select-SelectionGood now_ms handlers [] found chosen all good h =
    subst SelectionGood (ok_inj h) good
  where
    ok_inj : {x y : Selection} → ◌≡◌ {A = Result JobError Selection} (ok x) (ok y) → x ≡ y
    ok_inj e = cc
select-SelectionGood now_ms handlers ((key, value) ∷ entries) found chosen all good h =
    elim (result_cases (decode_job value)) [
      | inl (job, e) ↦
          select-SelectionGood now_ms handlers entries (consider now_ms handlers job found) chosen
            (λ k v j i d. all k v j (Memᴰ.tail i) d)
            (consider-SelectionGood now_ms handlers job found (all key value job (Memᴰ.head refl) e)
              good)
            (rw (e, select) at h)
      | inr (error, e) ↦ absurd (not_ok (rw (e, select) at h))
    ]
  where
    not_ok : {x : JobError} {y : Selection} → ◌≢◌ {A = Result JobError Selection} (err x) (ok y)
    not_ok e = cc

-- The jobs whose lease has run out are good, and leased.
abbrev pub AllLeased : List DurableJob → Type 0
AllLeased [] = Unit
AllLeased (job ∷ jobs) = IsGood job × (job.state ≡ leased) × AllLeased jobs

is_lost-leased : (now_ms : ℤ) (job : DurableJob) → is_lost now_ms job ≡ true → job.state ≡ leased
unfolding is_lost
is_lost-leased now_ms job h = ground arith

pub collect_lost-AllLeased :
    (now_ms : ℤ) (entries : State) (lost : List DurableJob)
    → EntriesGood entries
    → collect_lost now_ms entries ≡ ok lost
    → AllLeased lost
unfolding collect_lost
collect_lost-AllLeased now_ms [] lost all h = subst AllLeased (ok_inj h) tt
  where
    ok_inj :
        {x y : List DurableJob} → ◌≡◌ {A = Result JobError (List DurableJob)} (ok x) (ok y) → x ≡ y
    ok_inj e = cc
collect_lost-AllLeased now_ms ((key, value) ∷ entries) lost all h =
    let (job, e, rest) = >>=-eq-ok (decode_job value) _ h in
    let (later, e', last) = >>=-eq-ok (collect_lost now_ms entries) _ rest in
    let good = all key value job (Memᴰ.head refl) e in
    let ih =
      collect_lost-AllLeased now_ms entries later (λ k v j i d. all k v j (Memᴰ.tail i) d) e' in
    subst AllLeased (ok_inj last) (elim (Bool-cases (is_lost now_ms job)) [
      | inl out ↦ rw out (good, is_lost-leased now_ms job out, ih)
      | inr kept ↦ rw kept ih
    ])
  where
    ok_inj :
        {x y : List DurableJob} → ◌≡◌ {A = Result JobError (List DurableJob)} (ok x) (ok y) → x ≡ y
    ok_inj e = cc

module _ ⦃d : Platform⦄ where
  -- The jobs that a scan lists are good.
  pub scanned-good : (s : Store) → IsSound s → EntriesGood (scan_prefix s.state job_prefix)
  scanned-good s (h, i) key value job entry e =
      let (present, prefixed) = Memᴰ-scan_prefix key value s.state job_prefix entry in
      (i.at key value job prefixed (Memᴰ-get s.state key value (HasLog-IsUnique s h) present) e).1

decoded-some :
    (o : Option Bytes) (job : DurableJob)
    → decoded o ≡ ok (some job)
    → (value : Bytes) × (o ≡ some value) × (decode_job value ≡ ok job)
decoded-some none job h = cc
decoded-some (some value) job h = elim (result_cases (decode_job value)) [
  | inl (j, e) ↦ (value, refl, e ∙ (inner (rw (e, decoded) at h)))
  | inr (error, e) ↦ absurd (not_ok (rw (e, decoded) at h))
]
  where
    inner :
        {x y : DurableJob}
        → ◌≡◌ {A = Result JobError (Option DurableJob)} (ok (some x)) (ok (some y))
        → ◌≡◌ {A = Result JobError DurableJob} (ok x) (ok y)
    inner q = cc

    not_ok :
        {x : JobError} {y : Option DurableJob}
        → ◌≢◌ {A = Result JobError (Option DurableJob)} (err x) (ok y)
    not_ok q = cc

-- So is a job that is looked up; it stands under the key of its id.
pub get_job-IsOwn :
    (id : Bytes) (state : State) (job : DurableJob)
    → IsJobs state
    → get_job id state ≡ ok (some job)
    → IsOwn (job_key id) job
unfolding get_job
get_job-IsOwn id state job i h =
    let (value, found, e) = decoded-some (get state (job_key id)) job h in
    i.at (job_key id) value job (job_key-prefixed id) found e
