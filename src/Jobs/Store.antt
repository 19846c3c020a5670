-- ===== src/Jobs/Store.antt =====
-- `InMemoryJobStore` of src/pytitect/jobs.py: jobs and claims. Each method holds the lock from end to
-- end. A job is kept under its ID, which no method changes. `uuid n` is the n-th ID that `uuid4` gives
-- within a claim, `sanitize` is what `_reason` makes of a text, and `D` a handler's decision.
use pytitect.Prelude.{
  ℕ, suc, ◌+◌, String, Bool, false, ◌&&◌, ◌||◌, not, Option, none, some, List, [], ◌∷◌, ◌++◌, ltb,
  leb, if◌then◌else◌, length, ◌==◌, ℕ_eq, String_eq, option_eq, Action, Result, ok, err,
  value_error, overflow_error, ◌>>=◌, ◌>>◌, lift, raise_if, Datetime, instant, Timedelta,
  not_positive, ◌+ₜ◌,
}
use pytitect.Prelude.Dict.{Dict, get, put, contains}
use pytitect.Prelude.Sorting.{sorted, str_leb, key_then}
use pytitect.Jobs.Types.{
  succeeded, terminal, is_scheduled, Job, checked, JobClaim, JobScheduleResult, job_scheduled,
  job_duplicate, JobTransition, job_succeeded, job_retried, job_terminated, stale_job_claim,
  JobSchedule,
}

-- `_StoredJob`
pub record StoredJob (J : Type 0) : Type 0 where
  pub job : Job J
  pub claim_id : Option String
  pub claimed_until : Option ℕ
  pub fencing_token : ℕ

pub record JobStore (J D : Type 0) : Type 0 where
  pub capacity : ℕ
  pub jobs : Dict String (StoredJob J)
  pub schedules : Dict String (JobSchedule J)
  pub decisions : List (String × D)

-- `InMemoryJobStore(capacity=...)`
unfoldable pub new : {J D : Type 0} → ℕ → Result (JobStore J D)
new capacity =
    if capacity == 0
    then err value_error
    else ok (record { capacity = capacity; jobs = []; schedules = []; decisions = [] })

-- `item.claimed_until is not None and item.claimed_until > now`
abbrev pub is_held : Option ℕ → ℕ → Bool
is_held none now = false
is_held (some until) now = ltb now until

-- `_reason`
unfoldable pub reason_of : (String → String) → String → Result String
reason_of sanitize reason = if sanitize reason == "" then err value_error else ok (sanitize reason)

module _ {J : Type 0} where
  -- `_StoredJob(job)`
  abbrev pub stored : Job J → StoredJob J
  stored job = record { job = job; claim_id = none; claimed_until = none; fencing_token = 0 }

  abbrev pub run_time : String × StoredJob J → ℕ
  run_time item = item.1.job.run_at

  abbrev pub id_leb : String × StoredJob J → String × StoredJob J → Bool
  id_leb a b = str_leb a.0 b.0

  -- No `continue` of the loop of `claim` is taken.
  abbrev pub is_eligible : ℕ → StoredJob J → Bool
  is_eligible now item =
      is_scheduled item.job.state
      && not (ltb now item.job.run_at)
      && not (is_held item.claimed_until now)

  abbrev pub held : String → ℕ → StoredJob J → StoredJob J
  held claim_id until item = record item {
    claim_id = some claim_id;
    claimed_until = some until;
    fencing_token = item.fencing_token + 1;
  }

  abbrev pub claim_of : String → ℕ → StoredJob J → JobClaim J
  claim_of claim_id until item = record {
    job = item.job;
    claim_id = claim_id;
    claimed_until = until;
    fencing_token = item.fencing_token + 1;
  }

  module _ (now limit until : ℕ) (uuid : ℕ → String) where
    -- The loop of `claim`, after `n` claims.
    unfoldable pub claim_items :
        ℕ
        → List (String × StoredJob J)
        → Dict String (StoredJob J)
        → List (JobClaim J) × Dict String (StoredJob J)
    claim_items n [] jobs = ([], jobs)
    claim_items n ((i, item) ∷ rest) jobs =
        let skipped = claim_items n rest jobs in
        let taken = claim_items (suc n) rest (put i (held (uuid n) until item) jobs) in
        if leb limit n
        then ([], jobs)
        else if is_eligible now item
        then (claim_of (uuid n) until item ∷ taken.0, taken.1)
        else skipped

  -- `_valid`
  abbrev pub valid_item : JobClaim J → Option (StoredJob J) → Option (StoredJob J)
  valid_item claimed none = none
  valid_item claimed (some item) =
      if not (item.claim_id == some claimed.claim_id)
        || not (item.fencing_token == claimed.fencing_token)
        || not (is_scheduled item.job.state)
      then none
      else some item

  -- `item.job = job; self._release(item)`
  abbrev pub released : StoredJob J → Job J → StoredJob J
  released item job = record item { job = job; claim_id = none; claimed_until = none }

module _ {J D : Type 0} where
  -- `_ensure_capacity(1)` raises
  abbrev pub is_full : JobStore J D → Bool
  is_full s = ltb s.capacity (length s.jobs + length s.schedules + length s.decisions + 1)

  unfoldable pub schedule : Job J → Action (JobStore J D) JobScheduleResult
  schedule job s =
      if contains job.job_id s.jobs
      then (ok job_duplicate, s)
      else if is_full s
      then (err overflow_error, s)
      else (ok job_scheduled, record s { jobs = put job.job_id (stored job) s.jobs })

  unfoldable pub claim_locked : (ℕ → String) → ℕ → ℕ → ℕ → Action (JobStore J D) (List (JobClaim J))
  unfolding claim_items sorted
  claim_locked uuid now limit until s =
      let r =
        claim_items now limit until uuid 0 (sorted (key_then run_time id_leb) s.jobs) s.jobs in
      (ok r.0, record s { jobs = r.1 })

  unfoldable pub claim :
      (ℕ → String) → Datetime → ℕ → Timedelta → Action (JobStore J D) (List (JobClaim J))
  unfolding claim_locked
  claim uuid now limit claim_ttl = do
    t ← lift (instant now)
    raise_if (limit == 0) value_error
    raise_if (not_positive claim_ttl) value_error
    claim_locked uuid t limit (t +ₜ claim_ttl)

  unfoldable pub valid : JobStore J D → JobClaim J → Option (StoredJob J)
  valid s claim = valid_item claim (get claim.job.job_id s.jobs)

  abbrev pub replaced : String → JobStore J D → StoredJob J → Job J → JobStore J D
  replaced i s item job = record s { jobs = put i (released item job) s.jobs }

  -- The job that `replace` makes is stored with what is answered, or its checks raise.
  unfoldable pub replace_job :
      String → Result (Job J) → StoredJob J → JobTransition → Action (JobStore J D) JobTransition
  replace_job i (err e) item answer s = (err e, s)
  replace_job i (ok job) item answer s = (ok answer, replaced i s item job)

  unfoldable pub succeed_found :
      String → Option (StoredJob J) → D → Action (JobStore J D) JobTransition
  unfolding replace_job checked
  succeed_found i none decision s = (ok stale_job_claim, s)
  succeed_found i (some item) decision s =
      let (r, s') =
        replace_job i (checked (record item.job { state = succeeded })) item job_succeeded s in
      if leb s.capacity (length s.decisions) then (err overflow_error, s) else elim r [
        | err e ↦ (err e, s')
        | ok answer ↦
            (ok answer, record s' { decisions = s.decisions ++ (item.job.job_id, decision) ∷ [] })
      ]

  unfoldable pub succeed : JobClaim J → D → Datetime → Action (JobStore J D) JobTransition
  unfolding succeed_found valid
  succeed claim decision at = do
    t ← lift (instant at)
    λ s. succeed_found claim.job.job_id (valid s claim) decision s

  unfoldable pub retry_found :
      String → Option (StoredJob J) → String → ℕ → Action (JobStore J D) JobTransition
  unfolding replace_job checked
  retry_found i none reason run_at s = (ok stale_job_claim, s)
  retry_found i (some item) reason run_at s =
      let attempt = item.job.attempt + 1 in
      if leb item.job.max_attempts attempt
      then replace_job i
          (checked
            (record item.job { attempt = attempt; state = terminal; last_failure = some reason }))
          item (job_terminated reason) s
      else replace_job i
          (checked
            (record item.job { attempt = attempt; run_at = run_at; last_failure = some reason }))
          item (job_retried run_at) s

  unfoldable pub terminate_found :
      String → Option (StoredJob J) → String → Action (JobStore J D) JobTransition
  unfolding replace_job checked
  terminate_found i none reason s = (ok stale_job_claim, s)
  terminate_found i (some item) reason s =
      replace_job i (checked (record item.job { state = terminal; last_failure = some reason }))
        item (job_terminated reason) s

  module _ (sanitize : String → String) where
    unfoldable pub retry : JobClaim J → String → Datetime → Action (JobStore J D) JobTransition
    unfolding reason_of retry_found valid
    retry claim reason run_at = do
      t ← lift (instant run_at)
      sanitized ← lift (reason_of sanitize reason)
      λ s. retry_found claim.job.job_id (valid s claim) sanitized t s

    unfoldable pub terminate : JobClaim J → String → Datetime → Action (JobStore J D) JobTransition
    unfolding reason_of terminate_found valid
    terminate claim reason at = do
      t ← lift (instant at)
      sanitized ← lift (reason_of sanitize reason)
      λ s. terminate_found claim.job.job_id (valid s claim) sanitized s
