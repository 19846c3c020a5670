-- ===== src/Jobs/Retry.antt =====
-- What `InMemoryJobStore.retry`, src/pytitect/jobs.py, does with a valid claim.
use pytitect.Prelude.{
  ℕ, none, ◌+◌, String, true, false, ◌≡◌, some, ltb, leb, ◌==◌, ℕ_eq, String_eq, arith, ◌⊎◌, ok,
  err, value_error, utc, refl, ◌∙◌, ◌||◌,
}
use pytitect.Jobs.Types.{
  Job, checked, JobClaim, JobTransition, job_retried, job_terminated, terminal,
}
use pytitect.Jobs.Store.{JobStore, StoredJob, retry, retry_found, replace_job, reason_of, valid}

module _ {J : Type 0} where
  -- A job that the checks of `Job(...)` let through.
  abbrev pub IsChecked : Job J → Type 0
  IsChecked job = checked job ≡ ok job

  -- A job that nobody has claimed.
  abbrev pub unclaimed : Job J → ℕ → StoredJob J
  unclaimed job fencing_token = record {
    job = job;
    claim_id = none;
    claimed_until = none;
    fencing_token = fencing_token;
  }

  -- A job is terminal with its last attempt, or is due again.
  abbrev pub Outcome : String → ℕ → Job J → JobTransition → Type 0
  Outcome reason t next answer =
      (answer ≡ job_terminated reason)
        × (next.state ≡ terminal)
        × (next.attempt ≡ next.max_attempts)
      ⊎ (answer ≡ job_retried t) × (next.run_at ≡ t) × (ltb next.attempt next.max_attempts ≡ true)

module _ {J : Type 0} (job : Job J) where
  pub checked_fine :
      IsChecked job
      → (((job.job_id == "") || (job.task == "")) ≡ false)
        × (((job.max_attempts == 0) || ltb job.max_attempts job.attempt) ≡ false)
  unfolding checked
  checked_fine h = (ground (arith, h), ground (arith, h))

module _ {J D : Type 0} (sanitize : String → String) (claim : JobClaim J) (reason : String) (t : ℕ)
    (s : JobStore J D) (item : StoredJob J) (h : valid s claim ≡ some item)
    (fine : (sanitize reason == "") ≡ false) (good : IsChecked item.job) where
  retry_as_found :
      retry sanitize claim reason (utc t) s
      ≡ retry_found claim.job.job_id (some item) (sanitize reason) t s
  unfolding retry reason_of
  retry_as_found = rw (fine, h) refl

  -- A retry, at a UTC time and with a reason that is not empty when sanitized, of a claim that is
  -- valid on a job that the checks of Job pass and whose attempts are at the maximum raises
  -- ValueError and changes nothing.
  pub retry_full :
      item.job.attempt ≡ item.job.max_attempts
      → retry sanitize claim reason (utc t) s ≡ (err value_error, s)
  unfolding retry_found checked replace_job
  retry_full full =
      let names = (checked_fine item.job good).0 in
      let last : leb item.job.max_attempts (item.job.attempt + 1) ≡ true = ground (arith, full) in
      let over : ((item.job.max_attempts == 0) || ltb item.job.max_attempts (item.job.attempt + 1))
          ≡ true =
        ground (arith, full) in
      retry_as_found ∙ rw (last, names, over) refl
