-- ===== src/Jobs/Decisions.antt =====
-- The decisions that a run of `JobRunner`, src/pytitect/jobs.py, leaves in the in-memory store.
use pytitect.Prelude.{
  ℕ, ◌+◌, ◌||◌, ◌≡◌, refl, String, Option, none, some, [], ◌∷◌, arith, length, length-append, leb,
  ltb, if_either, Action, Result, ok, err, ◌>>=◌, Datetime, utc, other, inl, inr, Bool-cases, ◌==◌,
  String_eq, ℕ_eq, option_eq,
}
use pytitect.Jobs.Types.{Job, JobClaim, JobTransition, job_succeeded, job_retried, job_terminated}
use pytitect.Jobs.Store.{
  JobStore, StoredJob, succeed, succeed_found, retry, retry_found, terminate, terminate_found,
  replace_job, reason_of, valid,
}
use pytitect.Jobs.Runner.{}

-- What holds of a value that is returned, and of the state after it.
abbrev pub Ends : {S A : Type 0} → (A → S → Type 0) → Result A × S → Type 0
Ends Q (ok a, s) = Q a s
Ends Q (err e, s) = Unit

module _ {S A B : Type 0} (P : A → S → Type 0) (Q : B → S → Type 0) (f : A → Action S B)
    (next : (a : A) (s : S) → P a s → Ends Q (f a s)) where
  continue-Ends : (p : Result A × S) → Ends P p → Ends Q (((λ (s : S). p) >>= f) p.1)
  continue-Ends (ok a, s) first = next a s first
  continue-Ends (err e, s) first = tt

  pub bind-Ends : (m : Action S A) (s : S) → Ends P (m s) → Ends Q ((m >>= f) s)
  bind-Ends m s first = continue-Ends (m s) first

pub map-Ends :
    {S A : Type 0} (P Q : A → S → Type 0)
    → ((a : A) (s : S) → P a s → Q a s)
    → (p : Result A × S) → Ends P p
    → Ends Q p
map-Ends P Q f (ok a, s) h = f a s h
map-Ends P Q f (err e, s) h = tt

-- 1 for a job that succeeded
abbrev pub success : JobTransition → ℕ
success job_succeeded = 1
success _ = 0

module _ {J D : Type 0} where
  -- A call adds a decision exactly if a job succeeds.
  abbrev pub Decided : JobStore J D → JobTransition → JobStore J D → Type 0
  Decided s answer s' = length s'.decisions ≡ length s.decisions + success answer

  replace_job-Decided :
      (i : String) (r : Result (Job J)) (item : StoredJob J) (answer : JobTransition)
      (s : JobStore J D)
      → success answer ≡ 0
      → Ends (Decided s) (replace_job i r item answer s)
  unfolding replace_job
  replace_job-Decided i (err e) item answer s h = tt
  replace_job-Decided i (ok job) item answer s h = omega arith

  retry_found-Decided :
      (i : String) (o : Option (StoredJob J)) (reason : String) (t : ℕ) (s : JobStore J D)
      → Ends (Decided s) (retry_found i o reason t s)
  unfolding retry_found
  retry_found-Decided i none reason t s = omega arith
  retry_found-Decided i (some item) reason t s =
      if_either (Ends (Decided s)) (leb item.job.max_attempts (item.job.attempt + 1))
        (replace_job-Decided i _ item (job_terminated reason) s refl)
        (replace_job-Decided i _ item (job_retried t) s refl)

  terminate_found-Decided :
      (i : String) (o : Option (StoredJob J)) (reason : String) (s : JobStore J D)
      → Ends (Decided s) (terminate_found i o reason s)
  unfolding terminate_found
  terminate_found-Decided i none reason s = omega arith
  terminate_found-Decided i (some item) reason s =
      replace_job-Decided i _ item (job_terminated reason) s refl

  succeed_found-Decided :
      (i : String) (o : Option (StoredJob J)) (decision : D) (s : JobStore J D)
      → Ends (Decided s) (succeed_found i o decision s)
  unfolding succeed_found replace_job
  succeed_found-Decided i none decision s = omega arith
  succeed_found-Decided i (some item) decision s =
      elim (Bool-cases (leb s.capacity (length s.decisions))) [
        | inl full ↦ rw full tt
        | inr room ↦ rw room (elim (Bool-cases ((item.job.job_id == "") || (item.job.task == ""))) [
          | inl empty ↦ rw empty tt
          | inr named ↦
              rw named
                (elim (Bool-cases
                  ((item.job.max_attempts == 0) || ltb item.job.max_attempts item.job.attempt)) [
                    | inl bad ↦ rw bad tt
                    | inr fine ↦ rw fine (
                        omega (arith, length-append s.decisions ((item.job.job_id, decision) ∷ [])))
                  ])
        ])
      ]

  module _ (sanitize : String → String) where
    pub succeed-Decided :
        (c : JobClaim J) (decision : D) (at : Datetime) (s : JobStore J D)
        → Ends (Decided s) (succeed c decision at s)
    unfolding succeed
    succeed-Decided c decision (other t) s = tt
    succeed-Decided c decision (utc t) s = succeed_found-Decided c.job.job_id (valid s c) decision s

    pub retry-Decided :
        (c : JobClaim J) (reason : String) (at : Datetime) (s : JobStore J D)
        → Ends (Decided s) (retry sanitize c reason at s)
    unfolding retry reason_of
    retry-Decided c reason (other t) s = tt
    retry-Decided c reason (utc t) s = elim (Bool-cases (sanitize reason == "")) [
      | inl empty ↦ rw empty tt
      | inr given ↦ rw given (retry_found-Decided c.job.job_id (valid s c) (sanitize reason) t s)
    ]

    pub terminate-Decided :
        (c : JobClaim J) (reason : String) (at : Datetime) (s : JobStore J D)
        → Ends (Decided s) (terminate sanitize c reason at s)
    unfolding terminate reason_of
    terminate-Decided c reason (other t) s = tt
    terminate-Decided c reason (utc t) s = elim (Bool-cases (sanitize reason == "")) [
      | inl empty ↦ rw empty tt
      | inr given ↦ rw given (terminate_found-Decided c.job.job_id (valid s c) (sanitize reason) s)
    ]
