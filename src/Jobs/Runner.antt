-- ===== src/Jobs/Runner.antt =====
-- `JobRunner` of src/pytitect/jobs.py, over any store, and on the in-memory one. A handler acts on a
-- world of its own; where it raises, `permanent` holds the message of a `PermanentJobError` and
-- `raised` the name of another exception's type.
use pytitect.Prelude.{
  ℕ, ◌+◌, String, Option, none, some, List, [], ◌∷◌, length, Action, ◌>>=◌, pure, lift, Datetime,
  Timedelta, ok,
}
use pytitect.Outbox.Types.{Floats, RetryPolicy, delay}
use pytitect.Outbox.Dispatch.{later, on_store}
use pytitect.Jobs.Types.{
  Job, JobClaim, JobTransition, job_succeeded, job_retried, job_terminated, stale_job_claim,
}
use pytitect.Jobs.Store
use pytitect.Jobs.Store.{JobStore}

-- `JobStore`, the protocol
pub record JobPort (S J D : Type 0) : Type 0 where
  pub claim : Datetime → ℕ → Timedelta → Action S (List (JobClaim J))
  pub succeed : JobClaim J → D → Datetime → Action S JobTransition
  pub retry : JobClaim J → String → Datetime → Action S JobTransition
  pub terminate : JobClaim J → String → Datetime → Action S JobTransition

-- The in-memory store as one, by the IDs that `uuid4` gives in the run.
abbrev pub in_memory :
    {J D : Type 0} → (String → String) → (ℕ → String) → JobPort (JobStore J D) J D
in_memory sanitize uuid = record {
  claim = Store.claim uuid;
  succeed = Store.succeed;
  retry = Store.retry sanitize;
  terminate = Store.terminate sanitize;
}

-- How a call of a handler ends.
pub data Handled (D : Type 0) : Type 0 where
  decided : D → Handled D
  permanent raised : String → Handled D

pub record JobRunSummary : Type 0 where
  pub claimed : ℕ
  pub succeeded : ℕ
  pub retried : ℕ
  pub terminated : ℕ

-- The three `isinstance` tests after a claim's call.
abbrev pub count : JobTransition → JobRunSummary → JobRunSummary
count job_succeeded counts = record counts { succeeded = counts.succeeded + 1 }
count (job_retried run_at) counts = record counts { retried = counts.retried + 1 }
count (job_terminated reason) counts = record counts { terminated = counts.terminated + 1 }
count stale_job_claim counts = counts

-- A handler's call, in the world.
abbrev pub call_handler :
    {S W A D : Type 0} → (A → W → Handled D × W) → A → Action (S × W) (Handled D)
call_handler handler job (s, w) = let (r, w') = handler job w in (ok r, (s, w'))

module _ {S J D W F : Type 0} (floats : Floats F) (policy : RetryPolicy F) (store : JobPort S J D)
    (now : Datetime) where
  -- The branches of the `try` of the loop.
  unfoldable pub settle : JobClaim J → Handled D → Action (S × W) JobTransition
  unfolding delay
  settle claim (decided decision) = on_store (store.succeed claim decision now)
  settle claim (permanent message) = on_store (store.terminate claim message now)
  settle claim (raised name) = do
    wait ← lift (delay floats policy (claim.job.attempt + 1))
    on_store (store.retry claim name (later now wait))

  module _ (handlers : String → Option (Job J → W → Handled D × W)) where
    -- `self._handlers[claim.job.task]` and its call
    abbrev pub handle : Option (Job J → W → Handled D × W) → Job J → Action (S × W) (Handled D)
    handle none job = pure (raised "KeyError")
    handle (some handler) job = call_handler handler job

    -- `for claim in claims`
    unfoldable pub run_claims : List (JobClaim J) → JobRunSummary → Action (S × W) JobRunSummary
    unfolding settle
    run_claims [] counts = pure counts
    run_claims (claim ∷ claims) counts = do
      result ← handle (handlers claim.job.task) claim.job
      answer ← settle claim result
      run_claims claims (count answer counts)

    -- `run_once(limit=..., claim_ttl=...)`, where the clock answers `now`
    unfoldable pub run_once : ℕ → Timedelta → Action (S × W) JobRunSummary
    unfolding run_claims
    run_once limit claim_ttl = do
      claims ← on_store (store.claim now limit claim_ttl)
      run_claims claims
          (record { claimed = length claims; succeeded = 0; retried = 0; terminated = 0 })
