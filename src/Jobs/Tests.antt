-- ===== src/Jobs/Tests.antt =====
-- Tests of the jobs: a job that is claimed, and theorems applied to it.
use pytitect.Prelude.{
  ℕ, ◌+◌, false, Option, if◌then◌else◌, suc, String, ◌≡◌, refl, none, some, [], ◌∷◌, utc, err,
  value_error, true, pos, ℕ_eq, String_eq, option_eq, ◌==◌,
}
use pytitect.Prelude.Dict.{get, put}
use pytitect.Prelude.Sorting.{sorted}
use pytitect.Outbox.Types.{Floats, RetryPolicy}
use pytitect.Jobs.Types.{Job, scheduled, succeeded, JobClaim, checked}
use pytitect.Jobs.Store.{
  claim_items, succeed, JobStore, stored, held, claim_of, retry, claim, valid,
}
use pytitect.Jobs.Retry.{retry_full}
use pytitect.Jobs.Runner.{Handled, decided, JobRunSummary, run_once}
use pytitect.Jobs.Bounds.{Summed, run_once_bounds}

abbrev job : ℕ → Job ℕ
job attempt = record {
  job_id = "j1";
  task = "mail";
  payload = 7;
  run_at = 1;
  max_attempts = 2;
  attempt = attempt;
  state = scheduled;
  last_failure = none;
}

abbrev taken : ℕ → JobClaim ℕ
taken attempt = claim_of "c1" 9 (stored (job attempt))

abbrev one : ℕ → JobStore ℕ ℕ
one attempt = record {
  capacity = 3;
  jobs = ("j1", held "c1" 9 (stored (job attempt))) ∷ [];
  schedules = [];
  decisions = [];
}

-- The policy that waits 4 units, on whole numbers.
abbrev whole : Floats ℕ
whole = record {
  isfinite = λ f. true;
  below_one = λ f. f == 0;
  is_one = λ f. f == 1;
  reaches = λ n maximum initial f. false;
  scaled = λ d f n. d;
}

abbrev steady : RetryPolicy ℕ
steady = record { initial_delay = 4; multiplier = 1; maximum_delay = 60; max_attempts = 3 }

-- A handler that counts and decides.
abbrev handlers : String → Option (Job ℕ → ℕ → Handled ℕ × ℕ)
handlers task = if task == "mail" then some (λ job n. (decided job.payload, suc n)) else none

abbrev ids : ℕ → String
ids n = if n == 0 then "c1" else "c2"

abbrev due : JobStore ℕ ℕ
due = record { capacity = 3; jobs = ("j1", stored (job 0)) ∷ []; schedules = []; decisions = [] }

abbrev ran : JobStore ℕ ℕ
ran = record {
  capacity = 3;
  jobs = ("j1", record (stored (record (job 0) { state = succeeded })) { fencing_token = 1 }) ∷ [];
  schedules = [];
  decisions = ("j1", 7) ∷ [];
}

abbrev one_done : JobRunSummary
one_done = record { claimed = 1; succeeded = 1; retried = 0; terminated = 0 }

abbrev same : String → String
same reason = reason

retry_full_example : retry same (taken 2) "timeout" (utc 5) (one 2) ≡ (err value_error, one 2)
unfolding valid checked get
retry_full_example =
    retry_full same (taken 2) "timeout" 5 (one 2) (held "c1" 9 (stored (job 2))) refl refl refl refl

run_once_bounds_example : Summed 2 one_done × (1 ≡ 0 + one_done.succeeded)
unfolding run_once sorted get put claim_items claim succeed
run_once_bounds_example =
    run_once_bounds whole steady same ids (utc 5) handlers 2 (pos 10) due ran 0 1 one_done refl
