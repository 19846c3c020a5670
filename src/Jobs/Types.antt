-- ===== src/Jobs/Types.antt =====
-- Jobs, claims, results and schedules of src/pytitect/jobs.py. `J` stands for a payload, a JSON value.
use pytitect.Prelude.{
  ℕ, String, Bool, true, false, ◌||◌, not, Option, none, some, ltb, if◌then◌else◌, ◌==◌, ℕ_eq,
  String_eq, is_some, or_else, Result, ok, err, value_error, Timedelta, not_positive,
}

pub data JobState : Type 0 where
  scheduled succeeded terminal cancelled : JobState

abbrev pub is_scheduled : JobState → Bool
is_scheduled scheduled = true
is_scheduled _ = false

pub record Job (J : Type 0) : Type 0 where
  pub job_id : String
  pub task : String
  pub payload : J
  pub run_at : ℕ
  pub max_attempts : ℕ
  pub attempt : ℕ
  pub state : JobState
  pub last_failure : Option String

-- The checks of `Job(...)`, of a job whose time is UTC. `replace` makes them again.
unfoldable pub checked : {J : Type 0} → Job J → Result (Job J)
checked job =
    if (job.job_id == "") || (job.task == "")
    then err value_error
    else if (job.max_attempts == 0) || ltb job.max_attempts job.attempt
    then err value_error
    else ok job

pub record JobClaim (J : Type 0) : Type 0 where
  pub job : Job J
  pub claim_id : String
  pub claimed_until : ℕ
  pub fencing_token : ℕ

pub data JobScheduleResult : Type 0 where
  job_scheduled job_duplicate : JobScheduleResult

pub data JobTransition : Type 0 where
  job_succeeded : JobTransition
  job_retried : ℕ → JobTransition
  job_terminated : String → JobTransition
  stale_job_claim : JobTransition

pub data ScheduleKind : Type 0 where
  one_shot fixed_interval consumer_policy : ScheduleKind

pub record JobSchedule (J : Type 0) : Type 0 where
  pub schedule_id : String
  pub task : String
  pub payload : J
  pub next_run : ℕ
  pub kind : ScheduleKind
  pub interval : Option Timedelta
  pub policy : Option String
  pub max_attempts : ℕ
  pub sequence : ℕ
  pub active : Bool

-- The checks of the kind in `JobSchedule(...)`
abbrev pub kind_ok : ScheduleKind → Option Timedelta → Option String → Bool
kind_ok fixed_interval none policy = false
kind_ok fixed_interval (some interval) policy = not (not_positive interval)
kind_ok consumer_policy interval policy = not (or_else policy "" == "")
kind_ok one_shot interval policy = not (is_some interval || is_some policy)

-- `JobSchedule(...)`, of a schedule whose time is UTC
unfoldable pub checked_schedule : {J : Type 0} → JobSchedule J → Result (JobSchedule J)
checked_schedule schedule =
    if (schedule.schedule_id == "") || (schedule.task == "")
    then err value_error
    else if kind_ok schedule.kind schedule.interval schedule.policy
    then ok schedule
    else err value_error
