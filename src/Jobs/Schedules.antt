-- ===== src/Jobs/Schedules.antt =====
-- Schedules of src/pytitect/jobs.py: `add_schedule` and `materialize`. `numbered` is the ID that
-- `f"{schedule_id}:{sequence}"` makes; the policies are the consumer's, and a name without one raises.
use pytitect.Prelude.{
  ℕ, ◌+◌, String, Bool, true, false, ◌||◌, not, Option, none, some, List, [], ◌∷◌, ltb, leb,
  if◌then◌else◌, ◌==◌, ℕ_eq, String_eq, or_else, Action, Result, ok, err, value_error,
  overflow_error, lookup_error, ◌>>=◌, ◌>>◌, lift, raise_if, Datetime, utc, other, instant, pos,
  ◌+ₜ◌,
}
use pytitect.Prelude.Dict.{put, contains}
use pytitect.Prelude.Sorting.{sorted, str_leb, key_then}
use pytitect.Jobs.Types.{
  scheduled, Job, checked, ScheduleKind, one_shot, fixed_interval, consumer_policy, JobSchedule,
}
use pytitect.Jobs.Store.{JobStore, stored, is_full}

module _ {J D : Type 0} where
  unfoldable pub add_schedule : JobSchedule J → Action (JobStore J D) Bool
  add_schedule schedule s =
      if contains schedule.schedule_id s.schedules
      then (ok false, s)
      else if is_full s
      then (err overflow_error, s)
      else (ok true, record s { schedules = put schedule.schedule_id schedule s.schedules })

module _ {J : Type 0} where
  abbrev pub next_time : String × JobSchedule J → ℕ
  next_time item = item.1.next_run

  abbrev pub schedule_leb : String × JobSchedule J → String × JobSchedule J → Bool
  schedule_leb a b = str_leb a.0 b.0

  -- `replace(schedule, sequence=schedule.sequence + 1, active=False)`
  abbrev pub closed : JobSchedule J → JobSchedule J
  closed schedule = record schedule { sequence = schedule.sequence + 1; active = false }

  abbrev pub moved : JobSchedule J → ℕ → JobSchedule J
  moved schedule next_run = record schedule {
    sequence = schedule.sequence + 1;
    next_run = next_run;
  }

  -- What a policy has answered.
  abbrev pub follow : JobSchedule J → Result (Option Datetime) → Result (JobSchedule J)
  follow schedule (err e) = err e
  follow schedule (ok none) = ok (closed schedule)
  follow schedule (ok (some (other t))) = err value_error
  follow schedule (ok (some (utc t))) =
      if leb t schedule.next_run then err value_error else ok (moved schedule t)

  abbrev pub look_up :
      JobSchedule J → Option (JobSchedule J → Result (Option Datetime)) → Result (JobSchedule J)
  look_up schedule none = err lookup_error
  look_up schedule (some policy) = follow schedule (policy schedule)

  module _ (policies : String → Option (JobSchedule J → Result (Option Datetime))) where
    abbrev pub advance_kind : ScheduleKind → JobSchedule J → Result (JobSchedule J)
    advance_kind one_shot schedule = ok (closed schedule)
    advance_kind fixed_interval schedule =
        ok (moved schedule (schedule.next_run +ₜ or_else schedule.interval (pos 0)))
    advance_kind consumer_policy schedule = look_up schedule (policies (or_else schedule.policy ""))

    -- `_advance_schedule`
    unfoldable pub advance_schedule : JobSchedule J → Result (JobSchedule J)
    advance_schedule schedule = advance_kind schedule.kind schedule

-- The job of a schedule's turn.
abbrev pub job_of : {J : Type 0} → String → JobSchedule J → Job J
job_of job_id schedule = record {
  job_id = job_id;
  task = schedule.task;
  payload = schedule.payload;
  run_at = schedule.next_run;
  max_attempts = schedule.max_attempts;
  attempt = 0;
  state = scheduled;
  last_failure = none;
}

module _ {J D : Type 0} (numbered : String → ℕ → String)
    (policies : String → Option (JobSchedule J → Result (Option Datetime))) where
  abbrev pub add_job : String → Result (Job J) → Action (JobStore J D) ℕ
  add_job job_id (err e) s = (err e, s)
  add_job job_id (ok job) s = (ok 1, record s { jobs = put job_id (stored job) s.jobs })

  -- The job of the schedule's turn is added, unless it is there; how many were.
  unfoldable pub create : JobSchedule J → Action (JobStore J D) ℕ
  unfolding checked
  create schedule s =
      let job_id = numbered schedule.schedule_id schedule.sequence in
      if contains job_id s.jobs
      then (ok 0, s)
      else if is_full s
      then (err overflow_error, s)
      else add_job job_id (checked (job_of job_id schedule)) s

  abbrev pub put_schedule :
      JobSchedule J → Result (JobSchedule J) → Action (JobStore J D) (Unit {0})
  put_schedule schedule (err e) s = (err e, s)
  put_schedule schedule (ok next) s =
      (ok tt, record s { schedules = put schedule.schedule_id next s.schedules })

  -- One turn of the loop of `materialize` that is not skipped.
  unfoldable pub take_turn : JobSchedule J → Action (JobStore J D) ℕ
  unfolding create advance_schedule
  take_turn schedule = do
    n ← create schedule
    put_schedule schedule (advance_schedule policies schedule)
    λ s. (ok n, s)

  -- The loop of `materialize`.
  unfoldable pub take_turns : ℕ → ℕ → List (String × JobSchedule J) → ℕ → Action (JobStore J D) ℕ
  unfolding take_turn
  take_turns now limit [] created s = (ok created, s)
  take_turns now limit ((i, schedule) ∷ rest) created s =
      let skipped = take_turns now limit rest created s in
      let taken = (take_turn schedule >>= λ n. take_turns now limit rest (created + n)) s in
      if leb limit created || not schedule.active || ltb now schedule.next_run
      then skipped
      else taken

  -- `materialize(now=..., limit=..., policies=...)`
  unfoldable pub materialize : Datetime → ℕ → Action (JobStore J D) ℕ
  unfolding take_turns sorted
  materialize now limit = do
    t ← lift (instant now)
    raise_if (limit == 0) value_error
    λ s. take_turns t limit (sorted (key_then next_time schedule_leb) s.schedules) 0 s
