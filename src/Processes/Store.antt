-- ===== src/Processes/Store.antt =====
-- `InMemoryProcessManagerStore` of src/pytitect/processes.py. Each method holds the lock from end to
-- end. A timer is kept under its process and its ID, which no method changes. `uuid n` is the n-th ID
-- that `uuid4` gives within a claim.
use pytitect.Prelude.{
  ℕ, ◌+◌, String, Bool, true, false, ◌||◌, not, Option, none, some, List, [], ◌∷◌, ltb,
  if◌then◌else◌, length, ◌==◌, ℕ_eq, String_eq, option_eq, pair_eq, Action, Result, ok, err,
  value_error, overflow_error, ◌>>=◌, lift, Datetime, instant,
}
use pytitect.Prelude.Dict.{Dict, get, put, contains}
use pytitect.Processes.Types.{
  ProcessKey, process_eq, ProcessEffect, TimerSchedule, ProcessState, ProcessDecision,
  ProcessApplyResult, process_applied, stale_process_version, ProcessTimer,
}

-- `_Timer`
pub record Timer (J : Type 0) : Type 0 where
  pub value : ProcessTimer J
  pub terminal : Bool
  pub claim_id : Option String
  pub claimed_until : Option ℕ

-- A timer's key
abbrev pub TimerKey : Type 0
TimerKey = ProcessKey × String

pub record ProcessStore (J : Type 0) : Type 0 where
  pub capacity : ℕ
  pub states : Dict ProcessKey (ProcessState J)
  pub timers : Dict TimerKey (Timer J)
  pub effects : Dict String (ProcessKey × ProcessEffect J)

-- `InMemoryProcessManagerStore(capacity=...)`
unfoldable pub new : {J : Type 0} → ℕ → Result (ProcessStore J)
new capacity =
    if capacity == 0
    then err value_error
    else ok (record { capacity = capacity; states = []; timers = []; effects = [] })

module _ {J : Type 0} where
  -- `0 if current is None else current.version`
  abbrev pub version_of : Option (ProcessState J) → ℕ
  version_of none = 0
  version_of (some state) = state.version

  abbrev pub any_timer : ProcessKey → List (TimerSchedule J) → Dict TimerKey (Timer J) → Bool
  any_timer key [] timers = false
  any_timer key (x ∷ xs) timers = contains (key, x.timer_id) timers || any_timer key xs timers

  abbrev pub any_effect : List (ProcessEffect J) → Dict String (ProcessKey × ProcessEffect J) → Bool
  any_effect [] effects = false
  any_effect (x ∷ xs) effects = contains x.effect_id effects || any_effect xs effects

  abbrev pub ended : Timer J → Timer J
  ended timer = record timer { terminal = true }

  -- One turn of the loop on `cancel_timers`; how many timers it cancels.
  abbrev pub cancel_found :
      TimerKey → Option (Timer J) → Dict TimerKey (Timer J) → ℕ × Dict TimerKey (Timer J)
  cancel_found k none timers = (0, timers)
  cancel_found k (some timer) timers =
      if timer.terminal then (0, timers) else (1, put k (ended timer) timers)

  unfoldable pub cancel_all :
      ProcessKey → List String → Dict TimerKey (Timer J) → ℕ × Dict TimerKey (Timer J)
  cancel_all key [] timers = (0, timers)
  cancel_all key (i ∷ is) timers =
      let (n, timers') = cancel_found (key, i) (get (key, i) timers) timers in
      let (m, timers'') = cancel_all key is timers' in (n + m, timers'')

  abbrev pub timer_of : ProcessKey → TimerSchedule J → Timer J
  timer_of key x = record {
    value = record {
      process = key;
      timer_id = x.timer_id;
      due_at = x.due_at;
      effect = x.effect;
      fencing_token = 0;
    };
    terminal = false;
    claim_id = none;
    claimed_until = none;
  }

  -- `for schedule in decision.schedule`
  unfoldable pub put_timers :
      ProcessKey → List (TimerSchedule J) → Dict TimerKey (Timer J) → Dict TimerKey (Timer J)
  put_timers key [] timers = timers
  put_timers key (x ∷ xs) timers = put_timers key xs (put (key, x.timer_id) (timer_of key x) timers)

  -- `for effect in decision.effects`
  unfoldable pub put_effects :
      ProcessKey
      → List (ProcessEffect J)
      → Dict String (ProcessKey × ProcessEffect J)
      → Dict String (ProcessKey × ProcessEffect J)
  put_effects key [] effects = effects
  put_effects key (x ∷ xs) effects = put_effects key xs (put x.effect_id (key, x) effects)

  abbrev pub size : ProcessStore J → ℕ
  size s = length s.states + length s.timers + length s.effects

  abbrev pub next_state : ProcessKey → ℕ → ProcessDecision J → ℕ → ProcessState J
  next_state key actual decision at = record {
    key = key;
    version = actual + 1;
    status = decision.status;
    state = decision.state;
    updated_at = at;
  }

  -- `int(current is None)`
  abbrev pub new_states : Option (ProcessState J) → ℕ
  new_states none = 1
  new_states (some state) = 0

  -- The store after an apply that is not refused.
  unfoldable pub written :
      ProcessKey → ProcessDecision J → ProcessState J → ProcessStore J → ProcessStore J
  unfolding cancel_all put_timers put_effects
  written key decision state s = record s {
    states = put key state s.states;
    timers = put_timers key decision.schedule (cancel_all key decision.cancel_timers s.timers).1;
    effects = put_effects key decision.effects s.effects;
  }

  unfoldable pub apply_locked :
      ProcessKey → ℕ → ProcessDecision J → ℕ → Action (ProcessStore J) (ProcessApplyResult J)
  unfolding written cancel_all
  apply_locked key expected decision at s =
      let current = get key s.states in
      let actual = version_of current in
      let new_items = new_states current + length decision.schedule + length decision.effects in
      let state = next_state key actual decision at in
      if not (actual == expected)
      then (ok (stale_process_version expected actual), s)
      else if any_timer key decision.schedule s.timers || any_effect decision.effects s.effects
      then (err value_error, s)
      else if ltb s.capacity (size s + new_items)
      then (err overflow_error, s)
      else (
        ok (
            process_applied state (length decision.effects) (length decision.schedule)
              (cancel_all key decision.cancel_timers s.timers).0),
        written key decision state s,
      )

  unfoldable pub apply :
      ProcessKey → ℕ → ProcessDecision J → Datetime → Action (ProcessStore J) (ProcessApplyResult J)
  unfolding apply_locked
  apply key expected decision at = do t ← lift (instant at); apply_locked key expected decision t
