-- ===== src/Processes/Versions.antt =====
-- What `InMemoryProcessManagerStore.apply`, src/pytitect/processes.py, does with a version.
use pytitect.Prelude.{
  ℕ, All, ◌+◌, ◌≤◌, String, true, ◌≡◌, Option, none, some, length, String_eq, pair_eq, ◌⊎◌, Result,
  ok, ◌<◌, if◌then◌else◌,
}
use pytitect.Prelude.Dict.{get, contains, elem}
use pytitect.Processes.Types.{
  ProcessKey, process_eq, ProcessEffect, TimerSchedule, ProcessState, ProcessDecision,
  ProcessApplyResult, process_applied, timer_ids, effect_ids,
}
use pytitect.Processes.Store.{ProcessStore}
use pytitect.Processes.Cancelled.{terminals}

module _ {J : Type 0} (key : ProcessKey) where
  -- An answer that is not `ProcessApplied`.
  abbrev pub Refused : Result (ProcessApplyResult J) → Type 0
  Refused (ok (process_applied state n m c)) = ⊥
  Refused _ = Unit

  -- The version of a process, 0 for one that has no state.
  abbrev pub IsAt : ℕ → Option (ProcessState J) → Type 0
  IsAt n none = n ≡ 0
  IsAt n (some state) = state.version ≡ n

  abbrev pub items : ProcessStore J → ℕ
  items s = length s.states + length s.timers + length s.effects

  module _ (expected : ℕ) (decision : ProcessDecision J) (t : ℕ) (s : ProcessStore J) where
    -- The process was at the version expected, its new state follows, as many timers more are terminal
    -- as are reported, the new timers and effects are there, and the store is within bounds.
    abbrev pub Advanced : Result (ProcessApplyResult J) × ProcessStore J → Type 0
    Advanced r =
        let state : ProcessState J = record {
          key = key;
          version = expected + 1;
          status = decision.status;
          state = decision.state;
          updated_at = t;
        } in
        (c : ℕ) × (r.0
          ≡ ok (process_applied state (length decision.effects) (length decision.schedule) c))
        × (terminals s.timers + c ≡ terminals r.1.timers)
        × IsAt expected (get key s.states)
        × (get key r.1.states ≡ some state)
        × All (λ (x : TimerSchedule J). contains (key, x.timer_id) r.1.timers ≡ true)
            decision.schedule
        × All (λ (x : ProcessEffect J). contains x.effect_id r.1.effects ≡ true) decision.effects
        × (items r.1 ≤ r.1.capacity)

    -- Another version, a timer or an effect whose ID is there already, or no room.
    abbrev pub IsBlocked : Type 0
    IsBlocked =
        (IsAt expected (get key s.states) → ⊥)
        ⊎ ((i : String) × (elem i (timer_ids decision.schedule) ≡ true)
            × (contains (key, i) s.timers ≡ true))
        ⊎ ((i : String) × (elem i (effect_ids decision.effects) ≡ true)
            × (contains i s.effects ≡ true))
        ⊎ (s.capacity
            < items s
              + (if contains key s.states then 0 else 1)
              + length decision.schedule
              + length decision.effects)
