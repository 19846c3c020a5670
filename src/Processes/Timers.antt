-- ===== src/Processes/Timers.antt =====
-- `claim_timers` and `complete_timer` of `InMemoryProcessManagerStore`, src/pytitect/processes.py.
use pytitect.Prelude.{
  ℕ, suc, ◌+◌, String, Bool, true, false, ◌&&◌, ◌||◌, not, Option, none, some, List, [], ◌∷◌, ltb,
  leb, if◌then◌else◌, ◌==◌, ℕ_eq, String_eq, option_eq, pair_eq, Action, ok, value_error, ◌>>=◌,
  ◌>>◌, lift, raise_if, Datetime, instant, Timedelta, not_positive, ◌+ₜ◌,
}
use pytitect.Prelude.Dict.{Dict, get, put}
use pytitect.Prelude.Sorting.{sorted, str_leb, key_then, then_by}
use pytitect.Processes.Types.{process_eq, ProcessTimerClaim}
use pytitect.Processes.Store.{Timer, TimerKey, ProcessStore, ended}

-- `stored.claimed_until is not None and stored.claimed_until > now`
abbrev pub is_held : Option ℕ → ℕ → Bool
is_held none now = false
is_held (some until) now = ltb now until

module _ {J : Type 0} where
  abbrev pub due_time : TimerKey × Timer J → ℕ
  due_time item = item.1.value.due_at

  -- Of two timers due at one time, by the names and IDs.
  abbrev pub identity_leb : TimerKey × Timer J → TimerKey × Timer J → Bool
  identity_leb a b =
      let p = a.1.value in
      let q = b.1.value in
      then_by (not (str_leb q.process.name p.process.name)) (p.process.name == q.process.name) (
        then_by (not (str_leb q.process.instance_id p.process.instance_id))
          (p.process.instance_id == q.process.instance_id) (str_leb p.timer_id q.timer_id))

  -- No `continue` of the loop of `claim_timers` is taken.
  abbrev pub is_eligible : ℕ → Timer J → Bool
  is_eligible now timer =
      not timer.terminal
      && not (ltb now timer.value.due_at)
      && not (is_held timer.claimed_until now)

  abbrev pub held : String → ℕ → Timer J → Timer J
  held claim_id until timer = record timer {
    value = record timer.value { fencing_token = timer.value.fencing_token + 1 };
    claim_id = some claim_id;
    claimed_until = some until;
  }

  abbrev pub claim_of : String → ℕ → Timer J → ProcessTimerClaim J
  claim_of claim_id until timer = record {
    timer = record timer.value { fencing_token = timer.value.fencing_token + 1 };
    claim_id = claim_id;
    claimed_until = until;
  }

  module _ (now limit until : ℕ) (uuid : ℕ → String) where
    -- The loop of `claim_timers`, after `n` claims.
    unfoldable pub claim_each :
        ℕ
        → List (TimerKey × Timer J)
        → Dict TimerKey (Timer J)
        → List (ProcessTimerClaim J) × Dict TimerKey (Timer J)
    claim_each n [] timers = ([], timers)
    claim_each n ((k, timer) ∷ rest) timers =
        let skipped = claim_each n rest timers in
        let taken = claim_each (suc n) rest (put k (held (uuid n) until timer) timers) in
        if leb limit n
        then ([], timers)
        else if is_eligible now timer
        then (claim_of (uuid n) until timer ∷ taken.0, taken.1)
        else skipped

  unfoldable pub claim_locked :
      (ℕ → String) → ℕ → ℕ → ℕ → Action (ProcessStore J) (List (ProcessTimerClaim J))
  unfolding claim_each sorted
  claim_locked uuid now limit until s =
      let r =
        claim_each now limit until uuid 0 (sorted (key_then due_time identity_leb) s.timers)
          s.timers in
      (ok r.0, record s { timers = r.1 })

  unfoldable pub claim_timers :
      (ℕ → String) → Datetime → ℕ → Timedelta → Action (ProcessStore J) (List (ProcessTimerClaim J))
  unfolding claim_locked
  claim_timers uuid now limit claim_ttl = do
    t ← lift (instant now)
    raise_if (limit == 0) value_error
    raise_if (not_positive claim_ttl) value_error
    claim_locked uuid t limit (t +ₜ claim_ttl)

  abbrev pub complete_found : ProcessTimerClaim J → Option (Timer J) → Action (ProcessStore J) Bool
  complete_found claim none s = (ok false, s)
  complete_found claim (some timer) s =
      if timer.terminal
        || not (timer.claim_id == some claim.claim_id)
        || not (timer.value.fencing_token == claim.timer.fencing_token)
      then (ok false, s)
      else (
        ok true,
        record s {
          timers =
              put (claim.timer.process, claim.timer.timer_id)
                (record (ended timer) { claim_id = none; claimed_until = none }) s.timers;
        },
      )

  unfoldable pub complete_timer : ProcessTimerClaim J → Action (ProcessStore J) Bool
  complete_timer claim s =
      complete_found claim (get (claim.timer.process, claim.timer.timer_id) s.timers) s
