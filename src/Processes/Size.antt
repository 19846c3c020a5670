-- ===== src/Processes/Size.antt =====
-- How far an `apply` of src/pytitect/processes.py makes its store grow.
use pytitect.Prelude.{
  ◌+◌, ◌≤◌, String, ◌≡◌, refl, Option, none, some, List, [], ◌∷◌, length, ℕ_eq, String_eq, pair_eq,
  Eq, arith, inl, inr, Option-cases,
}
use pytitect.Prelude.Dict.{Dict, get, put, length-put}
use pytitect.Processes.Types.{
  ProcessKey, process_eq, ProcessEffect, TimerSchedule, ProcessState, ProcessDecision,
}
use pytitect.Processes.Store.{
  ProcessStore, Timer, TimerKey, cancel_found, cancel_all, put_timers, put_effects, size,
  new_states, written, timer_of, ended,
}

length-put-le :
    {K V : Type 0} ⦃e : Eq K⦄ (d : Dict K V) (k : K) (v : V) → length (put k v d) ≤ length d + 1
length-put-le d k v = ground (arith, length-put d k v)

module _ {J : Type 0} (key : ProcessKey) where
  length-put_timers :
      (xs : List (TimerSchedule J)) (timers : Dict TimerKey (Timer J))
      → length (put_timers key xs timers) ≤ length timers + length xs
  unfolding put_timers
  length-put_timers [] timers = omega arith
  length-put_timers (x ∷ xs) timers =
      let rest = length-put_timers xs (put (key, x.timer_id) (timer_of key x) timers) in
      let one = length-put-le timers (key, x.timer_id) (timer_of key x) in omega arith

  length-put_effects :
      (xs : List (ProcessEffect J)) (effects : Dict String (ProcessKey × ProcessEffect J))
      → length (put_effects key xs effects) ≤ length effects + length xs
  unfolding put_effects
  length-put_effects [] effects = omega arith
  length-put_effects (x ∷ xs) effects =
      let rest = length-put_effects xs (put x.effect_id (key, x) effects) in
      let one = length-put-le effects x.effect_id (key, x) in omega arith

  length-cancel_found :
      (k : TimerKey) (o : Option (Timer J)) (timers : Dict TimerKey (Timer J))
      → get k timers ≡ o
      → length (cancel_found k o timers).1 ≡ length timers
  length-cancel_found k none timers h = refl
  length-cancel_found k (some timer) timers h = ground (arith, h, length-put timers k (ended timer))

  length-cancel_all :
      (is : List String) (timers : Dict TimerKey (Timer J))
      → length (cancel_all key is timers).1 ≡ length timers
  unfolding cancel_all
  length-cancel_all [] timers = refl
  length-cancel_all (i ∷ is) timers =
      let first = length-cancel_found (key, i) (get (key, i) timers) timers refl in
      let rest = length-cancel_all is (cancel_found (key, i) (get (key, i) timers) timers).1 in
      omega arith

  length-put_state :
      (states : Dict ProcessKey (ProcessState J)) (state : ProcessState J)
      → length (put key state states) ≡ length states + new_states (get key states)
  length-put_state states state = elim (Option-cases (get key states)) [
    | inl absent ↦ rw absent (ground (arith, absent, length-put states key state))
    | inr (old, present) ↦ rw present (ground (arith, present, length-put states key state))
  ]

  pub size-written :
      (decision : ProcessDecision J) (state : ProcessState J) (s : ProcessStore J)
      → size (written key decision state s)
        ≤ size s
          + (new_states (get key s.states) + length decision.schedule + length decision.effects)
  unfolding written
  size-written decision state s =
      let timers =
        length-put_timers decision.schedule (cancel_all key decision.cancel_timers s.timers).1 in
      let kept = length-cancel_all decision.cancel_timers s.timers in
      let effects = length-put_effects decision.effects s.effects in
      let states = length-put_state s.states state in omega arith
