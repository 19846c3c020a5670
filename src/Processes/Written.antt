-- ===== src/Processes/Written.antt =====
-- The timers and effects that are in a store before and after an `apply` of src/pytitect/processes.py.
use pytitect.Prelude.{
  String, true, ◌≡◌, List, [], ◌∷◌, All, arith, Eq, String_eq, pair_eq, ==_refl, Bool-cases, inl,
  inr,
}
use pytitect.Prelude.Dict.{Dict, elem, contains, put, get-put}
use pytitect.Processes.Types.{
  ProcessKey, process_eq, ProcessEffect, TimerSchedule, timer_ids, effect_ids,
}
use pytitect.Processes.Store.{
  Timer, TimerKey, put_timers, put_effects, timer_of, any_timer, any_effect,
}

module _ {K V : Type 0} ⦃e : Eq K⦄ where
  contains-put :
      (d : Dict K V) (k j : K) (v : V) → contains j d ≡ true → contains j (put k v d) ≡ true
  contains-put d k j v h = ground (arith, get-put d k j v, h)

  contains-put_same : (d : Dict K V) (k : K) (v : V) → contains k (put k v d) ≡ true
  contains-put_same d k v = ground (arith, get-put d k k v, ==_refl k)

module _ {J : Type 0} (key : ProcessKey) where
  timers_kept :
      (xs : List (TimerSchedule J)) (d : Dict TimerKey (Timer J)) (k : TimerKey)
      → contains k d ≡ true
      → contains k (put_timers key xs d) ≡ true
  unfolding put_timers
  timers_kept [] d k h = h
  timers_kept (x ∷ xs) d k h =
      timers_kept xs (put (key, x.timer_id) (timer_of key x) d) k
        (contains-put d (key, x.timer_id) k (timer_of key x) h)

  pub timers_written :
      (xs : List (TimerSchedule J)) (d : Dict TimerKey (Timer J))
      → All (λ x. contains (key, x.timer_id) (put_timers key xs d) ≡ true) xs
  unfolding put_timers
  timers_written [] d = tt
  timers_written (x ∷ xs) d =
      let d' = put (key, x.timer_id) (timer_of key x) d in
      (
        timers_kept xs d' (key, x.timer_id)
            (contains-put_same d (key, x.timer_id) (timer_of key x)),
        timers_written xs d',
      )

  effects_kept :
      (xs : List (ProcessEffect J)) (d : Dict String (ProcessKey × ProcessEffect J)) (i : String)
      → contains i d ≡ true
      → contains i (put_effects key xs d) ≡ true
  unfolding put_effects
  effects_kept [] d i h = h
  effects_kept (x ∷ xs) d i h =
      effects_kept xs (put x.effect_id (key, x) d) i (contains-put d x.effect_id i (key, x) h)

  pub effects_written :
      (xs : List (ProcessEffect J)) (d : Dict String (ProcessKey × ProcessEffect J))
      → All (λ x. contains x.effect_id (put_effects key xs d) ≡ true) xs
  unfolding put_effects
  effects_written [] d = tt
  effects_written (x ∷ xs) d =
      let d' = put x.effect_id (key, x) d in
      (
        effects_kept xs d' x.effect_id (contains-put_same d x.effect_id (key, x)),
        effects_written xs d',
      )

  -- The ID of a timer or an effect of the decision that was there before.
  pub timer_there :
      (xs : List (TimerSchedule J)) (timers : Dict TimerKey (Timer J))
      → any_timer key xs timers ≡ true
      → (i : String) × (elem i (timer_ids xs) ≡ true) × (contains (key, i) timers ≡ true)
  timer_there [] timers h = absurd (cc)
  timer_there (x ∷ xs) timers h = elim (Bool-cases (contains (key, x.timer_id) timers)) [
    | inl there ↦ (x.timer_id, ground (arith, ==_refl x.timer_id), there)
    | inr absent ↦
        let (i, listed, there) = timer_there xs timers (ground (arith, h, absent)) in
        (i, ground (arith, listed), there)
  ]

  pub effect_there :
      (xs : List (ProcessEffect J)) (effects : Dict String (ProcessKey × ProcessEffect J))
      → any_effect xs effects ≡ true
      → (i : String) × (elem i (effect_ids xs) ≡ true) × (contains i effects ≡ true)
  effect_there [] effects h = absurd (cc)
  effect_there (x ∷ xs) effects h = elim (Bool-cases (contains x.effect_id effects)) [
    | inl there ↦ (x.effect_id, ground (arith, ==_refl x.effect_id), there)
    | inr absent ↦
        let (i, listed, there) = effect_there xs effects (ground (arith, h, absent)) in
        (i, ground (arith, listed), there)
  ]
