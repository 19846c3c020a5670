-- ===== src/Processes/Cancelled.antt =====
-- How many timers an `apply` of src/pytitect/processes.py cancels.
use pytitect.Prelude.{
  ℕ, suc, ◌+◌, String, false, ◌≡◌, refl, Option, none, some, List, [], ◌∷◌, All, All-map_implies,
  ◌==◌, String_eq, pair_eq, pair_beq_iff, arith, if◌then◌else◌, inl, inr, Bool-cases,
}
use pytitect.Prelude.Dict.{Dict, get, put, get-put}
use pytitect.Processes.Types.{ProcessKey, process_eq, TimerSchedule}
use pytitect.Processes.Store.{
  Timer, TimerKey, any_timer, cancel_found, cancel_all, put_timers, timer_of, ended,
}

module _ {J : Type 0} where
  -- How many timers of a store are terminal.
  abbrev pub terminals : Dict TimerKey (Timer J) → ℕ
  terminals [] = 0
  terminals ((k, timer) ∷ timers) = (if timer.terminal then 1 else 0) + terminals timers

  -- No timer, or one that is not terminal.
  abbrev pub IsOpen : Option (Timer J) → Type 0
  IsOpen none = Unit
  IsOpen (some timer) = timer.terminal ≡ false

  terminals-put_open :
      (d : Dict TimerKey (Timer J)) (k : TimerKey) (t : Timer J)
      → t.terminal ≡ false
      → IsOpen (get k d)
      → terminals (put k t d) ≡ terminals d
  unfolding get put
  terminals-put_open [] k t h o = ground (arith, h)
  terminals-put_open ((j, x) ∷ d) k t h o = ground (arith, h, o, terminals-put_open d k t h)

  terminals-put-ended :
      (d : Dict TimerKey (Timer J)) (k : TimerKey) (x : Timer J)
      → get k d ≡ some x
      → x.terminal ≡ false
      → terminals (put k (ended x) d) ≡ suc (terminals d)
  unfolding get put
  terminals-put-ended [] k x h o = absurd (cc)
  terminals-put-ended ((j, y) ∷ d) k x h o = ground (arith, h, o, terminals-put-ended d k x)

  cancel_found_counted :
      (k : TimerKey) (o : Option (Timer J)) (d : Dict TimerKey (Timer J))
      → get k d ≡ o
      → terminals d + (cancel_found k o d).0 ≡ terminals (cancel_found k o d).1
  cancel_found_counted k none d h = omega arith
  cancel_found_counted k (some x) d h = ground (arith, terminals-put-ended d k x h)

  cancel_found_absent :
      (k j : TimerKey) (o : Option (Timer J)) (d : Dict TimerKey (Timer J))
      → get k d ≡ o
      → get j d ≡ none
      → get j (cancel_found k o d).1 ≡ none
  cancel_found_absent k j none d h a = a
  cancel_found_absent k j (some x) d h a = ground (arith, get-put d k j (ended x), pair_beq_iff k j)

  module _ (key : ProcessKey) where
    pub cancel_all_counted :
        (is : List String) (d : Dict TimerKey (Timer J))
        → terminals d + (cancel_all key is d).0 ≡ terminals (cancel_all key is d).1
    unfolding cancel_all
    cancel_all_counted [] d = omega arith
    cancel_all_counted (i ∷ is) d =
        let first = cancel_found_counted (key, i) (get (key, i) d) d refl in
        let rest = cancel_all_counted is (cancel_found (key, i) (get (key, i) d) d).1 in omega arith

    pub cancel_all_absent :
        (is : List String) (j : TimerKey) (d : Dict TimerKey (Timer J))
        → get j d ≡ none
        → get j (cancel_all key is d).1 ≡ none
    unfolding cancel_all
    cancel_all_absent [] j d a = a
    cancel_all_absent (i ∷ is) j d a =
        cancel_all_absent is j (cancel_found (key, i) (get (key, i) d) d).1
          (cancel_found_absent (key, i) j (get (key, i) d) d refl a)

    put-IsOpen :
        (d : Dict TimerKey (Timer J)) (k j : TimerKey) (t : Timer J)
        → t.terminal ≡ false
        → IsOpen (get j d)
        → IsOpen (get j (put k t d))
    put-IsOpen d k j t h o =
        rw (get-put d k j t)
          (elim (Bool-cases (k == j)) [ inl same ↦ rw same h | inr differs ↦ rw differs o ])

    put_timers_counted :
        (xs : List (TimerSchedule J)) (d : Dict TimerKey (Timer J))
        → All (λ x. IsOpen (get (key, x.timer_id) d)) xs
        → terminals (put_timers key xs d) ≡ terminals d
    unfolding put_timers
    put_timers_counted [] d h = refl
    put_timers_counted (x ∷ xs) d h =
        let d' = put (key, x.timer_id) (timer_of key x) d in
        let still =
          All-map_implies {P = λ y. IsOpen (get (key, y.timer_id) d)}
            {Q = λ y. IsOpen (get (key, y.timer_id) d')}
            (λ y o. put-IsOpen d (key, x.timer_id) (key, y.timer_id) (timer_of key x) refl o) xs
            h.1 in
        let rest = put_timers_counted xs d' still in
        let one = terminals-put_open d (key, x.timer_id) (timer_of key x) refl h.0 in omega arith

    new-IsOpen :
        (is : List String) (xs : List (TimerSchedule J)) (d : Dict TimerKey (Timer J))
        → any_timer key xs d ≡ false
        → All (λ x. IsOpen (get (key, x.timer_id) (cancel_all key is d).1)) xs
    new-IsOpen is [] d h = tt
    new-IsOpen is (x ∷ xs) d h =
        let absent : get (key, x.timer_id) d ≡ none = ground arith in
        (rw (cancel_all_absent is (key, x.timer_id) d absent) tt, new-IsOpen is xs d (ground arith))

    -- A timer that becomes terminal is one of those counted.
    pub terminals-written :
        (is : List String) (xs : List (TimerSchedule J)) (d : Dict TimerKey (Timer J))
        → any_timer key xs d ≡ false
        → terminals d + (cancel_all key is d).0
          ≡ terminals (put_timers key xs (cancel_all key is d).1)
    terminals-written is xs d h =
        let put = put_timers_counted xs (cancel_all key is d).1 (new-IsOpen is xs d h) in
        let counted = cancel_all_counted is d in omega arith
