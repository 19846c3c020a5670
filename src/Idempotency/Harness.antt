-- ===== src/Idempotency/Harness.antt =====
-- `IdempotencyStoreHarness.exercise` of src/pytitect/idempotency.py, run on the in-memory store.
-- The two fingerprints and the tokens that `uuid4` gives are arguments.
use pytitect.Prelude.{
  ℕ, zero, suc, ◌+◌, ◌≤◌, String, Bool, true, false, not, ◌≡◌, Option, some, none, [], ◌∷◌, Eq,
  ◌==◌, String_eq, option_eq, arith, Action, Result, ok, err, assertion_error, ◌>>=◌, ◌>>◌,
  raise_if, raise, pure, utc, Timedelta, pos,
}
use pytitect.Prelude.Dict.{Dict, get, put, pop, move_to_end}
use pytitect.Idempotency.Types.{
  IdempotencyScope, scope_eq, Identity, identity_eq, IdempotencyDecision, execute, replay, conflict,
  in_progress, RenewReservationResult, reservation_renewed, CompleteReservationResult,
  reservation_completed, MarkUncertainResult, reservation_marked_uncertain,
  AbandonReservationResult, reservation_abandoned, Entry, EntryState, Store, new,
}
use pytitect.Idempotency.Reserve.{reserve}
use pytitect.Idempotency.Settle.{renew, complete, mark_uncertain, abandon}

abbrev pub lease_ttl : Timedelta
lease_ttl = pos 60000000

abbrev pub retention_ttl : Timedelta
retention_ttl = pos 3600000000

abbrev pub test_scope : IdempotencyScope
test_scope = record { namespace = "test"; subject = "subject"; operation = "operation" }

abbrev pub is_renewed : RenewReservationResult → Bool
is_renewed (reservation_renewed t) = true
is_renewed RenewReservationResult.stale_reservation = false

abbrev pub is_completed : CompleteReservationResult → Bool
is_completed (reservation_completed t) = true
is_completed CompleteReservationResult.stale_reservation = false

abbrev pub is_marked : MarkUncertainResult → Bool
is_marked (reservation_marked_uncertain t) = true
is_marked MarkUncertainResult.stale_reservation = false

abbrev pub is_abandoned : AbandonReservationResult → Bool
is_abandoned reservation_abandoned = true
is_abandoned AbandonReservationResult.stale_reservation = false

abbrev key : String → Identity
key k = (test_scope, k)

module _ {T : Type 0} ⦃e : Eq T⦄ where
  -- `isinstance` of a decision
  abbrev pub expect_execute : IdempotencyDecision T → Action (Store T) String
  expect_execute (execute token) = pure token
  expect_execute _ = raise assertion_error

  abbrev pub is_in_progress : IdempotencyDecision T → Bool
  is_in_progress (in_progress t) = true
  is_in_progress _ = false

  abbrev pub is_conflict : IdempotencyDecision T → Bool
  is_conflict conflict = true
  is_conflict _ = false

  abbrev pub is_uncertain : IdempotencyDecision T → Bool
  is_uncertain (IdempotencyDecision.uncertain reason) = true
  is_uncertain _ = false

  abbrev pub replays : T → IdempotencyDecision T → Bool
  replays value (replay v) = v == some value
  replays value _ = false

  abbrev pub expect : Bool → Action (Store T) (Unit {0})
  expect test = raise_if (not test) assertion_error

  -- A reservation is exclusive, renews, completes and replays.
  unfoldable pub exercise_replay : T → ℕ → String → String → String → Action (Store T) (Unit {0})
  exercise_replay value now first different fresh = do
    decision ← reserve test_scope "consumer-key" first (utc now) lease_ttl fresh
    token ← expect_execute decision
    concurrent ← reserve test_scope "consumer-key" first (utc now) lease_ttl fresh
    expect (is_in_progress concurrent)
    conflicting ← reserve test_scope "consumer-key" different (utc now) lease_ttl fresh
    expect (is_conflict conflicting)
    renewed ← renew token (utc (now + 1000000)) lease_ttl
    expect (is_renewed renewed)
    done ← complete token value (utc (now + 1000000)) retention_ttl
    expect (is_completed done)
    replayed ← reserve test_scope "consumer-key" first (utc (now + 60000000)) lease_ttl fresh
    expect (replays value replayed)

  -- An uncertain outcome is retained.
  unfoldable pub exercise_uncertain : ℕ → String → String → Action (Store T) (Unit {0})
  exercise_uncertain now first fresh = do
    decision ← reserve test_scope "uncertain" first (utc now) lease_ttl fresh
    token ← expect_execute decision
    marked ← mark_uncertain token "outcome unknown" (utc now) retention_ttl
    expect (is_marked marked)
    retained ← reserve test_scope "uncertain" first (utc now) lease_ttl fresh
    expect (is_uncertain retained)

  -- An abandoned identity can be reserved again.
  unfoldable pub exercise_abandon : ℕ → String → String → String → Action (Store T) (Unit {0})
  exercise_abandon now first fresh fresh' = do
    decision ← reserve test_scope "abandoned" first (utc now) lease_ttl fresh
    token ← expect_execute decision
    dropped ← abandon token (utc now)
    expect (is_abandoned dropped)
    again ← reserve test_scope "abandoned" first (utc now) lease_ttl fresh'
    token' ← expect_execute again
    pure tt

  -- An expired reservation is replaced.
  unfoldable pub exercise_expiry : ℕ → String → String → String → Action (Store T) (Unit {0})
  exercise_expiry now first fresh fresh' = do
    expiring ← reserve test_scope "expiring" first (utc now) lease_ttl fresh
    token ← expect_execute expiring
    replacement ← reserve test_scope "expiring" first (utc (now + 60000000)) lease_ttl fresh'
    token' ← expect_execute replacement
    raise_if (token' == token) assertion_error

  unfoldable pub exercise :
      T
      → ℕ
      → String
      → String
      → String × String × String × String × String × String
      → Action (Store T) (Unit {0})
  unfolding exercise_replay exercise_uncertain exercise_abandon exercise_expiry
  exercise value now first different (a, b, c, d, f, g) = do
    exercise_replay value now first different a
    exercise_uncertain now first b
    exercise_abandon now first c d
    exercise_expiry now first f g

  -- `IdempotencyStoreHarness(factory).exercise(value=value, now=now)`
  unfoldable pub exercise_factory :
      Result (Store T)
      → T
      → ℕ
      → String
      → String
      → String × String × String × String × String × String
      → Result (Unit {0})
  unfolding exercise
  exercise_factory (err x) value now first different fresh = err x
  exercise_factory (ok s) value now first different fresh =
      (exercise value now first different fresh s).0

  -- The states that the run passes through.
  abbrev entry : String → ℕ → EntryState → Option T → Option String → Entry T
  entry token expires_at state value reason = record {
    token = token;
    fingerprint = "f1";
    expires_at = expires_at;
    state = state;
    value = value;
    reason = reason;
  }

  abbrev done : T → ℕ → Identity × Entry T
  done value now = (
    key "consumer-key",
    entry "t1" (now + 1000000 + 3600000000) EntryState.completed (some value) none,
  )

  abbrev lost : ℕ → Identity × Entry T
  lost now = (
    key "uncertain",
    entry "t2" (now + 3600000000) EntryState.uncertain none (some "outcome unknown"),
  )

  abbrev again : ℕ → Identity × Entry T
  again now = (key "abandoned", entry "t4" (now + 60000000) EntryState.reserved none none)

  abbrev store : ℕ → Dict Identity (Entry T) → Dict String Identity → Store T
  store c entries tokens = record { capacity = c; entries = entries; tokens = tokens }

  abbrev one : T → ℕ → ℕ → Store T
  one value now c = store c (done value now ∷ []) (("t1", key "consumer-key") ∷ [])

  abbrev two : T → ℕ → ℕ → Store T
  two value now c =
      store c (done value now ∷ lost now ∷ [])
        (("t1", key "consumer-key") ∷ ("t2", key "uncertain") ∷ [])

  abbrev three : T → ℕ → ℕ → Store T
  three value now c =
      store c (done value now ∷ lost now ∷ again now ∷ [])
        (("t1", key "consumer-key") ∷ ("t2", key "uncertain") ∷ ("t4", key "abandoned") ∷ [])

  replay_run :
      (value : T) (now c : ℕ)
      → 4 ≤ c
      → exercise_replay value now "f1" "f2" "t1" (store c [] []) ≡ (ok tt, one value now c)
  unfolding exercise_replay reserve renew complete get put move_to_end
  replay_run value now c room = ground (arith, e.beq_iff value value)

  uncertain_run :
      (value : T) (now c : ℕ)
      → 4 ≤ c
      → exercise_uncertain now "f1" "t2" (one value now c) ≡ (ok tt, two value now c)
  unfolding exercise_uncertain reserve mark_uncertain get put move_to_end
  uncertain_run value now c room = ground arith

  abandon_run :
      (value : T) (now c : ℕ)
      → 4 ≤ c
      → exercise_abandon now "f1" "t3" "t4" (two value now c) ≡ (ok tt, three value now c)
  unfolding exercise_abandon reserve abandon get put pop
  abandon_run value now c room = ground arith

  expiry_run :
      (value : T) (now c : ℕ)
      → 4 ≤ c
      → (exercise_expiry now "f1" "t5" "t6" (three value now c)).0 ≡ ok tt
  unfolding exercise_expiry reserve get put pop
  expiry_run value now c room = ground arith

  -- The in-memory store meets the contract that the harness states, for every value and time and
  -- with room for four reservations, where `uuid4` gives six different tokens and the two requests
  -- have different fingerprints: the tokens are t1 to t6, the fingerprints f1 and f2.
  pub idempotency_exercise_passes :
      (capacity now : ℕ) (value : T)
      → 4 ≤ capacity
      → exercise_factory (new capacity) value now "f1" "f2" ("t1", "t2", "t3", "t4", "t5", "t6")
        ≡ ok tt
  unfolding exercise_factory new
  idempotency_exercise_passes zero now value room = absurd (omega arith)
  idempotency_exercise_passes (suc c) now value room = ground (
    arith,
    replay_run value now (suc c) room,
    uncertain_run value now (suc c) room,
    abandon_run value now (suc c) room,
    expiry_run value now (suc c) room,
  )
