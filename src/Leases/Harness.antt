-- ===== src/Leases/Harness.antt =====
-- `LeaseStoreHarness.exercise` of src/pytitect/leases.py, run on the in-memory store.
use pytitect.Prelude.{
  ℕ, ◌+◌, ◌<◌, String, not, ◌≡◌, ℕ_eq, String_eq, suc, zero, arith, leb, ◌==◌, Action, Result, ok,
  err, assertion_error, ◌>>=◌, ◌>>◌, pure, raise, raise_if, gets, utc, Timedelta, pos, is_some,
}
use pytitect.Prelude.Dict.{get, put, pop}
use pytitect.Leases.{
  Lease, LeaseStore, AcquireResult, lease_acquired, lease_busy, RenewResult, lease_renewed,
  ReleaseResult, lease_released, acquire, renew, release, authority, new,
}

abbrev minute : Timedelta
minute = pos 60000000

-- `if not isinstance(x, LeaseAcquired): raise AssertionError`, and so for the other results
expect_acquired : AcquireResult String → Action (LeaseStore String) (Lease String)
expect_acquired (lease_acquired l) = pure l
expect_acquired (lease_busy o t) = raise assertion_error

expect_busy : AcquireResult String → Action (LeaseStore String) Unit
expect_busy (lease_acquired l) = raise assertion_error
expect_busy (lease_busy o t) = pure tt

expect_renewed : RenewResult String → Action (LeaseStore String) (Lease String)
expect_renewed (lease_renewed l) = pure l
expect_renewed RenewResult.stale_lease = raise assertion_error

expect_stale : ReleaseResult → Action (LeaseStore String) Unit
expect_stale lease_released = raise assertion_error
expect_stale ReleaseResult.stale_lease = pure tt

expect_released : ReleaseResult → Action (LeaseStore String) Unit
expect_released lease_released = pure tt
expect_released ReleaseResult.stale_lease = raise assertion_error

unfoldable pub exercise : ℕ → Action (LeaseStore String) Unit
unfolding expect_acquired expect_busy expect_renewed expect_stale expect_released
exercise now = do
  let renewed_at = utc (now + 1000000)
  first ← acquire "resource" "one" (utc now) minute
  first_lease ← expect_acquired first
  raise_if (not (first_lease.fencing_token == 1)) assertion_error
  busy ← acquire "resource" "two" (utc now) minute
  expect_busy busy
  renewed ← renew first_lease renewed_at minute
  renewed_lease ← expect_renewed renewed
  snapshot ← release first_lease renewed_at
  expect_stale snapshot
  released ← release renewed_lease renewed_at
  expect_released released
  active ← gets (authority "resource")
  raise_if (is_some active) assertion_error
  takeover ← acquire "resource" "two" renewed_at minute
  takeover_lease ← expect_acquired takeover
  raise_if (leb takeover_lease.fencing_token renewed_lease.fencing_token) assertion_error

-- `LeaseStoreHarness(factory).exercise(now=now)`
unfoldable pub exercise_factory : Result (LeaseStore String) → ℕ → Result (Unit {0})
unfolding exercise
exercise_factory (err e) now = err e
exercise_factory (ok s) now = (exercise now s).0

-- The in-memory store meets the contract that the harness states, at every time and with every
-- positive capacity.
pub lease_exercise_passes :
    (capacity now : ℕ) → 0 < capacity → exercise_factory (new capacity) now ≡ ok tt
unfolding exercise_factory acquire renew release authority new get put pop
lease_exercise_passes zero now h = absurd (omega arith)
lease_exercise_passes (suc c) now h = ground arith
