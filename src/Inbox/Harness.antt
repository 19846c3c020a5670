-- ===== src/Inbox/Harness.antt =====
-- `InboxStoreHarness.exercise` of src/pytitect/inbox.py, run on the in-memory store.
use pytitect.Prelude.{
  ℕ, zero, suc, ◌+◌, ◌≤◌, String, Bool, true, false, not, ◌≡◌, String_eq, arith, Action, Result, ok,
  err, assertion_error, ◌>>=◌, ◌>>◌, raise_if, utc, Timedelta, pos,
}
use pytitect.Prelude.{Option, none, some, [], ◌∷◌}
use pytitect.Prelude.Dict.{Dict, get, put, pop}
use pytitect.Inbox.{
  InboxScope, Identity, InboxEntry, InboxStore, InboxDecision, inbox_accepted, inbox_duplicate,
  inbox_in_progress, begin, complete, abandon, new,
}

abbrev minute : Timedelta
minute = pos 60000000

abbrev is_accepted : InboxDecision → Bool
is_accepted (inbox_accepted token) = true
is_accepted _ = false

abbrev is_in_progress : InboxDecision → Bool
is_in_progress (inbox_in_progress t) = true
is_in_progress _ = false

abbrev is_duplicate : InboxDecision → Bool
is_duplicate (inbox_duplicate t) = true
is_duplicate _ = false

-- `if not check: raise AssertionError(...)`
abbrev expect : Bool → Action InboxStore (Unit {0})
expect b = raise_if (not b) assertion_error

abbrev scope_a : InboxScope
scope_a = record { namespace = "test"; source = "source"; consumer = "consumer-a" }

abbrev scope_b : InboxScope
scope_b = record { namespace = "test"; source = "source"; consumer = "consumer-b" }

unfoldable pub exercise : ℕ → Action InboxStore (Unit {0})
exercise now = do
  accepted ← begin scope_a "message" "one" (utc now) minute
  expect (is_accepted accepted)
  active ← begin scope_a "message" "two" (utc now) minute
  expect (is_in_progress active)
  isolated ← begin scope_b "message" "other" (utc now) minute
  expect (is_accepted isolated)
  wrong ← complete scope_a "message" "wrong" (utc now)
  expect (not wrong)
  done ← complete scope_a "message" "one" (utc now)
  expect done
  repeated ← begin scope_a "message" "three" (utc now) minute
  expect (is_duplicate repeated)
  undone ← abandon scope_a "message" "one"
  expect (not undone)
  first ← begin scope_a "expiring" "old" (utc now) minute
  expect (is_accepted first)
  resumed ← begin scope_a "expiring" "new" (utc (now + 60000000)) minute
  expect (is_accepted resumed)
  stale ← abandon scope_a "expiring" "old"
  expect (not stale)
  dropped ← abandon scope_a "expiring" "new"
  expect dropped

-- `InboxStoreHarness(factory).exercise(now=now)`
unfoldable pub exercise_factory : Result InboxStore → ℕ → Result (Unit {0})
unfolding exercise
exercise_factory (err e) now = err e
exercise_factory (ok s) now = (exercise now s).0

-- The states that the run passes through.
abbrev store : ℕ → Dict Identity InboxEntry → InboxStore
store c entries = record { capacity = c; entries = entries }

abbrev entry : String → ℕ → Option ℕ → InboxEntry
entry token expires_at completed_at = record {
  token = token;
  expires_at = expires_at;
  completed_at = completed_at;
}

abbrev open_one : ℕ → Dict Identity InboxEntry
open_one now = ((scope_a, "message"), entry "one" (now + 60000000) none) ∷ []

abbrev open_two : Option ℕ → ℕ → Dict Identity InboxEntry
open_two done now =
    ((scope_a, "message"), entry "one" (now + 60000000) done)
    ∷ ((scope_b, "message"), entry "other" (now + 60000000) none)
    ∷ []

abbrev open_three : String → ℕ → ℕ → Dict Identity InboxEntry
open_three token end now =
    ((scope_a, "message"), entry "one" (now + 60000000) (some now))
    ∷ ((scope_b, "message"), entry "other" (now + 60000000) none)
    ∷ ((scope_a, "expiring"), entry token end none)
    ∷ []

module _ (c now : ℕ) (room : 3 ≤ c) where
  step_accepted :
      begin scope_a "message" "one" (utc now) minute (store c [])
      ≡ (ok (inbox_accepted "one"), store c (open_one now))
  unfolding begin get put
  step_accepted = ground arith

  step_active :
      begin scope_a "message" "two" (utc now) minute (store c (open_one now))
      ≡ (ok (inbox_in_progress (now + 60000000)), store c (open_one now))
  unfolding begin get
  step_active = ground arith

  step_isolated :
      begin scope_b "message" "other" (utc now) minute (store c (open_one now))
      ≡ (ok (inbox_accepted "other"), store c (open_two none now))
  unfolding begin get put
  step_isolated = ground arith

  step_wrong :
      complete scope_a "message" "wrong" (utc now) (store c (open_two none now))
      ≡ (ok false, store c (open_two none now))
  unfolding complete get
  step_wrong = ground arith

  step_done :
      complete scope_a "message" "one" (utc now) (store c (open_two none now))
      ≡ (ok true, store c (open_two (some now) now))
  unfolding complete get put
  step_done = ground arith

  step_repeated :
      begin scope_a "message" "three" (utc now) minute (store c (open_two (some now) now))
      ≡ (ok (inbox_duplicate now), store c (open_two (some now) now))
  unfolding begin get
  step_repeated = ground arith

  step_undone :
      abandon scope_a "message" "one" (store c (open_two (some now) now))
      ≡ (ok false, store c (open_two (some now) now))
  unfolding abandon get
  step_undone = ground arith

  step_first :
      begin scope_a "expiring" "old" (utc now) minute (store c (open_two (some now) now))
      ≡ (ok (inbox_accepted "old"), store c (open_three "old" (now + 60000000) now))
  unfolding begin get put
  step_first = ground arith

  step_resumed :
      begin scope_a "expiring" "new"
        (utc (now + 60000000))
        minute
        (store c (open_three "old" (now + 60000000) now))
      ≡ (ok (inbox_accepted "new"), store c (open_three "new" (now + 60000000 + 60000000) now))
  unfolding begin get put pop
  step_resumed = ground arith

  step_stale :
      abandon scope_a "expiring" "old" (store c (open_three "new" (now + 60000000 + 60000000) now))
      ≡ (ok false, store c (open_three "new" (now + 60000000 + 60000000) now))
  unfolding abandon get
  step_stale = ground arith

  step_dropped :
      abandon scope_a "expiring" "new" (store c (open_three "new" (now + 60000000 + 60000000) now))
      ≡ (ok true, store c (open_two (some now) now))
  unfolding abandon get pop
  step_dropped = ground arith

  exercise_run : (exercise now (store c [])).0 ≡ ok tt
  unfolding exercise
  exercise_run = ground (
    arith, step_accepted, step_active, step_isolated, step_wrong, step_done, step_repeated,
    step_undone, step_first, step_resumed, step_stale, step_dropped,
  )

-- The in-memory store meets the contract that the harness states, at every time and with room for
-- at least three messages.
pub inbox_exercise_passes :
    (capacity now : ℕ) → 3 ≤ capacity → exercise_factory (new capacity) now ≡ ok tt
unfolding exercise_factory new
inbox_exercise_passes zero now h = absurd (omega arith)
inbox_exercise_passes (suc c) now h = ground (arith, exercise_run (suc c) now h)
