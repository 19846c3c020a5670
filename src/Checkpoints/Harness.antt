-- ===== src/Checkpoints/Harness.antt =====
-- `CheckpointStoreHarness.exercise` of src/pytitect/checkpoints.py, run on the in-memory store.
use pytitect.Prelude.{
  ℕ, zero, suc, ◌<◌, String, ◌||◌, not, ◌≡◌, some, none, ◌==◌, String_eq, option_eq, arith, is_some,
  Action, Result, ok, err, assertion_error, ◌>>=◌, ◌>>◌, raise_if,
}
use pytitect.Prelude.Dict.{get, put}
use pytitect.Checkpoints.Store.{CheckpointStore, load, advance, new}

unfoldable pub exercise : Action (CheckpointStore String) (Unit {0})
exercise = do
  absent ← load "stream"
  absent_for_update ← load "stream"
  raise_if (is_some absent || is_some absent_for_update) assertion_error
  created ← advance "stream" none "one"
  raise_if (not created) assertion_error
  loaded ← load "stream"
  loaded_for_update ← load "stream"
  raise_if (not (loaded == some "one") || not (loaded_for_update == some "one")) assertion_error
  stale ← advance "stream" none "two"
  raise_if stale assertion_error
  moved ← advance "stream" (some "one") "two"
  raise_if (not moved) assertion_error
  durable ← load "stream"
  raise_if (not (durable == some "two")) assertion_error

-- `CheckpointStoreHarness(factory).exercise()`
unfoldable pub exercise_factory : Result (CheckpointStore String) → Result (Unit {0})
unfolding exercise
exercise_factory (err e) = err e
exercise_factory (ok s) = (exercise s).0

-- The in-memory store meets the contract that the harness states, with every positive capacity.
pub checkpoint_exercise_passes :
    (capacity : ℕ) → 0 < capacity → exercise_factory (new capacity) ≡ ok tt
unfolding exercise_factory load advance new get put
checkpoint_exercise_passes zero h = absurd (omega arith)
checkpoint_exercise_passes (suc c) h = ground arith
