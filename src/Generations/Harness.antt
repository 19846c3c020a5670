-- ===== src/Generations/Harness.antt =====
-- `GenerationStoreHarness.exercise` of src/pytitect/sync/generations.py, run on the in-memory store.
use pytitect.Prelude.{
  ℕ, zero, suc, ◌<◌, not, ◌≡◌, some, none, ◌==◌, String_eq, ℕ_eq, option_eq, arith, is_some, Action,
  Result, ok, err, assertion_error, ◌>>=◌, ◌>>◌, raise_if,
}
use pytitect.Prelude.Dict.{get, put}
use pytitect.Generations.{GenerationStore, load_for_update, compare_and_set, new}

unfoldable pub exercise : Action GenerationStore (Unit {0})
exercise = do
  absent ← load_for_update "dataset" "partition"
  raise_if (is_some absent) assertion_error
  created ← compare_and_set "dataset" "partition" none 1
  raise_if (not created) assertion_error
  stale ← compare_and_set "dataset" "partition" none 2
  raise_if stale assertion_error
  loaded ← load_for_update "dataset" "partition"
  raise_if (not (loaded == some 1)) assertion_error
  moved ← compare_and_set "dataset" "partition" (some 1) 2
  raise_if (not moved) assertion_error
  durable ← load_for_update "dataset" "partition"
  raise_if (not (durable == some 2)) assertion_error

-- `GenerationStoreHarness(factory).exercise()`
unfoldable pub exercise_factory : Result GenerationStore → Result (Unit {0})
unfolding exercise
exercise_factory (err e) = err e
exercise_factory (ok s) = (exercise s).0

-- The in-memory store meets the contract that the harness states, with every positive capacity.
pub generation_exercise_passes :
    (capacity : ℕ) → 0 < capacity → exercise_factory (new capacity) ≡ ok tt
unfolding exercise_factory load_for_update compare_and_set new get put
generation_exercise_passes zero h = absurd (omega arith)
generation_exercise_passes (suc c) h = ground arith
