-- ===== src/Checkpoints/Store.antt =====
-- `InMemoryCheckpointStore` of src/pytitect/checkpoints.py.
use pytitect.Prelude.{
  ℕ, String, Bool, true, false, ◌&&◌, not, Option, [], leb, if◌then◌else◌, length, Eq, ◌==◌, ℕ_eq,
  String_eq, option_eq, Action, Result, ok, err, value_error, overflow_error,
}
use pytitect.Prelude.Dict.{Dict, get, put, contains}

pub record CheckpointStore (C : Type 0) : Type 0 where
  pub capacity : ℕ
  pub stored : Dict String C

module _ {C : Type 0} ⦃e : Eq C⦄ where
  -- `load`, and `load_for_update`, which calls it
  unfoldable pub load : String → Action (CheckpointStore C) (Option C)
  load stream s = if stream == "" then (err value_error, s) else (ok (get stream s.stored), s)

  unfoldable pub advance_locked : String → Option C → C → Action (CheckpointStore C) Bool
  advance_locked stream expected checkpoint s =
      if not (get stream s.stored == expected)
      then (ok false, s)
      else if not (contains stream s.stored) && leb s.capacity (length s.stored)
      then (err overflow_error, s)
      else (ok true, record s { stored = put stream checkpoint s.stored })

  unfoldable pub advance : String → Option C → C → Action (CheckpointStore C) Bool
  unfolding advance_locked
  advance stream expected checkpoint s =
      if stream == "" then (err value_error, s) else advance_locked stream expected checkpoint s

-- `InMemoryCheckpointStore(capacity=...)`
unfoldable pub new : {C : Type 0} → ℕ → Result (CheckpointStore C)
new capacity =
    if capacity == 0 then err value_error else ok (record { capacity = capacity; stored = [] })
