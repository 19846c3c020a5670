-- ===== src/Projections/Store.antt =====
-- `InMemoryProjectionStore` of src/pytitect/projections.py. `J` stands for a projected state, a JSON
-- value, and `P` for an event's payload. Each method holds the lock from end to end.
use pytitect.Prelude.{
  ℕ, ◌+◌, String, Bool, true, false, ◌&&◌, ◌||◌, ◌≡◌, ◌↔◌, not, Option, none, some, List, [], ◌∷◌,
  ltb, leb, if◌then◌else◌, length, Eq, ◌==◌, ℕ_eq, String_eq, arith, Action, Result, ok, err,
  value_error, overflow_error,
}
use pytitect.Prelude.Dict.{Dict, get, put, contains}
use pytitect.EventSourcing.Store.{StoredEvent, last_position}

pub record ProjectionKey : Type 0 where
  pub name : String
  pub partition : String

-- `ProjectionKey(name, partition)`
unfoldable pub projection_key : String → String → Result ProjectionKey
projection_key name partition =
    if (name == "") || (partition == "")
    then err value_error
    else ok (record { name = name; partition = partition })

abbrev pub key_beq : ProjectionKey → ProjectionKey → Bool
key_beq a b = (a.name == b.name) && (a.partition == b.partition)

pub key_beq_iff : (a b : ProjectionKey) → (key_beq a b ≡ true) ↔ (a ≡ b)
key_beq_iff a b =
    ground (arith, String_eq.beq_iff a.name b.name, String_eq.beq_iff a.partition b.partition)

instance abbrev pub key_eq : Eq ProjectionKey
key_eq = record { beq = key_beq; beq_iff = key_beq_iff }

pub record ProjectionState (J : Type 0) : Type 0 where
  pub key : ProjectionKey
  pub version : ℕ
  pub checkpoint : ℕ
  pub state : J

pub data ProjectionApplyResult (J : Type 0) : Type 0 where
  projection_applied : ProjectionState J → ℕ → ProjectionApplyResult J
  stale_projection_checkpoint : ℕ → ℕ → ProjectionApplyResult J
  projection_version_mismatch : ℕ → ℕ → ProjectionApplyResult J

pub data RebuildStatus : Type 0 where
  running completed : RebuildStatus

abbrev pub is_running : RebuildStatus → Bool
is_running running = true
is_running completed = false

pub record RebuildRun (J : Type 0) : Type 0 where
  pub run_id : String
  pub key : ProjectionKey
  pub projection_version : ℕ
  pub through_position : ℕ
  pub batch_size : ℕ
  pub next_position : ℕ
  pub state : J
  pub status : RebuildStatus

-- The checks of `RebuildRun(...)`
unfoldable pub rebuild_run : {J : Type 0} → RebuildRun J → Result (RebuildRun J)
rebuild_run run =
    if (run.run_id == "") || (run.projection_version == 0)
    then err value_error
    else if ltb run.through_position run.next_position || (run.batch_size == 0)
    then err value_error
    else ok run

pub record ProjectionStore (J : Type 0) : Type 0 where
  pub capacity : ℕ
  pub states : Dict ProjectionKey (ProjectionState J)
  pub rebuilds : Dict String (RebuildRun J)

-- `InMemoryProjectionStore(capacity=...)`
unfoldable pub new : {J : Type 0} → ℕ → Result (ProjectionStore J)
new capacity =
    if capacity == 0
    then err value_error
    else ok (record { capacity = capacity; states = []; rebuilds = [] })

-- Some event is not later than the one before it; the first comes after a position.
abbrev pub is_unordered : {P : Type 0} → ℕ → List (StoredEvent P) → Bool
is_unordered position [] = false
is_unordered position (e ∷ es) = leb e.global_position position || is_unordered e.global_position es

-- `any(later <= earlier for earlier, later in pairwise(events))`
abbrev pub any_unordered : {P : Type 0} → List (StoredEvent P) → Bool
any_unordered [] = false
any_unordered (e ∷ es) = is_unordered e.global_position es

-- `events and events[0].global_position <= expected_checkpoint`
abbrev pub regresses : {P : Type 0} → ℕ → List (StoredEvent P) → Bool
regresses expected [] = false
regresses expected (e ∷ es) = leb e.global_position expected

abbrev pub checkpoint_of : {J : Type 0} → Option (ProjectionState J) → ℕ
checkpoint_of none = 0
checkpoint_of (some current) = current.checkpoint

module _ {J P : Type 0} where
  -- The end of `apply`: the state is stored.
  unfoldable pub project :
      ProjectionKey
      → ℕ
      → ℕ
      → J
      → List (StoredEvent P)
      → Action (ProjectionStore J) (ProjectionApplyResult J)
  project key expected version state events s =
      let projected : ProjectionState J = record {
        key = key;
        version = version;
        checkpoint = last_position expected events;
        state = state;
      } in
      (
        ok (projection_applied projected (length events)),
        record s { states = put key projected s.states },
      )

  -- The part of `apply` after the checkpoint has been compared.
  unfoldable pub apply_current :
      Option (ProjectionState J)
      → ProjectionKey
      → ℕ
      → ℕ
      → J
      → List (StoredEvent P)
      → Action (ProjectionStore J) (ProjectionApplyResult J)
  unfolding project
  apply_current none key expected version state events s =
      if leb s.capacity (length s.states)
      then (err overflow_error, s)
      else project key expected version state events s
  apply_current (some current) key expected version state events s =
      if not (current.version == version)
      then (ok (projection_version_mismatch version current.version), s)
      else project key expected version state events s

  unfoldable pub apply :
      ProjectionKey
      → ℕ
      → ℕ
      → J
      → List (StoredEvent P)
      → Action (ProjectionStore J) (ProjectionApplyResult J)
  unfolding apply_current
  apply key expected version state events s =
      let current = get key s.states in
      if version == 0
      then (err value_error, s)
      else if any_unordered events
      then (err value_error, s)
      else if regresses expected events
      then (err value_error, s)
      else if not (checkpoint_of current == expected)
      then (ok (stale_projection_checkpoint expected (checkpoint_of current)), s)
      else apply_current current key expected version state events s

module _ {J : Type 0} where
  unfoldable pub begin_rebuild : RebuildRun J → Action (ProjectionStore J) Bool
  begin_rebuild run s =
      if contains run.run_id s.rebuilds
      then (ok false, s)
      else if leb s.capacity (length s.states + length s.rebuilds)
      then (err overflow_error, s)
      else (ok true, record s { rebuilds = put run.run_id run s.rebuilds })

  -- The active state is ahead of the rebuild.
  abbrev pub is_ahead : Option (ProjectionState J) → ℕ → ℕ → Bool
  is_ahead none next_position version = false
  is_ahead (some active) next_position version =
      ltb next_position active.checkpoint || ltb version active.version

  abbrev pub advanced_run : RebuildRun J → J → ℕ → Bool → RebuildRun J
  advanced_run current state next_position complete = record current {
    state = state;
    next_position = next_position;
    status = if complete then completed else running;
  }

  abbrev pub rebuilt : RebuildRun J → J → ℕ → ProjectionState J
  rebuilt current state next_position = record {
    key = current.key;
    version = current.projection_version;
    checkpoint = next_position;
    state = state;
  }

  -- `advance_rebuild` of a run that is there
  unfoldable pub advance_found :
      RebuildRun J → String → ℕ → J → ℕ → Bool → Action (ProjectionStore J) (Option (RebuildRun J))
  advance_found current run_id expected state next_position complete s =
      let advanced = advanced_run current state next_position complete in
      if not (is_running current.status) || not (current.next_position == expected)
      then (ok none, s)
      else if ltb next_position current.next_position
          || ltb current.through_position next_position
          || not (
              if complete
              then next_position == current.through_position
              else not (next_position == current.through_position))
      then (err value_error, s)
      else if complete
          && is_ahead (get current.key s.states) next_position current.projection_version
      then (ok none, s)
      else (
        ok (some advanced),
        record s {
          rebuilds = put run_id advanced s.rebuilds;
          states =
              if complete
              then put current.key (rebuilt current state next_position) s.states
              else s.states;
        },
      )

  abbrev pub advance_if_found :
      Option (RebuildRun J)
      → String
      → ℕ
      → J
      → ℕ
      → Bool
      → Action (ProjectionStore J) (Option (RebuildRun J))
  advance_if_found none run_id expected state next_position complete s = (ok none, s)
  advance_if_found (some current) run_id expected state next_position complete s =
      advance_found current run_id expected state next_position complete s

  unfoldable pub advance_rebuild :
      String → ℕ → J → ℕ → Bool → Action (ProjectionStore J) (Option (RebuildRun J))
  unfolding advance_found
  advance_rebuild run_id expected state next_position complete s =
      advance_if_found (get run_id s.rebuilds) run_id expected state next_position complete s
