-- ===== src/Projections/Runtime.antt =====
-- `ProjectionRuntime` of src/pytitect/projections.py, over the in-memory stores. Between its calls
-- of the stores no other thread runs here. The reducer may raise.
use pytitect.Prelude.{
  ℕ, String, Bool, true, false, ◌&&◌, not, Option, none, some, List, [], ◌∷◌, leb, if◌then◌else◌,
  filter, ◌==◌, ℕ_eq, String_eq, Action, Result, ok, err, value_error, lookup_error, runtime_error,
}
use pytitect.Prelude.Dict.{get}
use pytitect.EventSourcing.Store.{StoredEvent, EventStore, EventPage, read_all, last_position}
use pytitect.Projections.Store.{
  ProjectionKey, key_eq, ProjectionState, ProjectionApplyResult, projection_version_mismatch,
  RebuildRun, is_running, ProjectionStore, apply, advance_rebuild, checkpoint_of,
}

pub record ProjectionDefinition (J P : Type 0) : Type 0 where
  pub version : ℕ
  pub initial_state : J
  pub reduce : J → StoredEvent P → Result J

abbrev pub is_none : {P : Type 0} → List (StoredEvent P) → Bool
is_none [] = true
is_none (event ∷ events) = false

abbrev pub advance_or_raise : {J : Type 0} → Result (Option (RebuildRun J)) → Result (RebuildRun J)
advance_or_raise (err e) = err e
advance_or_raise (ok none) = err runtime_error
advance_or_raise (ok (some advanced)) = ok advanced

module _ {J P : Type 0} where
  -- The check of `ProjectionDefinition(...)`
  unfoldable pub projection_definition :
      ProjectionDefinition J P → Result (ProjectionDefinition J P)
  projection_definition definition =
      if definition.version == 0 then err value_error else ok definition

  -- `for event in events: state = definition.reduce(state, event)`
  unfoldable pub reduce_all : ProjectionDefinition J P → List (StoredEvent P) → J → Result J
  reduce_all definition [] state = ok state
  reduce_all definition (event ∷ events) state = elim (definition.reduce state event) [
    | err e ↦ err e
    | ok next ↦ reduce_all definition events next
  ]

  abbrev pub state_of : ProjectionDefinition J P → Option (ProjectionState J) → J
  state_of definition none = definition.initial_state
  state_of definition (some current) = current.state

  -- Where there is a state of another version, that version.
  abbrev pub other_version : ProjectionDefinition J P → Option (ProjectionState J) → Option ℕ
  other_version definition none = none
  other_version definition (some current) =
      if current.version == definition.version then none else some current.version

  abbrev pub apply_reduced :
      ProjectionKey
      → ℕ
      → ℕ
      → List (StoredEvent P)
      → Result J
      → Action (ProjectionStore J) (ProjectionApplyResult J)
  apply_reduced key checkpoint version events (err e) s = (err e, s)
  apply_reduced key checkpoint version events (ok state) s =
      apply key checkpoint version state events s

  unfoldable pub project_page :
      ProjectionKey
      → ProjectionDefinition J P
      → Result (EventPage P)
      → Action (ProjectionStore J) (ProjectionApplyResult J)
  unfolding reduce_all apply
  project_page key definition (err e) s = (err e, s)
  project_page key definition (ok page) s =
      let current = get key s.states in
      apply_reduced key (checkpoint_of current) definition.version page.events
        (reduce_all definition page.events (state_of definition current)) s

  unfoldable pub project_unless :
      Option ℕ
      → ProjectionKey
      → ProjectionDefinition J P
      → ℕ
      → EventStore P
      → Action (ProjectionStore J) (ProjectionApplyResult J)
  unfolding project_page
  project_unless (some actual) key definition limit events s =
      (ok (projection_version_mismatch definition.version actual), s)
  project_unless none key definition limit events s =
      project_page key definition (read_all (checkpoint_of (get key s.states)) limit events) s

  -- `project_once(key, definition, limit=...)`
  unfoldable pub project_once :
      ProjectionKey
      → ProjectionDefinition J P
      → ℕ
      → EventStore P
      → Action (ProjectionStore J) (ProjectionApplyResult J)
  unfolding project_unless
  project_once key definition limit events s =
      project_unless (other_version definition (get key s.states)) key definition limit events s

  -- The end of `resume_rebuild`, from the selected events on.
  unfoldable pub advance_reduced :
      RebuildRun J
      → String
      → List (StoredEvent P)
      → Result J
      → Action (ProjectionStore J) (RebuildRun J)
  unfolding advance_rebuild
  advance_reduced run run_id selected (err e) s = (err e, s)
  advance_reduced run run_id selected (ok state) s =
      let next_position = last_position run.next_position selected in
      let complete = next_position == run.through_position in
      let r = advance_rebuild run_id run.next_position state next_position complete s in
      if is_none selected && not complete
      then (err runtime_error, s)
      else (advance_or_raise r.0, r.1)

  -- `tuple(event for event in page.events if event.global_position <= run.through_position)`
  abbrev pub selected_of : RebuildRun J → EventPage P → List (StoredEvent P)
  selected_of run page =
      filter (λ (e : StoredEvent P). leb e.global_position run.through_position) page.events

  unfoldable pub resume_page :
      RebuildRun J
      → String
      → ProjectionDefinition J P
      → Result (EventPage P)
      → Action (ProjectionStore J) (RebuildRun J)
  unfolding reduce_all advance_reduced
  resume_page run run_id definition (err e) s = (err e, s)
  resume_page run run_id definition (ok page) s =
      advance_reduced run run_id (selected_of run page)
        (reduce_all definition (selected_of run page) run.state) s

  unfoldable pub resume_found :
      Option (RebuildRun J)
      → String
      → ProjectionDefinition J P
      → EventStore P
      → Action (ProjectionStore J) (RebuildRun J)
  unfolding resume_page
  resume_found none run_id definition events s = (err lookup_error, s)
  resume_found (some run) run_id definition events s =
      if not (run.projection_version == definition.version)
      then (err value_error, s)
      else if not (is_running run.status)
      then (ok run, s)
      else resume_page run run_id definition (read_all run.next_position run.batch_size events) s

  -- `resume_rebuild(run_id, definition)`
  unfoldable pub resume_rebuild :
      String → ProjectionDefinition J P → EventStore P → Action (ProjectionStore J) (RebuildRun J)
  unfolding resume_found
  resume_rebuild run_id definition events s =
      resume_found (get run_id s.rebuilds) run_id definition events s
