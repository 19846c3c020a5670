-- ===== src/Projections/Interleaved.antt =====
-- Projections with appends in between: the composition of src/pytitect/projections.py with
-- src/pytitect/event_sourcing.py.
use mathlib.Core.List.{append-nil}
use pytitect.Prelude.{
  ℕ, String, Bool, ◌≡◌, refl, sym, Option, none, some, List, [], ◌∷◌, ◌++◌, if_either, not, ltb,
  length, ◌==◌, ℕ_eq, ◌+◌, String_eq, option_eq, Result,
}
use pytitect.Prelude.Sets.{to_set}
use pytitect.Prelude.Dict.{get, elem}
use pytitect.EventSourcing.Store
use pytitect.EventSourcing.Store.{
  StreamId, stream_eq, NewEvent, StoredEvent, EventStore, AppendResult, Snapshot, append,
  append_locked, store_unless_known, store_events, save_snapshot, history, stamp, identifiers, find,
  is_empty,
}
use pytitect.EventSourcing.Pages.{Numbered}
use pytitect.EventSourcing.Positions.{Call, perform, perform-Numbered}
use pytitect.Projections.Store.{ProjectionKey, key_eq, ProjectionStore}
use pytitect.Projections.Runtime.{ProjectionDefinition, project_once}
use pytitect.Projections.Fold.{IsFold, IsFold-append, project_once-Kept}

module _ {P : Type 0} where
  -- A call leaves the log or makes it longer.
  abbrev Grows : EventStore P → EventStore P → Type 0
  Grows s s' = (more : List (StoredEvent P)) × (s'.all_events ≡ s.all_events ++ more)

  same_log : (s : EventStore P) → Grows s s
  same_log s = ([], sym (append-nil s.all_events))

  store_events-Grows :
      (o : Option String) (stream : StreamId) (events : List (NewEvent P)) (s : EventStore P)
      → Grows s (store_unless_known o stream events s).1
  unfolding store_events
  store_events-Grows (some i) stream events s = same_log s
  store_events-Grows none stream events s =
      if_either (λ (r : Result (AppendResult P) × EventStore P). Grows s r.1)
        (ltb s.capacity (length s.all_events + length events)) (same_log s)
        (stamp stream (length (history stream s)) (length s.all_events) events, refl)

  append-Grows :
      (stream : StreamId) (expected : ℕ) (events : List (NewEvent P)) (s : EventStore P)
      → Grows s (append stream expected events s).1
  unfolding append
  append-Grows stream expected events s =
      let G = λ (r : Result (AppendResult P) × EventStore P). Grows s r.1 in
      let ids = identifiers events in
      if_either G (is_empty events) (same_log s) (
        if_either G (not (length ids == length (to_set ids))) (same_log s) (
          if_either G (not (length (history stream s) == expected)) (same_log s)
            (store_events-Grows (find (λ i. elem i s.event_ids) ids) stream events s)))

  perform-Grows : (c : Call P) (s : EventStore P) → Grows s (perform c s)
  unfolding perform save_snapshot
  perform-Grows (Call.append stream expected events) s = append-Grows stream expected events s
  perform-Grows (Call.save_snapshot snapshot expected) s =
      let G = λ (r : Result Bool × EventStore P). Grows s r.1 in
      if_either G (not (Store.version_of (get snapshot.stream s.snapshots) == expected))
        (same_log s)
        (if_either G (ltb (length (history snapshot.stream s)) snapshot.version) (same_log s)
          (same_log s))

-- A call of the event store, or one round of the projection of a key.
pub data Step (P : Type 0) : Type 0 where
  event_call : Call P → Step P
  round : ℕ → Step P

module _ {J P : Type 0} (key : ProjectionKey) (definition : ProjectionDefinition J P) where
  unfoldable pub step : Step P → EventStore P × ProjectionStore J → EventStore P × ProjectionStore J
  unfolding project_once
  step (event_call c) (es, s) = (perform c es, s)
  step (round limit) (es, s) = (es, (project_once key definition limit es s).1)

  unfoldable pub run :
      List (Step P) → EventStore P × ProjectionStore J → EventStore P × ProjectionStore J
  unfolding step
  run [] w = w
  run (x ∷ xs) w = run xs (step x w)

  -- The log's positions are in order and the key's state is the fold over the log up to its checkpoint.
  pub record IsFolded (w : EventStore P × ProjectionStore J) : Type 0 where
    pub numbered : Numbered 0 w.0.all_events
    pub folded : IsFold definition w.0.all_events (get key w.1.states)

  step-IsFolded :
      (x : Step P) (w : EventStore P × ProjectionStore J) → IsFolded w → IsFolded (step x w)
  unfolding step
  step-IsFolded (event_call c) (es, s) f =
      let (more, e) = perform-Grows c es in
      record {
        numbered = perform-Numbered c es f.numbered;
        folded = rw e (IsFold-append definition es.all_events more (get key s.states) f.folded);
      }
  step-IsFolded (round limit) (es, s) f = record {
    numbered = f.numbered;
    folded = (project_once-Kept definition key limit es s f.numbered f.folded).0;
  }

  -- Whatever calls of the event store and rounds of the projection follow one another, the key's state
  -- is the fold of the reducer over the events up to its checkpoint, none left out and none twice.
  pub run-IsFolded :
      (xs : List (Step P)) (w : EventStore P × ProjectionStore J) → IsFolded w → IsFolded (run xs w)
  unfolding run
  run-IsFolded [] w f = f
  run-IsFolded (x ∷ xs) w f = run-IsFolded xs (step x w) (step-IsFolded x w f)
