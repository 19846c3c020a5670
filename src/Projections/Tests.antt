-- ===== src/Projections/Tests.antt =====
-- Tests of the projections: a count of events, projected and rebuilt, and theorems applied to it.
use pytitect.Prelude.{ℕ, ◌+◌, ◌≡◌, refl, List, [], ◌∷◌, arith, ok, String_eq, ℕ_eq}
use pytitect.Prelude.Dict.{get, put}
use pytitect.EventSourcing.Store.{StreamId, NewEvent, StoredEvent, EventStore, read_all}
use pytitect.EventSourcing.Positions.{Call}
use pytitect.Projections.Store.{
  ProjectionKey, key_eq, ProjectionState, ProjectionStore, RebuildRun, running, completed,
  projection_applied,
}
use pytitect.Projections.Runtime.{ProjectionDefinition, project_once, resume_rebuild, reduce_all}
use pytitect.Projections.Interleaved.{Step, event_call, round, run, IsFolded, run-IsFolded}
use pytitect.Projections.Rebuild.{IsRebuilt, Resumed, resume_rebuild-Resumed}

abbrev totals : ProjectionKey
totals = record { name = "totals"; partition = "all" }

-- Adds up payloads.
abbrev adding : ProjectionDefinition ℕ ℕ
adding = record { version = 1; initial_state = 0; reduce = λ n e. ok (n + e.event.payload) }

abbrev orders : StreamId
orders = record { category = "order"; stream_id = "o1" }

abbrev paid : ℕ → NewEvent ℕ
paid n = record { event_id = "e1"; event_type = "paid"; occurred_at = 1; payload = n }

abbrev at : ℕ → ℕ → StoredEvent ℕ
at position n = record {
  stream = orders;
  stream_version = position;
  global_position = position;
  event = paid n;
}

abbrev log : EventStore ℕ
log = record {
  capacity = 9;
  max_page_size = 5;
  streams = (orders, at 1 4 ∷ at 2 6 ∷ []) ∷ [];
  all_events = at 1 4 ∷ at 2 6 ∷ [];
  event_ids = "e1" ∷ [];
  snapshots = [];
}

abbrev empty : ProjectionStore ℕ
empty = record { capacity = 4; states = []; rebuilds = [] }

abbrev projected_first : ProjectionState ℕ
projected_first = record { key = totals; version = 1; checkpoint = 1; state = 4 }

project_first :
    (project_once totals adding 1 log empty).0 ≡ ok (projection_applied projected_first 1)
unfolding project_once get read_all put
project_first = refl

log-IsFolded : IsFolded totals adding (log, empty)
unfolding get
log-IsFolded = record { numbered = (refl, (refl, tt)); folded = tt }

abbrev steps : List (Step ℕ)
steps =
    round 1
    ∷ event_call (Call.append orders 2 (record (paid 7) { event_id = "e3" } ∷ []))
    ∷ round 5
    ∷ []

run-IsFolded_example : IsFolded totals adding (run totals adding steps (log, empty))
run-IsFolded_example = run-IsFolded totals adding steps (log, empty) log-IsFolded

-- A rebuild up to the second event, a page of two at a time.
abbrev begun : RebuildRun ℕ
begun = record {
  run_id = "r1";
  key = totals;
  projection_version = 1;
  through_position = 2;
  batch_size = 2;
  next_position = 0;
  state = 0;
  status = running;
}

abbrev rebuilding : ProjectionStore ℕ
rebuilding = record empty { rebuilds = ("r1", begun) ∷ [] }

abbrev finished : RebuildRun ℕ
finished = record begun { next_position = 2; state = 10; status = completed }

rebuild_finished : (resume_rebuild "r1" adding log rebuilding).0 ≡ ok finished
unfolding resume_rebuild get read_all put
rebuild_finished = refl

begun-IsRebuilt : IsRebuilt adding log.all_events begun
unfolding reduce_all
begun-IsRebuilt = record { reached = omega arith; folded = refl }

resume_rebuild-Resumed_example :
    Resumed adding log.all_events begun finished "r1" (resume_rebuild "r1" adding log rebuilding).1
unfolding get
resume_rebuild-Resumed_example =
    resume_rebuild-Resumed adding "r1" log rebuilding begun finished refl refl (refl, (refl, tt))
      begun-IsRebuilt rebuild_finished
