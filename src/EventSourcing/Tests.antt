-- ===== src/EventSourcing/Tests.antt =====
-- Tests of the event store: two events of one stream, and theorems applied to them.
use pytitect.Prelude.{
  ℕ, List, arith, ◌≤◌, true, ◌≡◌, ◌↔◌, refl, [], ◌∷◌, ◌++◌, ok, String_eq, length,
}
use pytitect.Prelude.Dict.{get, put}
use pytitect.EventSourcing.Store.{
  StreamId, stream_eq, NewEvent, StoredEvent, append_committed, Snapshot, EventStore, EventPage,
  append, read_all,
}
use pytitect.EventSourcing.Append.{Appended, append-Appended}
use pytitect.EventSourcing.Commits.{Follows, append_commits}
use pytitect.EventSourcing.Positions.{Call, perform, perform-Numbered}
use pytitect.EventSourcing.Pages.{Numbered, beyond, read_all_pages}

abbrev orders : StreamId
orders = record { category = "order"; stream_id = "1" }

abbrev placed : NewEvent ℕ
placed = record { event_id = "e1"; event_type = "placed"; occurred_at = 10; payload = 5 }

abbrev paid : NewEvent ℕ
paid = record { event_id = "e2"; event_type = "paid"; occurred_at = 20; payload = 5 }

abbrev first : StoredEvent ℕ
first = record { stream = orders; stream_version = 1; global_position = 1; event = placed }

abbrev second : StoredEvent ℕ
second = record { stream = orders; stream_version = 2; global_position = 2; event = paid }

abbrev one : EventStore ℕ
one = record {
  capacity = 10;
  max_page_size = 5;
  streams = (orders, first ∷ []) ∷ [];
  all_events = first ∷ [];
  event_ids = "e1" ∷ [];
  snapshots = [];
}

abbrev two : EventStore ℕ
two = record one {
  streams = (orders, first ∷ second ∷ []) ∷ [];
  all_events = first ∷ second ∷ [];
  event_ids = "e2" ∷ "e1" ∷ [];
}

appends : (append orders 1 (paid ∷ []) one).0 ≡ ok (append_committed 2 2 (second ∷ []))
unfolding append get put
appends = refl

append-Appended_example :
    Appended orders 1 (paid ∷ []) (second ∷ []) one (append orders 1 (paid ∷ []) one).1
append-Appended_example = append-Appended orders 1 (paid ∷ []) one 2 2 (second ∷ []) appends

append_commits_example :
    (stored : List (StoredEvent ℕ)) × ((append orders 1 (paid ∷ []) one).0
      ≡ ok (append_committed 2 2 stored))
    × Follows orders 1 1 (paid ∷ []) stored
    × Appended orders 1 (paid ∷ []) stored one (append orders 1 (paid ∷ []) one).1
unfolding get
append_commits_example =
    append_commits orders 1 paid [] one (refl, tt) (refl, tt) refl (omega arith)

perform-Numbered_example : Numbered 0 (perform (Call.append orders 1 (paid ∷ [])) one).all_events
perform-Numbered_example = perform-Numbered (Call.append orders 1 (paid ∷ [])) one (refl, tt)

read_all_pages_example :
    (page : EventPage ℕ) × (read_all 0 1 two ≡ ok page)
    × (length page.events ≤ 1)
    × (page.events ++ beyond page.next_position two.all_events ≡ beyond 0 two.all_events)
    × ((page.complete ≡ true) ↔ (beyond page.next_position two.all_events ≡ []))
read_all_pages_example = read_all_pages 0 1 two (refl, (refl, tt)) refl

abbrev snapshot : Snapshot ℕ
snapshot = record { stream = orders; version = 1; state = 5; created_at = 30 }
