-- ===== src/EventSourcing/Store.antt =====
-- `InMemoryEventStore` of src/pytitect/event_sourcing.py. Each method holds the lock where it reads
-- and writes the store.
use pytitect.Prelude.{
  ℕ, suc, ◌+◌, String, Bool, true, false, ◌&&◌, ◌||◌, ◌≡◌, ◌↔◌, not, Option, none, some, List, [],
  ◌∷◌, ◌++◌, map, ltb, leb, if◌then◌else◌, length, take, filter, Eq, ◌==◌, ℕ_eq, String_eq,
  option_eq, or_else, arith, Action, Result, ok, err, value_error, overflow_error, stop_iteration,
}
use pytitect.Prelude.Sets.{count, to_set}
use pytitect.Prelude.Dict.{Dict, get, put, elem}

pub record StreamId : Type 0 where
  pub category : String
  pub stream_id : String

-- `StreamId(category, stream_id)`
unfoldable pub stream : String → String → Result StreamId
stream category stream_id =
    if (category == "") || (stream_id == "")
    then err value_error
    else ok (record { category = category; stream_id = stream_id })

abbrev pub stream_beq : StreamId → StreamId → Bool
stream_beq a b = (a.category == b.category) && (a.stream_id == b.stream_id)

pub stream_beq_iff : (a b : StreamId) → (stream_beq a b ≡ true) ↔ (a ≡ b)
stream_beq_iff a b =
    ground
      (arith, String_eq.beq_iff a.category b.category, String_eq.beq_iff a.stream_id b.stream_id)

instance abbrev pub stream_eq : Eq StreamId
stream_eq = record { beq = stream_beq; beq_iff = stream_beq_iff }

-- `P` stands for the payload, a JSON value, and the metadata.
pub record NewEvent (P : Type 0) : Type 0 where
  pub event_id : String
  pub event_type : String
  pub occurred_at : ℕ
  pub payload : P

pub record StoredEvent (P : Type 0) : Type 0 where
  pub stream : StreamId
  pub stream_version : ℕ
  pub global_position : ℕ
  pub event : NewEvent P

pub data AppendResult (P : Type 0) : Type 0 where
  append_committed : ℕ → ℕ → List (StoredEvent P) → AppendResult P
  wrong_expected_version : ℕ → ℕ → AppendResult P
  duplicate_event_id : String → AppendResult P

pub record EventPage (P : Type 0) : Type 0 where
  pub events : List (StoredEvent P)
  pub next_position : ℕ
  pub complete : Bool

-- `P` stands for the state, a JSON value.
pub record Snapshot (P : Type 0) : Type 0 where
  pub stream : StreamId
  pub version : ℕ
  pub state : P
  pub created_at : ℕ

-- The set of event IDs is a list that is only asked for its members.
pub record EventStore (P : Type 0) : Type 0 where
  pub capacity : ℕ
  pub max_page_size : ℕ
  pub streams : Dict StreamId (List (StoredEvent P))
  pub all_events : List (StoredEvent P)
  pub event_ids : List String
  pub snapshots : Dict StreamId (Snapshot P)

-- `next(x for x in xs if test(x))`
abbrev pub find : (String → Bool) → List String → Option String
find test [] = none
find test (x ∷ xs) = if test x then some x else find test xs

module _ {P : Type 0} where
  -- `InMemoryEventStore(capacity=..., max_page_size=...)`
  unfoldable pub new : ℕ → ℕ → Result (EventStore P)
  new capacity max_page_size =
      if (capacity == 0) || (max_page_size == 0)
      then err value_error
      else ok (record {
        capacity = capacity;
        max_page_size = max_page_size;
        streams = [];
        all_events = [];
        event_ids = [];
        snapshots = [];
      })

  abbrev pub identifiers : List (NewEvent P) → List String
  identifiers events = map (λ e. e.event_id) events

  -- The stored events, from a version and a position.
  unfoldable pub stamp : StreamId → ℕ → ℕ → List (NewEvent P) → List (StoredEvent P)
  stamp stream version position [] = []
  stamp stream version position (event ∷ events) =
      record {
        stream = stream;
        stream_version = suc version;
        global_position = suc position;
        event = event;
      }
      ∷ stamp stream (suc version) (suc position) events

  -- The version and the position of the last event, or what is given for none.
  abbrev pub last_version : ℕ → List (StoredEvent P) → ℕ
  last_version v [] = v
  last_version v (x ∷ xs) = last_version x.stream_version xs

  abbrev pub last_position : ℕ → List (StoredEvent P) → ℕ
  last_position p [] = p
  last_position p (x ∷ xs) = last_position x.global_position xs

  -- `self._streams.get(stream, [])`
  abbrev pub history : StreamId → EventStore P → List (StoredEvent P)
  history stream s = or_else (get stream s.streams) []

  unfoldable pub store_events :
      StreamId → List (NewEvent P) → Action (EventStore P) (AppendResult P)
  unfolding stamp
  store_events stream events s =
      let actual = length (history stream s) in
      let stored = stamp stream actual (length s.all_events) events in
      if ltb s.capacity (length s.all_events + length events) then (err overflow_error, s) else (
        ok (append_committed (suc actual) (last_version actual stored) stored),
        record s {
          streams = put stream (history stream s ++ stored) s.streams;
          all_events = s.all_events ++ stored;
          event_ids = identifiers events ++ s.event_ids;
        },
      )

  abbrev pub store_unless_known :
      Option String → StreamId → List (NewEvent P) → Action (EventStore P) (AppendResult P)
  store_unless_known (some duplicate) stream events s = (ok (duplicate_event_id duplicate), s)
  store_unless_known none stream events s = store_events stream events s

  unfoldable pub append_locked :
      StreamId → ℕ → List (NewEvent P) → Action (EventStore P) (AppendResult P)
  unfolding store_events
  append_locked stream expected events s =
      if not (length (history stream s) == expected)
      then (ok (wrong_expected_version expected (length (history stream s))), s)
      else store_unless_known (find (λ i. elem i s.event_ids) (identifiers events)) stream events s

  abbrev pub repeated : Option String → Result (AppendResult P)
  repeated (some i) = ok (duplicate_event_id i)
  repeated none = err stop_iteration

  abbrev pub is_empty : List (NewEvent P) → Bool
  is_empty [] = true
  is_empty (event ∷ events) = false

  unfoldable pub append : StreamId → ℕ → List (NewEvent P) → Action (EventStore P) (AppendResult P)
  unfolding append_locked
  append stream expected events s =
      let ids = identifiers events in
      if is_empty events
      then (err value_error, s)
      else if not (length ids == length (to_set ids))
      then (repeated (find (λ i. ltb 1 (count i ids)) ids), s)
      else append_locked stream expected events s

  -- `_page_arguments`
  abbrev pub bad_limit : ℕ → EventStore P → Bool
  bad_limit limit s = (limit == 0) || ltb s.max_page_size limit

  unfoldable pub read_stream : StreamId → ℕ → ℕ → EventStore P → Result (EventPage P)
  read_stream stream after limit s =
      let available =
        filter (λ (e : StoredEvent P). ltb after e.stream_version) (history stream s) in
      let selected = take limit available in
      if bad_limit limit s
      then err value_error
      else ok (record {
        events = selected;
        next_position = last_version after selected;
        complete = leb (length available) limit;
      })

  unfoldable pub read_all : ℕ → ℕ → EventStore P → Result (EventPage P)
  read_all after limit s =
      let available = filter (λ (e : StoredEvent P). ltb after e.global_position) s.all_events in
      let selected = take limit available in
      if bad_limit limit s
      then err value_error
      else ok (record {
        events = selected;
        next_position = last_position after selected;
        complete = leb (length available) limit;
      })

  unfoldable pub load_snapshot : StreamId → EventStore P → Option (Snapshot P)
  load_snapshot stream s = get stream s.snapshots

  abbrev pub version_of : Option (Snapshot P) → Option ℕ
  version_of none = none
  version_of (some snapshot) = some snapshot.version

  unfoldable pub save_snapshot : Snapshot P → Option ℕ → Action (EventStore P) Bool
  save_snapshot snapshot expected s =
      if not (version_of (get snapshot.stream s.snapshots) == expected)
      then (ok false, s)
      else if ltb (length (history snapshot.stream s)) snapshot.version
      then (err value_error, s)
      else (ok true, record s { snapshots = put snapshot.stream snapshot s.snapshots })
