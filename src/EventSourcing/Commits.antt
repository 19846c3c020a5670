-- ===== src/EventSourcing/Commits.antt =====
-- When `append` of `InMemoryEventStore`, src/pytitect/event_sourcing.py, commits.
use pytitect.Prelude.{
  ℕ, suc, ◌+◌, ◌≤◌, String, Bool, false, ◌≡◌, refl, none, List, [], ◌∷◌, All, arith, length,
  String_eq, ℕ_eq, ok,
}
use pytitect.Prelude.Sets.{to_set}
use pytitect.Prelude.Dict.{elem}
use pytitect.EventSourcing.Store.{
  StreamId, stream_eq, NewEvent, StoredEvent, append_committed, EventStore, find, identifiers,
  stamp, history, last_version, append,
}
use pytitect.EventSourcing.Append.{Appended, append-Appended}

-- No element comes twice.
abbrev pub IsDistinct : List String → Type 0
IsDistinct [] = Unit
IsDistinct (i ∷ is) = (elem i is ≡ false) × IsDistinct is

IsDistinct-to_set : (is : List String) → IsDistinct is → to_set is ≡ is
IsDistinct-to_set [] d = refl
IsDistinct-to_set (i ∷ is) d = rw (d.0, IsDistinct-to_set is d.1) refl

find-none :
    (test : String → Bool) (is : List String) → All (λ i. test i ≡ false) is → find test is ≡ none
find-none test [] h = refl
find-none test (i ∷ is) h = rw h.0 (find-none test is h.1)

module _ {P : Type 0} where
  -- The events of a stream that follow on a version and on a position of the log, one by one.
  abbrev pub Follows : StreamId → ℕ → ℕ → List (NewEvent P) → List (StoredEvent P) → Type 0
  Follows stream v p [] [] = Unit
  Follows stream v p (e ∷ es) (x ∷ xs) =
      (x.stream ≡ stream)
      × (x.stream_version ≡ suc v)
      × (x.global_position ≡ suc p)
      × (x.event ≡ e)
      × Follows stream (suc v) (suc p) es xs
  Follows stream v p _ _ = ⊥

  stamp-Follows :
      (stream : StreamId) (v p : ℕ) (events : List (NewEvent P))
      → Follows stream v p events (stamp stream v p events)
  unfolding stamp
  stamp-Follows stream v p [] = tt
  stamp-Follows stream v p (e ∷ es) =
      (refl, refl, refl, refl, stamp-Follows stream (suc v) (suc p) es)

  last_version-stamp :
      (stream : StreamId) (v p : ℕ) (events : List (NewEvent P))
      → last_version v (stamp stream v p events) ≡ v + length events
  unfolding stamp
  last_version-stamp stream v p [] = omega arith
  last_version-stamp stream v p (e ∷ es) =
      omega (arith, last_version-stamp stream (suc v) (suc p) es)

  committed :
      (stream : StreamId) (expected : ℕ) (event : NewEvent P) (rest : List (NewEvent P))
      (s : EventStore P)
      → let events = event ∷ rest in
        IsDistinct (identifiers events)
        → All (λ i. elem i s.event_ids ≡ false) (identifiers events)
        → length (history stream s) ≡ expected
        → length s.all_events + length events ≤ s.capacity
        → (append stream expected events s).0
          ≡ ok (
              append_committed
                (expected + 1)
                (expected + length events)
                (stamp stream expected (length s.all_events) events))
  unfolding append
  committed stream expected event rest s distinct fresh at room =
      let events = event ∷ rest in
      let ids = identifiers events in
      let once : length ids ≡ length (to_set ids) = rw (IsDistinct-to_set ids distinct) refl in
      let new = find-none (λ i. elem i s.event_ids) ids fresh in
      let last = last_version-stamp stream expected (length s.all_events) events in
      ground (arith, once, new, at, room, last)

  -- If the events are one or more, with distinct IDs that the store does not have, the stream has
  -- as many events as expected and there is room, append commits: it reports the first and the
  -- last version, and stored events that are the given ones in their order, of that stream, with
  -- versions and positions that follow one by one on the expected version and on the length of the
  -- log; they are then at the end of the log and of the stream's history, and other streams are as
  -- they were.
  pub append_commits :
      (stream : StreamId) (expected : ℕ) (event : NewEvent P) (rest : List (NewEvent P))
      (s : EventStore P)
      → let events = event ∷ rest in
        let r = append stream expected events s in
        IsDistinct (identifiers events)
        → All (λ i. elem i s.event_ids ≡ false) (identifiers events)
        → length (history stream s) ≡ expected
        → length s.all_events + length events ≤ s.capacity
        → (stored : List (StoredEvent P)) × (r.0
            ≡ ok (append_committed (expected + 1) (expected + length events) stored))
          × Follows stream expected (length s.all_events) events stored
          × Appended stream expected events stored s r.1
  append_commits stream expected event rest s distinct fresh at room =
      let events = event ∷ rest in
      let stored = stamp stream expected (length s.all_events) events in
      let h = committed stream expected event rest s distinct fresh at room in
      (
        stored,
        h,
        stamp-Follows stream expected (length s.all_events) events,
        append-Appended stream expected events s (expected + 1) (expected + length events) stored h,
      )
