-- ===== src/EventSourcing/Append.antt =====
-- What `append` does to the log, and the compare-and-set of snapshots.
use pytitect.Prelude.{
  ℕ, suc, ◌≤◌, String, Bool, true, false, ◌≡◌, ◌≢◌, sym, refl, Option, none, some, List, [], ◌∷◌,
  ◌++◌, map, ltb, ◌==◌, arith, length, length-append, String_eq, option_eq, ℕ_eq, option_beq_iff,
  Result, ok, inl, inr, Bool-cases, if◌then◌else◌,
}
use pytitect.Prelude.Sets.{count, to_set}
use pytitect.Prelude.Dict.{get, get-put, elem}
use pytitect.EventSourcing.Store.{
  StreamId, stream_eq, NewEvent, StoredEvent, AppendResult, append_committed, Snapshot, EventStore,
  find, identifiers, stamp, history, store_events, store_unless_known, append, repeated, is_empty,
  save_snapshot, version_of,
}

module _ {P : Type 0} where
  pub map-stamp :
      (stream : StreamId) (v p : ℕ) (events : List (NewEvent P))
      → map (λ (e : StoredEvent P). e.event) (stamp stream v p events) ≡ events
  unfolding stamp
  map-stamp stream v p [] = refl
  map-stamp stream v p (e ∷ es) = rw (map-stamp stream (suc v) (suc p) es) refl

  pub length-stamp :
      (stream : StreamId) (v p : ℕ) (events : List (NewEvent P))
      → length (stamp stream v p events) ≡ length events
  unfolding stamp
  length-stamp stream v p [] = refl
  length-stamp stream v p (e ∷ es) = rw (length-stamp stream (suc v) (suc p) es) refl

  -- What an append that succeeds has done.
  pub record Appended (stream : StreamId) (expected : ℕ) (events : List (NewEvent P))
      (stored : List (StoredEvent P)) (s s' : EventStore P) : Type 0 where
    pub at_expected : length (history stream s) ≡ expected
    pub given : map (λ (e : StoredEvent P). e.event) stored ≡ events
    pub logged : s'.all_events ≡ s.all_events ++ stored
    pub fits : length s'.all_events ≤ s'.capacity
    pub histories :
        (other : StreamId)
        → history other s'
          ≡ (if stream == other then history stream s ++ stored else history other s)

  store_events-Appended :
      (stream : StreamId) (events : List (NewEvent P)) (s : EventStore P) (first last : ℕ)
      (stored : List (StoredEvent P))
      → (store_events stream events s).0 ≡ ok (append_committed first last stored)
      → Appended stream (length (history stream s)) events stored s (store_events stream events s).1
  unfolding store_events
  store_events-Appended stream events s first last stored h =
      let v = length (history stream s) in
      let p = length s.all_events in
      record {
        at_expected = refl;
        given = ground (arith, map-stamp stream v p events);
        logged = ground arith;
        fits = ground (
          arith,
          length-append s.all_events (stamp stream v p events),
          length-stamp stream v p events,
        );
        histories = λ other.
            ground
              (arith, get-put s.streams stream other (history stream s ++ stamp stream v p events));
      }

  locked-Appended :
      (o : Option String) (stream : StreamId) (events : List (NewEvent P)) (s : EventStore P)
      (first last : ℕ) (stored : List (StoredEvent P))
      → (store_unless_known o stream events s).0 ≡ ok (append_committed first last stored)
      → Appended stream
          (length (history stream s))
          events
          stored
          s
          (store_unless_known o stream events s).1
  locked-Appended (some i) stream events s first last stored h = absurd (ground arith)
  locked-Appended none stream events s first last stored h =
      store_events-Appended stream events s first last stored h

  not_committed :
      (o : Option String) (first last : ℕ) (stored : List (StoredEvent P))
      → repeated o ≡ ok (append_committed first last stored)
      → ⊥
  not_committed none first last stored h = ground arith
  not_committed (some i) first last stored h = ground arith

  -- An `append` that answers that it has committed found the stream at the expected version, stores
  -- exactly the given events, in their order, at the end of the log and of the stream's history,
  -- leaves the other streams alone, and keeps the log within the capacity.
  pub append-Appended :
      (stream : StreamId) (expected : ℕ) (events : List (NewEvent P)) (s : EventStore P)
      (first last : ℕ) (stored : List (StoredEvent P))
      → (append stream expected events s).0 ≡ ok (append_committed first last stored)
      → Appended stream expected events stored s (append stream expected events s).1
  unfolding append
  append-Appended stream expected events s first last stored h =
      let ids = identifiers events in
      let known = find (λ i. elem i s.event_ids) ids in
      elim (Bool-cases (is_empty events)) [
        | inl empty ↦ absurd (cc (rw empty at h))
        | inr given ↦ elim (Bool-cases (length ids == length (to_set ids))) [
          | inr twice ↦ absurd (
              not_committed (find (λ i. ltb 1 (count i ids)) ids) first last stored
                (rw (given, twice) at h))
          | inl once ↦ elim (Bool-cases (length (history stream s) == expected)) [
            | inr stale ↦ absurd (cc (rw (given, once, stale) at h))
            | inl current ↦
                let at : length (history stream s) ≡ expected =
                  (ℕ_eq.beq_iff (length (history stream s)) expected).0 current in
                rw (given, once, current, sym at)
                  (locked-Appended known stream events s first last stored
                    (rw (given, once, current) at h))
          ]
        ]
      ]

  abbrev pub is_committed : Result (AppendResult P) → Bool
  is_committed (ok (append_committed first last stored)) = true
  is_committed _ = false

  -- An `append` that does not commit leaves the store as it was.
  pub append_unchanged :
      (stream : StreamId) (expected : ℕ) (events : List (NewEvent P)) (s : EventStore P)
      → is_committed (append stream expected events s).0 ≡ false
      → (append stream expected events s).1 ≡ s
  unfolding append
  append_unchanged stream expected events s refused = ground arith

  -- `save_snapshot` that answers True found the expected version, replaced the stream's snapshot by one
  -- no newer than the stream, and left the other streams' alone; otherwise the store is as it was.
  pub save_snapshot_cas :
      (snapshot : Snapshot P) (expected : Option ℕ) (s : EventStore P) (other : StreamId)
      → let r = save_snapshot snapshot expected s in
        (r.0 ≡ ok true
          → (version_of (get snapshot.stream s.snapshots) ≡ expected)
            × (snapshot.version ≤ length (history snapshot.stream s))
            × (get other r.1.snapshots
                ≡ (if snapshot.stream == other then some snapshot else get other s.snapshots)))
        × (r.0 ≢ ok true → r.1 ≡ s)
  unfolding save_snapshot
  save_snapshot_cas snapshot expected s other = (
    λ h. ground (
      arith,
      get-put s.snapshots snapshot.stream other snapshot,
      option_beq_iff (version_of (get snapshot.stream s.snapshots)) expected,
    ),
    λ h. ground arith,
  )
