-- ===== src/EventSourcing/Positions.antt =====
-- Positions in the log, which every call keeps.
use pytitect.Prelude.{
  String, ◌==◌, ltb, ℕ_eq, String_eq, ℕ, suc, ◌+◌, ◌≡◌, refl, Option, none, some, List, [], ◌∷◌,
  ◌++◌, arith, length, Bool-cases, inl, inr,
}
use pytitect.EventSourcing.Store.{
  StreamId, stream_eq, NewEvent, StoredEvent, AppendResult, append_committed,
  wrong_expected_version, duplicate_event_id, Snapshot, EventStore, stamp, history,
}
use pytitect.Prelude.Sets.{to_set}
use pytitect.Prelude.Dict.{elem}
use pytitect.EventSourcing.Store.{identifiers, is_empty, find}
use pytitect.EventSourcing.Store
use pytitect.EventSourcing.Pages.{Numbered}

-- The methods that change the store.
pub data Call (P : Type 0) : Type 0 where
  append : StreamId → ℕ → List (NewEvent P) → Call P
  save_snapshot : Snapshot P → Option ℕ → Call P

module _ {P : Type 0} where
  -- The store after a call, whether it returned or raised.
  unfoldable pub perform : Call P → EventStore P → EventStore P
  perform (append stream expected events) s = (Store.append stream expected events s).1
  perform (save_snapshot snapshot expected) s = (Store.save_snapshot snapshot expected s).1

  stamp-Numbered :
      (stream : StreamId) (v p : ℕ) (events : List (NewEvent P))
      → Numbered p (stamp stream v p events)
  unfolding stamp
  stamp-Numbered stream v p [] = tt
  stamp-Numbered stream v p (e ∷ es) = (refl, stamp-Numbered stream (suc v) (suc p) es)

  append-Numbered :
      (p : ℕ) (xs ys : List (StoredEvent P))
      → Numbered p xs
      → Numbered (p + length xs) ys
      → Numbered p (xs ++ ys)
  append-Numbered p [] ys n m = let e : p + 0 ≡ p = omega arith in rw e at m
  append-Numbered p (x ∷ xs) ys n m =
      let e : p + length (x ∷ xs) ≡ suc p + length xs = omega arith in
      (n.0, append-Numbered (suc p) xs ys n.1 (rw e at m))

  store_events-Numbered :
      (o : Option String) (stream : StreamId) (events : List (NewEvent P)) (s : EventStore P)
      → Numbered 0 s.all_events
      → Numbered 0 (Store.store_unless_known o stream events s).1.all_events
  unfolding Store.store_events
  store_events-Numbered (some i) stream events s n = n
  store_events-Numbered none stream events s n =
      let start : 0 + length s.all_events ≡ length s.all_events = omega arith in
      let stored = stamp-Numbered stream (length (history stream s)) (length s.all_events) events in
      elim (Bool-cases (ltb s.capacity (length s.all_events + length events))) [
        | inl full ↦ rw full n
        | inr room ↦ rw room (
            append-Numbered 0 s.all_events
              (stamp stream (length (history stream s)) (length s.all_events) events) n
              (rw start stored))
      ]

  -- Every call, whether it returns or raises, keeps the positions of the log: they are 1, 2, 3 and so
  -- on, in order.
  pub perform-Numbered :
      (c : Call P) (s : EventStore P)
      → Numbered 0 s.all_events
      → Numbered 0 (perform c s).all_events
  unfolding perform Store.append Store.append_locked Store.store_events Store.save_snapshot
  perform-Numbered (append stream expected events) s n =
      let ids = identifiers events in
      elim (Bool-cases (is_empty events)) [
        | inl empty ↦ rw (empty, perform) n
        | inr given ↦ elim (Bool-cases (length ids == length (to_set ids))) [
          | inr twice ↦ rw (given, twice, perform) n
          | inl once ↦ elim (Bool-cases (length (history stream s) == expected)) [
            | inr stale ↦ rw (given, once, stale, perform) n
            | inl current ↦
                rw (given, once, current, perform)
                  (store_events-Numbered (find (λ i. elem i s.event_ids) ids) stream events s n)
          ]
        ]
      ]
  perform-Numbered (save_snapshot snapshot expected) s n = ground (arith, n)
