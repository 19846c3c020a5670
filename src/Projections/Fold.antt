-- ===== src/Projections/Fold.antt =====
-- A projection's state is the fold of its reducer over the events up to its checkpoint.
use pytitect.Prelude.{
  ℕ, ◌≤◌, false, not, ◌≡◌, refl, sym, ap, ◌∙◌, Option, none, some, List, [], ◌∷◌, ◌++◌, leb,
  if_either, arith, length, take, inl, inr, Bool-cases, ◌==◌, ◌⊎◌, length-append, ==_refl, ℕ_eq,
  String_eq, Result, ok, err,
}
use pytitect.Prelude.Dict.{get, put, get-put}
use pytitect.EventSourcing.Store.{StoredEvent, EventStore, read_all, bad_limit, last_position}
use pytitect.EventSourcing.Pages.{Numbered, beyond}
use pytitect.Projections.Store.{
  ProjectionKey, key_eq, ProjectionState, ProjectionApplyResult, ProjectionStore, checkpoint_of,
  apply, apply_current, any_unordered, regresses,
}
use pytitect.Projections.Runtime.{
  ProjectionDefinition, reduce_all, state_of, other_version, apply_reduced, project_page,
  project_unless, project_once,
}
use pytitect.Projections.Prefix.{page_prefix, take-append_le}

module _ {J P : Type 0} (definition : ProjectionDefinition J P) where
  abbrev pub then_reduce : List (StoredEvent P) → Result J → Result J
  then_reduce events (err e) = err e
  then_reduce events (ok state) = reduce_all definition events state

  pub reduce_all-append :
      (xs ys : List (StoredEvent P)) (state : J)
      → reduce_all definition (xs ++ ys) state ≡ then_reduce ys (reduce_all definition xs state)
  unfolding reduce_all
  reduce_all-append [] ys state = refl
  reduce_all-append (x ∷ xs) ys state =
      elim (definition.reduce state x)
        as (λ r.
          elim r [ err e ↦ err e | ok next ↦ reduce_all definition (xs ++ ys) next ]
          ≡ then_reduce ys (elim r [ err e ↦ err e | ok next ↦ reduce_all definition xs next ])) [
            | err e ↦ refl
            | ok next ↦ reduce_all-append xs ys next
          ]

  -- The state, if any, has the definition's version and is what the reducer makes of the initial state
  -- by the events of the log up to the checkpoint.
  abbrev pub IsFold : List (StoredEvent P) → Option (ProjectionState J) → Type 0
  IsFold log none = Unit
  IsFold log (some current) =
      (current.version ≡ definition.version)
      × (current.checkpoint ≤ length log)
      × (reduce_all definition (take current.checkpoint log) definition.initial_state
          ≡ ok current.state)

  IsFold-start :
      (log : List (StoredEvent P)) (o : Option (ProjectionState J))
      → IsFold log o
      → (reduce_all definition (take (checkpoint_of o) log) definition.initial_state
          ≡ ok (state_of definition o))
        × (checkpoint_of o ≤ length log)
  IsFold-start log none f = (unfold reduce_all in refl, omega arith)
  IsFold-start log (some current) f = (f.2, f.1)

  -- A fold over a log stays one when the log grows.
  pub IsFold-append :
      (log more : List (StoredEvent P)) (o : Option (ProjectionState J))
      → IsFold log o
      → IsFold (log ++ more) o
  IsFold-append log more none f = tt
  IsFold-append log more (some current) f = (
    f.0,
    omega (arith, f.1, length-append log more),
    rw (take-append_le current.checkpoint log more f.1) f.2,
  )

  -- What `apply` stores.
  abbrev pub projected : ProjectionKey → ℕ → ℕ → J → List (StoredEvent P) → ProjectionState J
  projected key expected version state events = record {
    key = key;
    version = version;
    checkpoint = last_position expected events;
    state = state;
  }

  -- `apply` leaves the states or stores the new one.
  abbrev Applied :
      ProjectionKey
      → ProjectionState J
      → ProjectionStore J
      → Result (ProjectionApplyResult J) × ProjectionStore J
      → Type 0
  Applied key new_state s r = (r.1.states ≡ s.states) ⊎ (r.1.states ≡ put key new_state s.states)

  apply_current-Applied :
      (o : Option (ProjectionState J)) (key : ProjectionKey) (expected version : ℕ) (state : J)
      (events : List (StoredEvent P)) (s : ProjectionStore J)
      → Applied key
          (projected key expected version state events)
          s
          (apply_current o key expected version state events s)
  unfolding apply_current
  apply_current-Applied none key expected version state events s =
      if_either (Applied key (projected key expected version state events) s)
        (leb s.capacity (length s.states)) (inl refl) (inr refl)
  apply_current-Applied (some current) key expected version state events s =
      if_either (Applied key (projected key expected version state events) s)
        (not (current.version == version)) (inl refl) (inr refl)

  apply-Applied :
      (key : ProjectionKey) (expected version : ℕ) (state : J) (events : List (StoredEvent P))
      (s : ProjectionStore J)
      → Applied key
          (projected key expected version state events)
          s
          (apply key expected version state events s)
  unfolding apply
  apply-Applied key expected version state events s =
      let A = Applied key (projected key expected version state events) s in
      if_either A (version == 0) (inl refl) (
        if_either A (any_unordered events) (inl refl) (
          if_either A (regresses expected events) (inl refl) (
            if_either A (not (checkpoint_of (get key s.states) == expected)) (inl refl)
              (apply_current-Applied (get key s.states) key expected version state events s))))

  -- The key's state is a fold, and the states of the other keys are as they were.
  abbrev pub Kept :
      ProjectionKey → List (StoredEvent P) → ProjectionStore J → ProjectionStore J → Type 0
  Kept key log s s' =
      IsFold log (get key s'.states)
      × ((j : ProjectionKey) → (key == j) ≡ false → get j s'.states ≡ get j s.states)

  apply_reduced-Kept :
      (key : ProjectionKey) (log page : List (StoredEvent P)) (r : Result J) (s : ProjectionStore J)
      → IsFold log (get key s.states)
      → ((state : J)
          → r ≡ ok state
          → IsFold log (
              some
                (projected key (checkpoint_of (get key s.states)) definition.version state page)))
      → Kept key log s
          (apply_reduced key (checkpoint_of (get key s.states)) definition.version page r s).1
  apply_reduced-Kept key log page (err e) s f next = (f, λ j h. refl)
  apply_reduced-Kept key log page (ok state) s f next =
      let new_state =
        projected key (checkpoint_of (get key s.states)) definition.version state page in
      elim (apply-Applied key (checkpoint_of (get key s.states)) definition.version state page s) [
        | inl same ↦ (rw same f, λ j h. rw same refl)
        | inr stored ↦ (
          rw (stored, get-put s.states key key new_state, ==_refl key) (next state refl),
          λ j h. rw (stored, get-put s.states key j new_state, h) refl,
        )
      ]

  project_page-Kept :
      (key : ProjectionKey) (limit : ℕ) (es : EventStore P) (s : ProjectionStore J)
      → Numbered 0 es.all_events
      → IsFold es.all_events (get key s.states)
      → Kept key es.all_events s
          (project_page key definition (read_all (checkpoint_of (get key s.states)) limit es) s).1
  unfolding project_page read_all
  project_page-Kept key limit es s n f =
      let cp = checkpoint_of (get key s.states) in
      let page = take limit (beyond cp es.all_events) in
      elim (Bool-cases (bad_limit limit es)) [
        | inl bad ↦ rw bad (f, λ j h. refl)
        | inr fine ↦ rw fine (
            apply_reduced-Kept key es.all_events page
              (reduce_all definition page (state_of definition (get key s.states))) s f
              (λ state reduced.
                let (a, b, c) =
                  page_prefix limit cp 0 cp es.all_events n
                    (IsFold-start es.all_events (get key s.states) f).1 (omega arith) in
                (
                  refl,
                  omega (arith, b, c),
                  ap (λ p. reduce_all definition (take p es.all_events) definition.initial_state) b
                      ∙ ap (λ l. reduce_all definition l definition.initial_state) (sym a)
                      ∙ reduce_all-append (take cp es.all_events) page definition.initial_state
                      ∙ ap (then_reduce page) (IsFold-start es.all_events (get key s.states) f).0
                      ∙ reduced,
                )))
      ]

  -- `project_once` keeps a state that is a fold over the log as it is then.
  pub project_once-Kept :
      (key : ProjectionKey) (limit : ℕ) (es : EventStore P) (s : ProjectionStore J)
      → Numbered 0 es.all_events
      → IsFold es.all_events (get key s.states)
      → Kept key es.all_events s (project_once key definition limit es s).1
  unfolding project_once
  project_once-Kept key limit es s n f = by_version (other_version definition (get key s.states))
    where
      by_version :
          (o : Option ℕ) → Kept key es.all_events s (project_unless o key definition limit es s).1
      by_version (some actual) = (f, λ j h. refl)
      by_version none = project_page-Kept key limit es s n f
