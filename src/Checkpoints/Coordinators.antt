-- ===== src/Checkpoints/Coordinators.antt =====
-- `AtomicCheckpointCoordinator` and `DeferredCheckpointCoordinator` of src/pytitect/checkpoints.py,
-- over a consumer's world `W`: a checkpoint store and an `apply_state` that act on it, and a
-- transaction. The items are a finite list.
use pytitect.Prelude.{
  ℕ, suc, String, Bool, true, false, Option, none, some, List, [], ◌∷◌, if◌then◌else◌, ◌==◌,
  String_eq, Action, Result, ok, err, value_error,
}
use pytitect.Transactions.{Outcome, returned, raised, rolled_back, Block, run, ◌>>=◌}

-- The protocol `CheckpointStore`, on a consumer's world.
pub record CheckpointPort (W C : Type 0) : Type 0 where
  pub load : String → Action W (Option C)
  pub load_for_update : String → Action W (Option C)
  pub advance : String → Option C → C → Action W Bool

pub record CheckpointItem (C P : Type 0) : Type 0 where
  pub checkpoint : C
  pub payload : P

pub record CheckpointBatchResult (C : Type 0) : Type 0 where
  pub applied : ℕ
  pub previous : Option C
  pub pending : Option C

pub record StaleCheckpoint (C : Type 0) : Type 0 where
  pub previous : Option C
  pub attempted : Option C

pub data AtomicCheckpointResult (C : Type 0) : Type 0 where
  atomic_checkpoint_confirmed : CheckpointBatchResult C → AtomicCheckpointResult C
  stale_checkpoint : StaleCheckpoint C → AtomicCheckpointResult C

pub data DeferredCheckpointResult (C : Type 0) : Type 0 where
  state_committed_checkpoint_confirmed : CheckpointBatchResult C → DeferredCheckpointResult C
  state_committed_checkpoint_unconfirmed : CheckpointBatchResult C → DeferredCheckpointResult C

module _ {W C P : Type 0} (apply_state : P → Action W (Unit {0})) where
  -- The loop over the items, from the last checkpoint and the count so far.
  unfoldable pub apply_items : List (CheckpointItem C P) → Option C → ℕ → Action W (Option C × ℕ)
  apply_items [] last applied w = (ok (last, applied), w)
  apply_items (item ∷ items) last applied w =
      let (r, w') = apply_state item.payload w in
      elim r [
        | ok u ↦ apply_items items (some item.checkpoint) (suc applied) w'
        | err e ↦ (err e, w')
      ]

module _ {W C : Type 0} (port : CheckpointPort W C) where
  abbrev pub conclude :
      Option C → C → ℕ → Bool → Block W (CheckpointBatchResult C) (StaleCheckpoint C)
  conclude previous last applied moved w =
      if moved
      then (returned (record { applied = applied; previous = previous; pending = some last }), w)
      else (rolled_back (record { previous = previous; attempted = some last }), w)

  -- The end of the atomic block: advance, or ask for a rollback.
  unfoldable pub finish :
      String → Option C → Option C × ℕ → Block W (CheckpointBatchResult C) (StaleCheckpoint C)
  finish stream previous (none, applied) w =
      (returned (record { applied = applied; previous = previous; pending = none }), w)
  finish stream previous (some last, applied) w =
      (run (port.advance stream previous last) >>= conclude previous last applied) w

-- The `except _RollbackStaleCheckpoint` of `apply`.
abbrev pub handled :
    {W C : Type 0}
    → Outcome (CheckpointBatchResult C) (StaleCheckpoint C) × W
    → Result (AtomicCheckpointResult C) × W
handled (returned batch, w) = (ok (atomic_checkpoint_confirmed batch), w)
handled (raised e, w) = (err e, w)
handled (rolled_back stale, w) = (ok (stale_checkpoint stale), w)

module _ {W C P : Type 0} (port : CheckpointPort W C)
    (atomic : Block W (CheckpointBatchResult C) (StaleCheckpoint C)
      → Block W (CheckpointBatchResult C) (StaleCheckpoint C))
    (apply_state : P → Action W (Unit {0})) where
  unfoldable pub atomic_block :
      String → List (CheckpointItem C P) → Block W (CheckpointBatchResult C) (StaleCheckpoint C)
  unfolding apply_items finish
  atomic_block stream items = do
    previous ← run (port.load_for_update stream)
    progress ← run (apply_items apply_state items none 0)
    finish port stream previous progress

  -- `AtomicCheckpointCoordinator(store, transaction).apply(stream=..., items=..., apply_state=...)`
  unfoldable pub apply_atomic :
      String → List (CheckpointItem C P) → Action W (AtomicCheckpointResult C)
  unfolding atomic_block
  apply_atomic stream items w =
      if stream == "" then (err value_error, w) else handled (atomic (atomic_block stream items) w)

-- The end of the deferred `apply`, after the state has been committed.
abbrev pub confirmed : {C : Type 0} → Bool → CheckpointBatchResult C → DeferredCheckpointResult C
confirmed true batch = state_committed_checkpoint_confirmed batch
confirmed false batch = state_committed_checkpoint_unconfirmed batch

module _ {W C P : Type 0} (port : CheckpointPort W C)
    (atomic : Block W (Option C × ℕ) ⊥ → Block W (Option C × ℕ) ⊥)
    (apply_state : P → Action W (Unit {0})) where
  unfoldable pub confirm :
      String → Option C → Outcome (Option C × ℕ) ⊥ × W → Result (DeferredCheckpointResult C) × W
  confirm stream previous (raised e, w) = (err e, w)
  confirm stream previous (rolled_back u, w) = absurd u
  confirm stream previous (returned (none, applied), w) =
      (ok (confirmed true (record { applied = applied; previous = previous; pending = none })), w)
  confirm stream previous (returned (some last, applied), w) =
      let (r, w') = port.advance stream previous last w in
      elim r [
        | ok moved ↦ (
          ok (
              confirmed moved
                (record { applied = applied; previous = previous; pending = some last })),
          w',
        )
        | err e ↦ (err e, w')
      ]

  -- `DeferredCheckpointCoordinator(store, transaction).apply(...)`
  unfoldable pub apply_deferred :
      String → List (CheckpointItem C P) → Action W (DeferredCheckpointResult C)
  unfolding apply_items confirm
  apply_deferred stream items w =
      if stream == ""
      then (err value_error, w)
      else let (r, w₁) = port.load stream w in
        elim r [
          | ok previous ↦
              confirm stream previous (atomic (run (apply_items apply_state items none 0)) w₁)
          | err e ↦ (err e, w₁)
        ]
