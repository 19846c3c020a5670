-- ===== src/Checkpoints/Tests.antt =====
-- Tests of the checkpoint modules: numbers as checkpoints and as the consumer's state, and theorems
-- applied to them.
use pytitect.Prelude.{
  ℕ, ◌+◌, ◌≡◌, refl, true, false, Option, some, none, List, [], ◌∷◌, ok, String_eq, ℕ_eq, option_eq,
  length, Action,
}
use pytitect.Prelude.Dict.{get, put}
use pytitect.Transactions.{snapshot, snapshot-IsAtomic}
use pytitect.Checkpoints.Store.{CheckpointStore, advance}
use pytitect.Checkpoints.Coordinators.{
  CheckpointItem, CheckpointBatchResult, StaleCheckpoint, atomic_checkpoint_confirmed, apply_items,
  apply_atomic, apply_deferred,
}
use pytitect.Checkpoints.Atomic.{last_checkpoint, is_confirmed, atomic_all_or_nothing}
use pytitect.Checkpoints.Deferred.{AfterItems, deferred_reports}
use pytitect.Checkpoints.InMemory.{in_memory, on_state, stored_view, in_memory-IsWorld}

abbrev stored : CheckpointStore ℕ
stored = record { capacity = 2; stored = ("s", 1) ∷ [] }

advances : (advance "s" (some 1) 2 stored).0 ≡ ok true
unfolding advance get put
advances = refl

abbrev World : Type 0
World = CheckpointStore ℕ × ℕ

abbrev add : ℕ → Action ℕ (Unit {0})
add n d = (ok tt, d + n)

abbrev apply_add : ℕ → Action World (Unit {0})
apply_add n = on_state (add n)

abbrev world : World
world = (stored, 10)

abbrev items : List (CheckpointItem ℕ ℕ)
items = record { checkpoint = 2; payload = 5 } ∷ record { checkpoint = 3; payload = 7 } ∷ []

abbrev batch : CheckpointBatchResult ℕ
batch = record { applied = 2; previous = some 1; pending = some 3 }

atomic_all_or_nothing_example :
    let r = apply_atomic in_memory snapshot apply_add "s" items world in
    (r.0 ≡ ok (atomic_checkpoint_confirmed batch)
      → (batch.applied ≡ length items)
        × (batch.previous ≡ stored_view world "s")
        × (batch.pending ≡ last_checkpoint items none)
        × (stored_view r.1 "s" ≡ some 3))
    × (is_confirmed r.0 ≡ false → r.1 ≡ world)
atomic_all_or_nothing_example =
    atomic_all_or_nothing in_memory apply_add stored_view (in_memory-IsWorld {P = ℕ} add) snapshot
      (snapshot-IsAtomic World (CheckpointBatchResult ℕ) (StaleCheckpoint ℕ)) "s" items world batch
      refl

applied : apply_items apply_add items none 0 world ≡ (ok (some 3, 2), (stored, 22))
unfolding apply_items
applied = refl

abbrev moved : CheckpointStore ℕ
moved = record { capacity = 2; stored = ("s", 3) ∷ [] }

advanced :
    (in_memory {D = ℕ}).advance "s" (stored_view world "s") 3 (stored, 22) ≡ (ok true, (moved, 22))
unfolding advance get put
advanced = refl

deferred_reports_example :
    let r = apply_deferred in_memory snapshot apply_add "s" items world in
    AfterItems stored_view "s" items world (stored, 22) r (ok (some 3, 2))
unfolding apply_items
deferred_reports_example =
    deferred_reports in_memory apply_add stored_view (in_memory-IsWorld {P = ℕ} add) snapshot
      (snapshot-IsAtomic World (Option ℕ × ℕ) ⊥) "s" items world refl
