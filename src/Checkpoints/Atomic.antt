-- ===== src/Checkpoints/Atomic.antt =====
-- The atomic coordinator: the state and its checkpoint move together, or not at all.
use pytitect.Prelude.{
  ℕ, suc, ◌+◌, String, Bool, true, false, ◌≡◌, refl, Option, none, some, List, [], ◌∷◌, length,
  ◌==◌, String_eq, Action, Result, ok, err, arith, ◌∙◌, ap, sym,
}
use pytitect.Transactions.{Outcome, returned, raised, rolled_back, Block, run, ◌>>=◌, IsAtomic}
use pytitect.Checkpoints.Coordinators.{
  CheckpointPort, CheckpointItem, CheckpointBatchResult, StaleCheckpoint, AtomicCheckpointResult,
  atomic_checkpoint_confirmed, apply_items, finish, conclude, handled, atomic_block, apply_atomic,
}

-- The checkpoint of the last item, or the given one if there is no item.
abbrev pub last_checkpoint : {C P : Type 0} → List (CheckpointItem C P) → Option C → Option C
last_checkpoint [] last = last
last_checkpoint (item ∷ items) last = last_checkpoint items (some item.checkpoint)

-- What a stream's checkpoint becomes.
abbrev pub latest : {C : Type 0} → Option C → Option C → Option C
latest none previous = previous
latest (some last) previous = some last

abbrev pub is_confirmed : {C : Type 0} → Result (AtomicCheckpointResult C) → Bool
is_confirmed (ok (atomic_checkpoint_confirmed batch)) = true
is_confirmed _ = false

-- What the store and the state promise of a consumer's world, in which `view` shows the checkpoint
-- of a stream: loading answers it and changes nothing, advancing is a compare-and-set, and the
-- state is applied without touching checkpoints.
pub record IsWorld {W C P : Type 0} (port : CheckpointPort W C)
    (apply_state : P → Action W (Unit {0})) (view : W → String → Option C) : Type 0 where
  pub loads :
      (stream : String) (w : W)
      → (stream == "") ≡ false
      → port.load stream w ≡ (ok (view w stream), w)
  pub loads_for_update :
      (stream : String) (w : W)
      → (stream == "") ≡ false
      → port.load_for_update stream w ≡ (ok (view w stream), w)
  pub advances :
      (stream : String) (expected : Option C) (c : C) (w : W)
      → (port.advance stream expected c w).0 ≡ ok true
      → view (port.advance stream expected c w).1 stream ≡ some c
  pub refuses :
      (stream : String) (expected : Option C) (c : C) (w : W)
      → (port.advance stream expected c w).0 ≡ ok false
      → (port.advance stream expected c w).1 ≡ w
  pub applies : (p : P) (w : W) (stream : String) → view (apply_state p w).1 stream ≡ view w stream

module _ {W C P : Type 0} (port : CheckpointPort W C) (apply_state : P → Action W (Unit {0}))
    (view : W → String → Option C) (world : IsWorld port apply_state view) where
  -- The loop counts the items, ends with the last checkpoint, and leaves checkpoints alone.
  pub apply_items_lem :
      (items : List (CheckpointItem C P)) (last last' : Option C) (n n' : ℕ) (w w' : W)
      (stream : String)
      → apply_items apply_state items last n w ≡ (ok (last', n'), w')
      → (last' ≡ last_checkpoint items last)
        × (n' ≡ n + length items)
        × (view w' stream ≡ view w stream)
  unfolding apply_items
  apply_items_lem [] last last' n n' w w' stream h = (
    ground arith,
    ground arith,
    ground (arith, ap (λ (r : Result (Option C × ℕ) × W). view r.1 stream) h),
  )
  apply_items_lem (item ∷ items) last last' n n' w w' stream h = ground (
    arith,
    apply_items_lem items (some item.checkpoint) last' (suc n) n' (apply_state item.payload w).1 w'
        stream,
    world.applies item.payload w stream,
  )

  module _
      (atomic : Block W (CheckpointBatchResult C) (StaleCheckpoint C)
        → Block W (CheckpointBatchResult C) (StaleCheckpoint C))
      (transaction : IsAtomic atomic) where
    finish_confirmed :
        (stream : String) (previous : Option C) (last : Option C) (n : ℕ) (w : W)
        (batch : CheckpointBatchResult C) (w' : W)
        → finish port stream previous (last, n) w ≡ (returned batch, w')
        → (batch.applied ≡ n)
          × (batch.previous ≡ previous)
          × (batch.pending ≡ last)
          × (view w' stream ≡ latest last (view w stream))
    unfolding finish
    finish_confirmed stream previous none n w batch w' h = (
      ground arith,
      ground arith,
      ground arith,
      ground (
        arith,
        ap (λ (r : Outcome (CheckpointBatchResult C) (StaleCheckpoint C) × W). view r.1 stream) h,
      ),
    )
    finish_confirmed stream previous (some last) n w batch w' h =
        let set = world.advances stream previous last w in
        (
          ground arith,
          ground arith,
          ground arith,
          ground (
            arith,
            set,
            ap (λ (r : Outcome (CheckpointBatchResult C) (StaleCheckpoint C) × W). view r.1 stream)
                h,
          ),
        )

    -- An `apply` that is confirmed has applied every item, counted them, and moved the stream's
    -- checkpoint to that of the last item, or left it if there was none.
    block_confirmed :
        (stream : String) (items : List (CheckpointItem C P)) (w : W)
        (batch : CheckpointBatchResult C) (w' : W)
        → (stream == "") ≡ false
        → atomic_block port atomic apply_state stream items w ≡ (returned batch, w')
        → (batch.applied ≡ length items)
          × (batch.previous ≡ view w stream)
          × (batch.pending ≡ last_checkpoint items none)
          × (view w' stream ≡ latest (last_checkpoint items none) (view w stream))
    unfolding atomic_block
    block_confirmed stream items w batch w' named h =
        after_items (apply_items apply_state items none 0 w).0
          (apply_items apply_state items none 0 w).1 refl
          (sym (ap after_load (world.loads_for_update stream w named)) ∙ h)
      where
        after_load :
            Result (Option C) × W → Outcome (CheckpointBatchResult C) (StaleCheckpoint C) × W
        after_load p =
            (run (λ (v : W). p) >>= λ previous.
            run (apply_items apply_state items none 0) >>= finish port stream previous)
              w

        after_items :
            (r : Result (Option C × ℕ)) (w₁ : W)
            → apply_items apply_state items none 0 w ≡ (r, w₁)
            → (run (λ (v : W). (r, w₁)) >>= finish port stream (view w stream)) w
              ≡ (returned batch, w')
            → (batch.applied ≡ length items)
              × (batch.previous ≡ view w stream)
              × (batch.pending ≡ last_checkpoint items none)
              × (view w' stream ≡ latest (last_checkpoint items none) (view w stream))
        after_items (err e) w₁ q h' = absurd (cc)
        after_items (ok (last, n)) w₁ q h' =
            let (last_of, count, same) = apply_items_lem items none last 0 n w w₁ stream q in
            let (a, b, c, d) = finish_confirmed stream (view w stream) last n w₁ batch w' h' in
            ground arith

    -- All or nothing: an `apply` that reports a confirmed batch has applied every item, reports
    -- their number, the checkpoint found and that of the last item, and has moved the stream's
    -- checkpoint to it (or left it, if there was no item); any other `apply`, whether it reports a
    -- stale checkpoint or raises, leaves the world as it was.
    pub atomic_all_or_nothing :
        (stream : String) (items : List (CheckpointItem C P)) (w : W)
        (batch : CheckpointBatchResult C)
        → (stream == "") ≡ false
        → let r = apply_atomic port atomic apply_state stream items w in
          (r.0 ≡ ok (atomic_checkpoint_confirmed batch)
            → (batch.applied ≡ length items)
              × (batch.previous ≡ view w stream)
              × (batch.pending ≡ last_checkpoint items none)
              × (view r.1 stream ≡ latest (last_checkpoint items none) (view w stream)))
          × (is_confirmed r.0 ≡ false → r.1 ≡ w)
    unfolding apply_atomic
    atomic_all_or_nothing stream items w batch named =
        let block = atomic_block port atomic apply_state stream items in
        rw named (by_outcome (block w).0 (block w).1 refl)
      where
        by_outcome :
            (o : Outcome (CheckpointBatchResult C) (StaleCheckpoint C)) (w' : W)
            → atomic_block port atomic apply_state stream items w ≡ (o, w')
            → let r = handled (atomic (atomic_block port atomic apply_state stream items) w) in
              (r.0 ≡ ok (atomic_checkpoint_confirmed batch)
                → (batch.applied ≡ length items)
                  × (batch.previous ≡ view w stream)
                  × (batch.pending ≡ last_checkpoint items none)
                  × (view r.1 stream ≡ latest (last_checkpoint items none) (view w stream)))
              × (is_confirmed r.0 ≡ false → r.1 ≡ w)
        by_outcome (returned b) w' h =
            rw (transaction.commits (atomic_block port atomic apply_state stream items) w w' b h)
              (λ c. block_confirmed stream items w batch w' named (ground arith), λ c. cc)
        by_outcome (raised e) w' h =
            rw (transaction.aborts (atomic_block port atomic apply_state stream items) w w' e h)
              (λ c. absurd (cc), λ c. refl)
        by_outcome (rolled_back x) w' h =
            rw (transaction.rolls_back (atomic_block port atomic apply_state stream items) w w' x h)
              (λ c. absurd (cc), λ c. refl)

    -- An `apply` whose items are applied, and whose `advance` then answers True, is confirmed, and the
    -- world is the one that they leave.
    pub atomic_confirms :
        (stream : String) (items : List (CheckpointItem C P)) (last : C) (n : ℕ) (w w' w'' : W)
        → (stream == "") ≡ false
        → apply_items apply_state items none 0 w ≡ (ok (some last, n), w')
        → port.advance stream (view w stream) last w' ≡ (ok true, w'')
        → apply_atomic port atomic apply_state stream items w ≡ (
          ok (
              atomic_checkpoint_confirmed
                (record { applied = n; previous = view w stream; pending = some last })),
          w'',
        )
    unfolding apply_atomic
    atomic_confirms stream items last n w w' w'' named applied advanced =
        let batch : CheckpointBatchResult C = record {
          applied = n;
          previous = view w stream;
          pending = some last;
        } in
        let block : atomic_block port atomic apply_state stream items w ≡ (returned batch, w'') =
          unfold atomic_block in
          ap after_load (world.loads_for_update stream w named)
          ∙ ap after_items applied
          ∙ unfold finish in ap after_advance advanced in
        rw
          (
            named,
            transaction.commits (atomic_block port atomic apply_state stream items) w w'' batch
                block,
          )
          refl
      where
        after_load :
            Result (Option C) × W → Outcome (CheckpointBatchResult C) (StaleCheckpoint C) × W
        after_load p =
            (run (λ (v : W). p) >>= λ previous.
            run (apply_items apply_state items none 0) >>= finish port stream previous)
              w

        after_items :
            Result (Option C × ℕ) × W → Outcome (CheckpointBatchResult C) (StaleCheckpoint C) × W
        after_items p = (run (λ (v : W). p) >>= finish port stream (view w stream)) w

        after_advance : Result Bool × W → Outcome (CheckpointBatchResult C) (StaleCheckpoint C) × W
        after_advance p = (run (λ (v : W). p) >>= conclude port (view w stream) last n) w
