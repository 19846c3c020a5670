-- ===== src/Checkpoints/Deferred.antt =====
-- The deferred coordinator: the state is committed first, and the report on the checkpoint is true.
use pytitect.Prelude.{
  ℕ, String, Bool, true, false, ◌≡◌, refl, Option, none, some, List, length, ◌==◌, String_eq,
  Action, Result, ok, err, arith, ◌∙◌, ap,
}
use pytitect.Transactions.{returned, Block, run, IsAtomic}
use pytitect.Checkpoints.Coordinators.{
  CheckpointPort, CheckpointItem, DeferredCheckpointResult, state_committed_checkpoint_confirmed,
  state_committed_checkpoint_unconfirmed, apply_items, confirm, confirmed, apply_deferred,
}
use pytitect.Checkpoints.Atomic.{IsWorld, last_checkpoint, latest, apply_items_lem}

module _ {W C P : Type 0} (view : W → String → Option C) where
  -- The answer, from what the items did.
  abbrev pub Reports :
      String → List (CheckpointItem C P) → W → W → Result (DeferredCheckpointResult C) × W → Type 0
  Reports stream items w w' (ok (state_committed_checkpoint_confirmed batch), w'') =
      (batch.applied ≡ length items)
      × (view w'' stream ≡ latest (last_checkpoint items none) (view w stream))
  Reports stream items w w' (ok (state_committed_checkpoint_unconfirmed batch), w'') =
      (batch.applied ≡ length items) × (w'' ≡ w') × (view w'' stream ≡ view w stream)
  Reports stream items w w' (err e, w'') = Unit

  -- The answer, from whether the items were applied or raised.
  abbrev pub AfterItems :
      String
      → List (CheckpointItem C P)
      → W
      → W
      → Result (DeferredCheckpointResult C) × W
      → Result (Option C × ℕ)
      → Type 0
  AfterItems stream items w w' r (ok progress) = Reports stream items w w' r
  AfterItems stream items w w' r (err e) = r ≡ (err e, w)

module _ {W C P : Type 0} (port : CheckpointPort W C) (apply_state : P → Action W (Unit {0}))
    (view : W → String → Option C) (world : IsWorld port apply_state view)
    (atomic : Block W (Option C × ℕ) ⊥ → Block W (Option C × ℕ) ⊥)
    (transaction : IsAtomic atomic) where
  confirm_lem :
      (stream : String) (items : List (CheckpointItem C P)) (last : Option C) (n : ℕ) (w w' : W)
      → last ≡ last_checkpoint items none
      → n ≡ length items
      → view w' stream ≡ view w stream
      → Reports view stream items w w'
          (confirm port atomic apply_state stream (view w stream) (returned (last, n), w'))
  unfolding confirm
  confirm_lem stream items none n w w' l c same = (c, ground arith)
  confirm_lem stream items (some last) n w w' l c same =
      moved_lem (port.advance stream (view w stream) last w').0 refl
    where
      moved_lem :
          (r : Result Bool)
          → (port.advance stream (view w stream) last w').0 ≡ r
          → Reports view stream items w w' (elim r [
            | ok moved ↦ (
              ok (
                  confirmed moved
                    (record { applied = n; previous = view w stream; pending = some last })),
              (port.advance stream (view w stream) last w').1,
            )
            | err e ↦ (err e, (port.advance stream (view w stream) last w').1)
          ])
      moved_lem (err e) q = tt
      moved_lem (ok true) q = (
        c,
        world.advances stream (view w stream) last w' q ∙ ap (λ o. latest o (view w stream)) l,
      )
      moved_lem (ok false) q =
          let stays = world.refuses stream (view w stream) last w' q in
          (c, stays, ap (λ v. view v stream) stays ∙ same)

  -- If applying the items raises, the deferred `apply` raises the same and the world is as it was.
  -- If they are applied, ending in a world `w'`, then an answer "confirmed" means that the stream's
  -- checkpoint is that of the last item (or the old one, if there was none); an answer "unconfirmed"
  -- means that the world is `w'`, with the state of all items and the old checkpoint. Both count
  -- the items.
  pub deferred_reports :
      (stream : String) (items : List (CheckpointItem C P)) (w : W)
      → (stream == "") ≡ false
      → let r = apply_deferred port atomic apply_state stream items w in
        let (done, w') = apply_items apply_state items none 0 w in
        AfterItems view stream items w w' r done
  unfolding apply_deferred
  deferred_reports stream items w named =
      by_items (apply_items apply_state items none 0 w).0 (apply_items apply_state items none 0 w).1
        refl
    where
      after_load : Result (Option C) × W → Result (DeferredCheckpointResult C) × W
      after_load p = elim p.0 [
        | ok previous ↦
            confirm port atomic apply_state stream previous
              (atomic (run (apply_items apply_state items none 0)) p.1)
        | err e ↦ (err e, p.1)
      ]

      loaded :
          apply_deferred port atomic apply_state stream items w
          ≡ confirm port atomic apply_state stream
              (view w stream)
              (atomic (run (apply_items apply_state items none 0)) w)
      loaded = rw named (ap after_load (world.loads stream w named))

      by_items :
          (done : Result (Option C × ℕ)) (w' : W)
          → apply_items apply_state items none 0 w ≡ (done, w')
          → AfterItems view stream items w w'
              (apply_deferred port atomic apply_state stream items w)
              done
      by_items (ok (last, n)) w' q =
          let (l, c, same) =
            apply_items_lem port apply_state view world items none last 0 n w w' stream q in
          let h =
            transaction.commits (run (apply_items apply_state items none 0)) w w' (last, n)
              (rw q refl) in
          rw (loaded, h) (confirm_lem stream items last n w w' l (ground arith) same)
      by_items (err e) w' q =
          let h =
            transaction.aborts (run (apply_items apply_state items none 0)) w w' e (rw q refl) in
          rw (loaded, h) refl
