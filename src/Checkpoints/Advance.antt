-- ===== src/Checkpoints/Advance.antt =====
-- `advance` is a compare-and-set.
use pytitect.Prelude.{
  leb, not, ◌&&◌, ◌≤◌, String, true, false, ◌≡◌, ◌≢◌, Option, some, Eq, ◌==◌, String_eq, option_eq,
  option_beq_iff, arith, length, ok, if◌then◌else◌,
}
use pytitect.Prelude.Dict.{contains, get, get-put, length-put}
use pytitect.Checkpoints.Store.{CheckpointStore, advance}

module _ {C : Type 0} ⦃e : Eq C⦄ where
  -- Whatever `advance` does, the store holds no more than its capacity, if it did not before.
  pub advance-fits :
      (stream : String) (expected : Option C) (checkpoint : C) (s : CheckpointStore C)
      → length s.stored ≤ s.capacity
      → length (advance stream expected checkpoint s).1.stored
        ≤ (advance stream expected checkpoint s).1.capacity
  unfolding advance
  advance-fits stream expected checkpoint s h =
      ground (arith, length-put s.stored stream checkpoint)

  -- `advance` that answers True found the expected checkpoint and stored the new one, and left the
  -- other streams alone; if it answers anything else, or raises, the store is as it was; and it
  -- answers True whenever the stream has a name and the expected checkpoint, and is stored already
  -- or has room.
  pub advance_cas :
      (stream : String) (expected : Option C) (checkpoint : C) (s : CheckpointStore C) (j : String)
      → let r = advance stream expected checkpoint s in
        (r.0 ≡ ok true
          → (get stream s.stored ≡ expected)
            × (get j r.1.stored ≡ (if stream == j then some checkpoint else get j s.stored)))
        × (r.0 ≢ ok true → r.1 ≡ s)
        × ((stream == "") ≡ false
            → get stream s.stored ≡ expected
            → (not (contains stream s.stored) && leb s.capacity (length s.stored)) ≡ false
            → r.0 ≡ ok true)
  unfolding advance
  advance_cas stream expected checkpoint s j = (
    λ h. ground (
      arith,
      get-put s.stored stream j checkpoint,
      option_beq_iff (get stream s.stored) expected,
    ),
    λ h. ground arith,
    λ named same room. ground (arith, option_beq_iff (get stream s.stored) expected),
  )

  -- Of two writers that read the same checkpoint, at most one advances: once a new checkpoint is
  -- stored, `advance` that expects another one answers False and changes nothing.
  pub advance_stale :
      (stream : String) (expected expected' : Option C) (checkpoint checkpoint' : C)
      (s : CheckpointStore C)
      → let s' = (advance stream expected checkpoint s).1 in
        (advance stream expected checkpoint s).0 ≡ ok true
        → expected' ≢ some checkpoint
        → advance stream expected' checkpoint' s' ≡ (ok false, s')
  unfolding advance
  advance_stale stream expected expected' checkpoint checkpoint' s h differs = ground (
    arith,
    get-put s.stored stream stream checkpoint,
    String_eq.beq_iff stream stream,
    option_beq_iff (some checkpoint) expected',
  )
