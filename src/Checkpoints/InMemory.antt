-- ===== src/Checkpoints/InMemory.antt =====
-- The in-memory checkpoint store keeps what the coordinators rely on, beside any state of the
-- consumer's that `apply_state` changes.
use pytitect.Prelude.{String, refl, Option, Eq, String_eq, option_eq, Action, arith}
use pytitect.Prelude.Dict.{get, get-put}
use pytitect.Checkpoints.Store.{CheckpointStore, load, advance}
use pytitect.Checkpoints.Coordinators.{CheckpointPort}
use pytitect.Checkpoints.Atomic.{IsWorld}

-- A method of the first part, and of the second part, of a world of two.
abbrev pub on_store : {S D A : Type 0} → Action S A → Action (S × D) A
on_store m w = let (r, s) = m w.0 in (r, (s, w.1))

abbrev pub on_state : {S D A : Type 0} → Action D A → Action (S × D) A
on_state m w = let (r, d) = m w.1 in (r, (w.0, d))

module _ {C : Type 0} ⦃e : Eq C⦄ {D : Type 0} where
  abbrev pub in_memory : CheckpointPort (CheckpointStore C × D) C
  in_memory = record {
    load = λ stream. on_store (load stream);
    load_for_update = λ stream. on_store (load stream);
    advance = λ stream expected checkpoint. on_store (advance stream expected checkpoint);
  }

  abbrev pub stored_view : CheckpointStore C × D → String → Option C
  stored_view w stream = get stream w.0.stored

  pub in_memory-IsWorld :
      {P : Type 0} (apply_state : P → Action D (Unit {0}))
      → IsWorld in_memory (λ p. on_state (apply_state p)) stored_view
  unfolding load advance
  in_memory-IsWorld apply_state = record {
    loads = λ stream w named. ground arith;
    loads_for_update = λ stream w named. ground arith;
    advances = λ stream expected c w h.
        ground (arith, get-put w.0.stored stream stream c, String_eq.beq_iff stream stream);
    refuses = λ stream expected c w h. ground arith;
    applies = λ p w stream. refl;
  }
