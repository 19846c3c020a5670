-- ===== src/Generations.antt =====
-- Generation guards, src/pytitect/sync/generations.py: the in-memory store, and the guard that
-- compares and mutates in one transaction.
pub mod Harness
mod Tests
use pytitect.Prelude.{
  ℕ, ◌≤◌, String, Bool, true, false, ◌&&◌, ◌||◌, not, ◌≡◌, ◌≢◌, refl, Option, none, some, [], leb,
  if◌then◌else◌, length, Eq, ◌==◌, ℕ_eq, String_eq, option_eq, option_beq_iff, pair_eq, Action,
  Result, ok, err, Error, value_error, overflow_error, arith, inl, inr, Bool-cases, ◌∙◌, ap, sym,
}
use pytitect.Prelude.Dict.{Dict, get, put, contains, get-put, length-put}
use pytitect.Transactions.{Outcome, returned, raised, rolled_back, Block, run, ◌>>=◌, IsAtomic}

-- A dataset and a partition.
abbrev pub Identity : Type 0
Identity = String × String

instance abbrev pub identity_eq : Eq Identity
identity_eq = pair_eq

pub record GenerationStore : Type 0 where
  pub capacity : ℕ
  pub generations : Dict Identity ℕ

-- `InMemoryGenerationStore(capacity=...)`
unfoldable pub new : ℕ → Result GenerationStore
new capacity =
    if capacity == 0 then err value_error else ok (record { capacity = capacity; generations = [] })

unfoldable pub load_for_update : String → String → Action GenerationStore (Option ℕ)
load_for_update dataset partition s =
    if (dataset == "") || (partition == "")
    then (err value_error, s)
    else (ok (get (dataset, partition) s.generations), s)

unfoldable pub compare_and_set_locked : Identity → Option ℕ → ℕ → Action GenerationStore Bool
compare_and_set_locked i expected generation s =
    if not (get i s.generations == expected)
    then (ok false, s)
    else if not (contains i s.generations) && leb s.capacity (length s.generations)
    then (err overflow_error, s)
    else (ok true, record s { generations = put i generation s.generations })

-- Generations are naturals here: the tests for booleans and negative numbers have no counterpart.
unfoldable pub compare_and_set : String → String → Option ℕ → ℕ → Action GenerationStore Bool
unfolding compare_and_set_locked
compare_and_set dataset partition expected generation s =
    if (dataset == "") || (partition == "")
    then (err value_error, s)
    else compare_and_set_locked (dataset, partition) expected generation s

-- `compare_and_set` that answers True found the expected generation and stored the new one, and
-- left every other identity alone; if it answers anything else, or raises, the store is as it was;
-- it never takes a store past its capacity; and it answers True whenever dataset and partition have
-- names and the expected generation, and are stored already or have room.
pub compare_and_set_cas :
    (dataset partition : String) (expected : Option ℕ) (generation : ℕ) (s : GenerationStore)
    (j : Identity)
    → let r = compare_and_set dataset partition expected generation s in
      (r.0 ≡ ok true
        → (get (dataset, partition) s.generations ≡ expected)
          × (get j r.1.generations
              ≡ (if (dataset, partition) == j then some generation else get j s.generations)))
      × (r.0 ≢ ok true → r.1 ≡ s)
      × (length s.generations ≤ s.capacity → length r.1.generations ≤ r.1.capacity)
      × (((dataset == "") || (partition == "")) ≡ false
          → get (dataset, partition) s.generations ≡ expected
          → (not (contains (dataset, partition) s.generations)
              && leb s.capacity (length s.generations))
            ≡ false
          → r.0 ≡ ok true)
unfolding compare_and_set
compare_and_set_cas dataset partition expected generation s j = (
  λ h. ground (
    arith,
    get-put s.generations (dataset, partition) j generation,
    option_beq_iff (get (dataset, partition) s.generations) expected,
  ),
  λ h. ground arith,
  λ h. ground (arith, length-put s.generations (dataset, partition) generation),
  λ named same room.
      ground (arith, option_beq_iff (get (dataset, partition) s.generations) expected),
)

pub data GenerationResult (A : Type 0) : Type 0 where
  generation_committed : A → ℕ → GenerationResult A
  stale_generation : ℕ → Option ℕ → GenerationResult A

module _ {W A : Type 0} (load : String → String → Action W (Option ℕ))
    (atomic : Block W (GenerationResult A) ⊥ → Block W (GenerationResult A) ⊥) where
  -- `return GenerationCommitted(mutation(), actual)`
  abbrev pub committed : ℕ → Result A × W → Outcome (GenerationResult A) ⊥ × W
  committed actual (ok a, w) = (returned (generation_committed a actual), w)
  committed actual (err e, w) = (raised e, w)

  abbrev pub guard_found : ℕ → Action W A → Option ℕ → Block W (GenerationResult A) ⊥
  guard_found expected mutation actual w =
      if not (actual == some expected)
      then (returned (stale_generation expected actual), w)
      else committed expected (mutation w)

  abbrev pub unwrap : Outcome (GenerationResult A) ⊥ × W → Result (GenerationResult A) × W
  unwrap (returned r, w) = (ok r, w)
  unwrap (raised e, w) = (err e, w)
  unwrap (rolled_back x, w) = absurd x

  -- `GenerationGuard(store, transaction).commit(...)`; `load` is the store's `load_for_update`
  unfoldable pub commit : String → String → ℕ → Action W A → Action W (GenerationResult A)
  commit dataset partition expected mutation w =
      if (dataset == "") || (partition == "")
      then (err value_error, w)
      else unwrap (atomic (run (load dataset partition) >>= guard_found expected mutation) w)

  guard_block :
      (dataset partition : String) (actual : Option ℕ) (expected : ℕ) (mutation : Action W A)
      (w : W)
      → load dataset partition w ≡ (ok actual, w)
      → (run (load dataset partition) >>= guard_found expected mutation) w
        ≡ guard_found expected mutation actual w
  guard_block dataset partition actual expected mutation w h =
      ap (λ p. (run (λ v. p) >>= guard_found expected mutation) w) h

  guard_same :
      (actual : Option ℕ) (expected : ℕ) (mutation : Action W A) (w : W)
      → actual ≡ some expected
      → guard_found expected mutation actual w ≡ committed expected (mutation w)
  guard_same actual expected mutation w h = ground (arith, option_beq_iff actual (some expected), h)

  guard_other :
      (actual : Option ℕ) (expected : ℕ) (mutation : Action W A) (w : W)
      → actual ≢ some expected
      → guard_found expected mutation actual w ≡ (returned (stale_generation expected actual), w)
  guard_other actual expected mutation w h =
      ground (arith, option_beq_iff actual (some expected), h)

  -- With a store whose `load_for_update` answers what `view` shows and changes nothing: `commit`
  -- runs the mutation exactly if the generation is the expected one, and answers its value with
  -- that generation; if the mutation raises, so does `commit`, and the world is as it was; and if
  -- the generation is another or absent, the world is as it was and the answer names both.
  pub commit_guarded :
      (view : W → Identity → Option ℕ) (dataset partition : String) (expected : ℕ)
      (mutation : Action W A) (w : W)
      → IsAtomic atomic
      → ((w : W) → load dataset partition w ≡ (ok (view w (dataset, partition)), w))
      → ((dataset == "") || (partition == "")) ≡ false
      → (view w (dataset, partition) ≢ some expected
          → commit dataset partition expected mutation w
            ≡ (ok (stale_generation expected (view w (dataset, partition))), w))
        × (view w (dataset, partition) ≡ some expected
            → ((a : A) (w' : W)
                → mutation w ≡ (ok a, w')
                → commit dataset partition expected mutation w
                  ≡ (ok (generation_committed a expected), w'))
              × ((e : Error) (w' : W)
                  → mutation w ≡ (err e, w')
                  → commit dataset partition expected mutation w ≡ (err e, w)))
  unfolding commit
  commit_guarded view dataset partition expected mutation w transaction loads named =
      let actual : Option ℕ = view w (dataset, partition) in
      let block : Block W (GenerationResult A) ⊥ =
        run (load dataset partition) >>= guard_found expected mutation in
      let found : block w ≡ guard_found expected mutation actual w =
        guard_block dataset partition actual expected mutation w (loads w) in
      (
        λ differs.
            let stale : block w ≡ (returned (stale_generation expected actual), w) =
              found ∙ guard_other actual expected mutation w differs in
            rw (named, transaction.commits block w w (stale_generation expected actual) stale) refl,
        λ same.
            let runs : block w ≡ committed expected (mutation w) =
              found ∙ guard_same actual expected mutation w same in
            (
              λ a w' h.
                  rw
                    (
                      named,
                      transaction.commits block w w' (generation_committed a expected)
                          (runs ∙ ap (committed expected) h),
                    )
                    refl,
              λ e w' h.
                  rw (named, transaction.aborts block w w' e (runs ∙ ap (committed expected) h))
                    refl,
            ),
      )
