-- ===== src/Generations/Tests.antt =====
-- Tests of the generation guard: one dataset at generation 1, and theorems applied to it.
use pytitect.Prelude.{
  ℕ, ◌+◌, String, ◌≡◌, ◌≢◌, refl, Option, some, [], ◌∷◌, ok, err, Error, String_eq, ℕ_eq, option_eq,
  Action,
}
use pytitect.Prelude.Dict.{get}
use pytitect.Transactions.{snapshot, snapshot-IsAtomic}
use pytitect.Generations.{
  Identity, identity_eq, GenerationStore, GenerationResult, generation_committed, stale_generation,
  commit, commit_guarded,
}

abbrev stored : GenerationStore
stored = record { capacity = 2; generations = (("sales", "eu"), 1) ∷ [] }

abbrev World : Type 0
World = GenerationStore × ℕ

abbrev load : String → String → Action World (Option ℕ)
load dataset partition (s, n) = (ok (get (dataset, partition) s.generations), (s, n))

abbrev view : World → Identity → Option ℕ
view (s, n) i = get i s.generations

abbrev add_five : Action World ℕ
add_five (s, n) = (ok (n + 5), (s, n + 5))

commit_guarded_example :
    (view (stored, 3) ("sales", "eu") ≢ some 1
      → commit load snapshot "sales" "eu" 1 add_five (stored, 3)
        ≡ (ok (stale_generation 1 (view (stored, 3) ("sales", "eu"))), (stored, 3)))
    × (view (stored, 3) ("sales", "eu") ≡ some 1
        → ((a : ℕ) (w' : World)
            → add_five (stored, 3) ≡ (ok a, w')
            → commit load snapshot "sales" "eu" 1 add_five (stored, 3)
              ≡ (ok (generation_committed a 1), w'))
          × ((e : Error) (w' : World)
              → add_five (stored, 3) ≡ (err e, w')
              → commit load snapshot "sales" "eu" 1 add_five (stored, 3) ≡ (err e, (stored, 3))))
commit_guarded_example =
    commit_guarded load snapshot view "sales" "eu" 1 add_five (stored, 3)
      (snapshot-IsAtomic World (GenerationResult ℕ) ⊥) (λ w. refl) refl
