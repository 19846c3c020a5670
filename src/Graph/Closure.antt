-- ===== src/Graph/Closure.antt =====
-- `closure` of src/pytitect/sync/graph.py.
use pytitect.Prelude.{
  ℕ, ◌+◌, ◌≤◌, ◌<◌, String, Bool, true, false, ◌||◌, ◌≡◌, ◌↔◌, refl, sym, ◌∙◌, Option, none, some,
  List, [], ◌∷◌, if◌then◌else◌, length, ◌==◌, String_eq, arith, inl, inr, Bool-cases, ok, err,
  Result, ltb, value_error,
}
use pytitect.Prelude.Dict.{Dict, keys, elem}
use pytitect.Prelude.Sets.{count, elem-count, to_set, count-to_set}
use pytitect.Graph.Build.{DatasetDependencyGraph, IsClosed}
use pytitect.Graph.Order.{DependencyValidation, order, has_unknown}
use pytitect.Graph.Rounds.{IsTopological}
use pytitect.Graph.Ends.{IsBlocked}
use pytitect.Graph.Answers.{Answers, order-Answers}
use pytitect.Graph.Walk.{walk, Reach, Inv, unseen, walk-exact}

pub data DependencyClosureResult : Type 0 where
  dependency_closure : List String → DependencyClosureResult
  dependency_cycle : List String → DependencyClosureResult
  dependency_limit_exceeded : String → ℕ → DependencyClosureResult

-- The last lines of `closure`, from what `_order` returns.
abbrev pub as_closure : Option DependencyValidation → Option DependencyClosureResult
as_closure none = none
as_closure (some (DependencyValidation.dependency_order names)) = some (dependency_closure names)
as_closure (some (DependencyValidation.dependency_cycle names)) = some (dependency_cycle names)
as_closure (some (DependencyValidation.dependency_limit_exceeded resource limit)) =
    some (dependency_limit_exceeded resource limit)

abbrev pub close_walk :
    DatasetDependencyGraph → Option (List String) → Option DependencyClosureResult
close_walk g none = none
close_walk g (some selected) =
    if ltb g.limits.max_datasets (length selected)
    then some (dependency_limit_exceeded "datasets" g.limits.max_datasets)
    else as_closure (order g.dependencies selected)

-- `closure(datasets, partitions=...)`; the loop has as much fuel as there are datasets to select.
unfoldable pub closure :
    DatasetDependencyGraph → List String → List String → Result (Option DependencyClosureResult)
unfolding order walk
closure g datasets partitions =
    let requested = to_set datasets in
    if ltb g.limits.max_partitions (length (to_set partitions))
    then ok (some (dependency_limit_exceeded "partitions" g.limits.max_partitions))
    else if has_unknown g.dependencies requested
    then err value_error
    else ok (
        close_walk g
          (walk (length requested + length g.dependencies) g.dependencies requested requested))

module _ (d : Dict String (List String)) (requested : List String) where
  -- More datasets than the limit can be reached.
  pub record TooMany (limit : ℕ) : Type 0 where
    pub names : List String
    pub more : limit < length names
    pub distinct : (x : String) → count x names ≤ 1
    pub reached : (x : String) → elem x names ≡ true → Reach d requested x

  -- What a result says: the datasets that can be reached, each once and after its parents; some of
  -- them that wait for one another; or that they are more than the limit.
  abbrev pub Closes : ℕ → DependencyClosureResult → Type 0
  Closes limit (dependency_closure names) =
      IsTopological d names (λ q. false) names
      × ((x : String) → (elem x names ≡ true) ↔ Reach d requested x)
      × ((x : String) → count x names ≤ 1)
  Closes limit (dependency_cycle names) =
      IsBlocked d names names × ((x : String) → elem x names ≡ true → Reach d requested x)
  Closes limit (dependency_limit_exceeded resource bound) =
      (resource ≡ "datasets") × (bound ≡ limit) × TooMany limit

IsTopological-fewer :
    (d : Dict String (List String)) (selected selected' : List String) (placed : String → Bool)
    (xs : List String)
    → ((q : String) → elem q selected' ≡ true → elem q selected ≡ true)
    → IsTopological d selected placed xs
    → IsTopological d selected' placed xs
IsTopological-fewer d selected selected' placed [] fewer t = tt
IsTopological-fewer d selected selected' placed (x ∷ xs) fewer t = (
  λ p h k. t.0 p h (fewer p k),
  IsTopological-fewer d selected selected' (λ q. placed q || x == q) xs fewer t.1,
)

unseen-le-length :
    (selected : List String) (d : Dict String (List String)) → unseen selected (keys d) ≤ length d
unseen-le-length selected [] = omega arith
unseen-le-length selected ((k, ps) ∷ d) = ground (arith, unseen-le-length selected d)

module _ (g : DatasetDependencyGraph) (datasets : List String) where
  as_closure-Closes :
      (selected : List String) (o : Option DependencyValidation)
      → ((x : String) → (elem x selected ≡ true) ↔ Reach g.dependencies (to_set datasets) x)
      → Answers g.dependencies selected o
      → (r : DependencyClosureResult) × (as_closure o ≡ some r)
        × Closes g.dependencies (to_set datasets) g.limits.max_datasets r
  as_closure-Closes selected none exact a = absurd a
  as_closure-Closes selected (some (DependencyValidation.dependency_limit_exceeded resource limit))
        exact a =
      absurd a
  as_closure-Closes selected (some (DependencyValidation.dependency_cycle names)) exact a = (
    dependency_cycle names,
    refl,
    (record { any = a.any; within = λ x h. h; waits = a.waits }, λ x h. (exact x).0 (a.within x h)),
  )
  as_closure-Closes selected (some (DependencyValidation.dependency_order names)) exact a =
      let same : (x : String) → elem x names ≡ elem x selected =
        λ x. ground (arith, elem-count x names, a.1 x) in
      (
        dependency_closure names,
        refl,
        (
          IsTopological-fewer g.dependencies selected names (λ q. false) names
              (λ q h. sym (same q) ∙ h) a.0,
          λ x. (λ h. (exact x).0 (sym (same x) ∙ h), λ r. same x ∙ (exact x).1 r),
          λ x. ground (arith, a.1 x),
        ),
      )

  close_walk-Closes :
      (selected : List String)
      → ((x : String) → (elem x selected ≡ true) ↔ Reach g.dependencies (to_set datasets) x)
      → ((x : String) → count x selected ≤ 1)
      → (r : DependencyClosureResult) × (close_walk g (some selected) ≡ some r)
        × Closes g.dependencies (to_set datasets) g.limits.max_datasets r
  close_walk-Closes selected exact once =
      elim (Bool-cases (ltb g.limits.max_datasets (length selected))) [
        | inl more ↦ (
          dependency_limit_exceeded "datasets" g.limits.max_datasets,
          rw more,
          (
            refl,
            refl,
            record {
              names = selected;
              more = ground arith;
              distinct = once;
              reached = λ x. (exact x).0;
            },
          ),
        )
        | inr fits ↦ rw fits (
            as_closure-Closes selected (order g.dependencies selected) exact
              (order-Answers g.dependencies selected once))
      ]

  -- `closure` of known datasets of a graph that the constructor accepted, with no more partitions than
  -- the limit, returns a result that is right.
  pub closure-Closes :
      (partitions : List String)
      → IsClosed g.dependencies
      → length (to_set partitions) ≤ g.limits.max_partitions
      → has_unknown g.dependencies (to_set datasets) ≡ false
      → (r : DependencyClosureResult) × (closure g datasets partitions ≡ ok (some r))
        × Closes g.dependencies (to_set datasets) g.limits.max_datasets r
  unfolding closure
  closure-Closes partitions closed le known =
      let requested = to_set datasets in
      let begin : Inv g.dependencies requested "" []
          (record { selected = requested; pending = requested }) =
        record {
          reached = λ x h. Reach.of_requested h;
          begun = λ x h. h;
          stacked = λ x h. h;
          once = λ x. ground (arith, count-to_set x datasets);
          to_come = λ p h. absurd (cc h);
          followed = λ x p h k. absurd (cc (h, k));
        } in
      let (selected, runs, exact, once) =
        walk-exact g.dependencies requested closed.closed (length requested + length g.dependencies)
          "" requested requested begin (omega (arith, unseen-le-length requested g.dependencies)) in
      let (r, closes, right) = close_walk-Closes selected exact once in
      (r, ground (arith, runs, closes), right)
