-- ===== src/Graph/Order.antt =====
-- `_order`, `validate` and `topological_order` of src/pytitect/sync/graph.py. The loop runs on fuel,
-- of which it is given one more than the datasets; `none` means that it ran out.
use pytitect.Prelude.{
  ℕ, zero, suc, String, Bool, true, false, not, Option, none, some, List, [], ◌∷◌, ◌++◌, ltb,
  if◌then◌else◌, length, filter, String_eq, Result, ok, err, value_error, or_else,
}
use pytitect.Prelude.Dict.{Dict, keys, elem, contains, pop_all}
use pytitect.Prelude.Sorting.{sorted, str_leb}
use pytitect.Prelude.Sets.{to_set}
use pytitect.Graph.Build.{DatasetDependencyGraph, parents}

pub data DependencyValidation : Type 0 where
  dependency_order : List String → DependencyValidation
  dependency_cycle : List String → DependencyValidation
  dependency_limit_exceeded : String → ℕ → DependencyValidation

abbrev pub is_empty : List String → Bool
is_empty [] = true
is_empty (x ∷ xs) = false

-- `{name: set(self._dependencies[name] & selected) for name in selected}`
unfoldable pub start :
    Dict String (List String) → List String → List String → Dict String (List String)
start d selected [] = []
start d selected (name ∷ names) =
    (name, filter (λ p. elem p selected) (parents d name)) ∷ start d selected names

-- The names that wait for nothing, sorted.
abbrev pub ready : Dict String (List String) → List String
ready pending = sorted str_leb (keys (filter (λ item. is_empty item.1) pending))

-- `parents.difference_update(names)` for each
unfoldable pub difference_update :
    List String → Dict String (List String) → Dict String (List String)
difference_update names [] = []
difference_update names ((k, ps) ∷ d) =
    (k, filter (λ p. not (elem p names)) ps) ∷ difference_update names d

-- What is pending after a round.
unfoldable pub waiting : Dict String (List String) → Dict String (List String)
unfolding difference_update pop_all
waiting pending = difference_update (ready pending) (pop_all (ready pending) pending)

-- The `while` loop, from the output so far.
unfoldable pub rounds : ℕ → Dict String (List String) → List String → Option DependencyValidation
unfolding waiting
rounds fuel [] output = some (dependency_order output)
rounds zero (item ∷ pending) output = none
rounds (suc fuel) (item ∷ pending) output =
    let next = rounds fuel (waiting (item ∷ pending)) (output ++ ready (item ∷ pending)) in
    if is_empty (ready (item ∷ pending))
    then some (dependency_cycle (sorted str_leb (keys (item ∷ pending))))
    else next

-- `_order`, of a selection without repetitions
unfoldable pub order : Dict String (List String) → List String → Option DependencyValidation
unfolding start rounds
order d selected = rounds (suc (length selected)) (start d selected selected) []

-- `validate`
unfoldable pub validate : DatasetDependencyGraph → Option DependencyValidation
unfolding order
validate g =
    if ltb g.limits.max_datasets (length g.dependencies)
    then some (dependency_limit_exceeded "datasets" g.limits.max_datasets)
    else order g.dependencies (keys g.dependencies)

-- `selected - self._dependencies.keys()` is not empty
abbrev pub has_unknown : Dict String (List String) → List String → Bool
has_unknown d [] = false
has_unknown d (name ∷ names) = if contains name d then has_unknown d names else true

-- `frozenset(self._dependencies if datasets is None else datasets)`
abbrev pub selected_by : DatasetDependencyGraph → Option (List String) → List String
selected_by g datasets = to_set (or_else datasets (keys g.dependencies))

-- `topological_order(datasets)`
unfoldable pub topological_order :
    DatasetDependencyGraph → Option (List String) → Result (Option DependencyValidation)
unfolding order
topological_order g datasets =
    let selected = selected_by g datasets in
    if ltb g.limits.max_datasets (length selected)
    then ok (some (dependency_limit_exceeded "datasets" g.limits.max_datasets))
    else if has_unknown g.dependencies selected
    then err value_error
    else ok (order g.dependencies selected)
