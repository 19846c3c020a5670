-- ===== src/Graph/Tests.antt =====
-- Tests of the dependency graph: a chain, a cycle, and theorems applied to them.
use pytitect.Prelude.{
  String, Bool, true, false, ◌≡◌, refl, some, List, [], ◌∷◌, arith, ok, err, value_error, String_eq,
}
use pytitect.Prelude.Sorting.{sorted}
use pytitect.Prelude.Dict.{get, put, Dict, keys, elem}
use pytitect.Prelude.Sets.{to_set}
use pytitect.Graph.Build.{
  DatasetDependencyGraph, DependencyGraphLimits, dependency_graph_limits, build, build-IsClosed,
}
use pytitect.Graph.Order.{dependency_order, dependency_cycle, validate, topological_order}
use pytitect.Graph.Answers.{Answers, build-validate-Answers, topological_order_cycle}
use pytitect.Graph.Closure.{closure, Closes, DependencyClosureResult, closure-Closes}

abbrev limits : DependencyGraphLimits
limits = record { max_datasets = 3; max_partitions = 1 }

abbrev items : Dict String (List String)
items = ("c", "b" ∷ "a" ∷ []) ∷ ("b", "a" ∷ []) ∷ []

abbrev chain : DatasetDependencyGraph
chain = record {
  limits = limits;
  dependencies = ("c", "b" ∷ "a" ∷ []) ∷ ("b", "a" ∷ []) ∷ ("a", []) ∷ [];
}

abbrev any_name : String → Bool
any_name name = true

no_datasets : dependency_graph_limits 0 3 ≡ err value_error
unfolding dependency_graph_limits
no_datasets = refl

chain_built : build any_name limits items ≡ ok chain
unfolding build put get
chain_built = refl

chain_validated : validate chain ≡ some (dependency_order ("a" ∷ "b" ∷ "c" ∷ []))
unfolding validate sorted get
chain_validated = refl

chain_closed :
    closure chain ("b" ∷ []) []
    ≡ ok (some (DependencyClosureResult.dependency_closure ("a" ∷ "b" ∷ [])))
unfolding closure sorted get
chain_closed = refl

empty_name : build any_name limits (("", []) ∷ []) ≡ err value_error
unfolding build
empty_name = refl

abbrev ring : DatasetDependencyGraph
ring = record { limits = limits; dependencies = ("x", "y" ∷ []) ∷ ("y", "x" ∷ []) ∷ ("z", []) ∷ [] }

ring_reported :
    topological_order ring (some ("x" ∷ "z" ∷ "y" ∷ []))
    ≡ ok (some (dependency_cycle ("x" ∷ "y" ∷ [])))
unfolding topological_order sorted get
ring_reported = refl

build-validate-Answers_example :
    Answers chain.dependencies (keys chain.dependencies) (validate chain)
build-validate-Answers_example =
    build-validate-Answers any_name limits items chain chain_built (omega arith)

topological_order_cycle_example : elem {K = String} "x" ("z" ∷ []) ≡ false
unfolding get
topological_order_cycle_example =
    topological_order_cycle ring (some ("x" ∷ "z" ∷ "y" ∷ [])) ("x" ∷ "y" ∷ []) ("z" ∷ [])
      ring_reported ((λ p h k. absurd (cc h)), tt) "x" refl

closure-Closes_example :
    (r : DependencyClosureResult) × (closure chain ("b" ∷ []) [] ≡ ok (some r))
    × Closes chain.dependencies (to_set ("b" ∷ [])) 3 r
unfolding get
closure-Closes_example =
    closure-Closes chain ("b" ∷ []) [] (build-IsClosed any_name limits items chain chain_built)
      (omega arith) refl
