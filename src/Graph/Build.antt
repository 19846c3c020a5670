-- ===== src/Graph/Build.antt =====
-- `DatasetDependencyGraph` of src/pytitect/sync/graph.py: limits and construction. A frozenset is
-- a list that is asked for its members; `value == value.strip()` of a name is the test `trimmed`.
use pytitect.Prelude.{
  ℕ, String, Bool, true, ◌&&◌, ◌||◌, not, ◌≡◌, refl, sym, List, [], ◌∷◌, ◌++◌, if◌then◌else◌, ◌==◌,
  ℕ_eq, String_eq, or_else, arith, Result, ok, err, value_error,
}
use pytitect.Prelude.Dict.{Dict, get, put, elem, contains, get-put, IsUnique, put-IsUnique}
use pytitect.Prelude.Sets.{elem-append}

pub record DependencyGraphLimits : Type 0 where
  pub max_datasets : ℕ
  pub max_partitions : ℕ

-- `DependencyGraphLimits(max_datasets, max_partitions)`
unfoldable pub dependency_graph_limits : ℕ → ℕ → Result DependencyGraphLimits
dependency_graph_limits max_datasets max_partitions =
    if (max_datasets == 0) || (max_partitions == 0)
    then err value_error
    else ok (record { max_datasets = max_datasets; max_partitions = max_partitions })

pub record DatasetDependencyGraph : Type 0 where
  pub limits : DependencyGraphLimits
  pub dependencies : Dict String (List String)

-- `self._dependencies[name]`, of a name that is a key
abbrev pub parents : Dict String (List String) → String → List String
parents d name = or_else (get name d) []

-- `{item for parents in copied.values() for item in parents}`
abbrev pub all_parents : Dict String (List String) → List String
all_parents [] = []
all_parents ((dataset, ps) ∷ d) = ps ++ all_parents d

-- `copied.setdefault(parent, frozenset())` for each
unfoldable pub set_defaults : List String → Dict String (List String) → Dict String (List String)
set_defaults [] copied = copied
set_defaults (p ∷ ps) copied =
    set_defaults ps (if contains p copied then copied else put p [] copied)

abbrev pub finish_build :
    DependencyGraphLimits → Result (Dict String (List String)) → Result DatasetDependencyGraph
finish_build limits (err x) = err x
finish_build limits (ok copied) =
    ok (record { limits = limits; dependencies = set_defaults (all_parents copied) copied })

module _ (trimmed : String → Bool) where
  -- `_dataset`
  abbrev pub dataset_ok : String → Bool
  dataset_ok name = not ((name == "") || not (trimmed name))

  abbrev pub all_ok : List String → Bool
  all_ok [] = true
  all_ok (name ∷ names) = dataset_ok name && all_ok names

  -- The first loop of `__init__`.
  unfoldable pub copy :
      Dict String (List String) → Dict String (List String) → Result (Dict String (List String))
  copy [] copied = ok copied
  copy ((dataset, ps) ∷ items) copied =
      let rest = copy items (put dataset ps copied) in
      if dataset_ok dataset && all_ok ps then rest else err value_error

  -- `DatasetDependencyGraph(dependencies, limits=...)`
  unfoldable pub build :
      DependencyGraphLimits → Dict String (List String) → Result DatasetDependencyGraph
  unfolding copy set_defaults
  build limits items = finish_build limits (copy items [])

-- Each dataset has one entry, and each parent is a dataset.
pub record IsClosed (d : Dict String (List String)) : Type 0 where
  pub unique : IsUnique d
  pub closed : (x p : String) → elem p (parents d x) ≡ true → contains p d ≡ true

default_one : String → Dict String (List String) → Dict String (List String)
default_one p d = if contains p d then d else put p [] d

parents-default_one :
    (p x : String) (d : Dict String (List String)) → parents (default_one p d) x ≡ parents d x
unfolding default_one
parents-default_one p x d = ground (arith, get-put d p x [], String_eq.beq_iff p x)

contains-default_one :
    (p x : String) (d : Dict String (List String))
    → contains x (default_one p d) ≡ (contains x d || p == x)
unfolding default_one
contains-default_one p x d = ground (arith, get-put d p x [], String_eq.beq_iff p x)

default_one-IsUnique :
    (p : String) (d : Dict String (List String)) → IsUnique d → IsUnique (default_one p d)
unfolding default_one
default_one-IsUnique p d u = ground (arith, put-IsUnique d p [] u)

set_defaults-cons :
    (p : String) (ps : List String) (d : Dict String (List String))
    → set_defaults (p ∷ ps) d ≡ set_defaults ps (default_one p d)
unfolding set_defaults default_one
set_defaults-cons p ps d = refl

set_defaults-IsUnique :
    (ps : List String) (d : Dict String (List String)) → IsUnique d → IsUnique (set_defaults ps d)
set_defaults-IsUnique [] d u = unfold set_defaults in u
set_defaults-IsUnique (p ∷ ps) d u =
    rw set_defaults-cons (set_defaults-IsUnique ps (default_one p d) (default_one-IsUnique p d u))

parents-set_defaults :
    (ps : List String) (x : String) (d : Dict String (List String))
    → parents (set_defaults ps d) x ≡ parents d x
parents-set_defaults [] x d = unfold set_defaults in refl
parents-set_defaults (p ∷ ps) x d =
    rw (set_defaults-cons, parents-set_defaults ps x (default_one p d)) (parents-default_one p x d)

contains-set_defaults :
    (ps : List String) (x : String) (d : Dict String (List String))
    → contains x (set_defaults ps d) ≡ (contains x d || elem x ps)
contains-set_defaults [] x d = unfold set_defaults in ground arith
contains-set_defaults (p ∷ ps) x d =
    rw (set_defaults-cons, contains-set_defaults ps x (default_one p d), contains-default_one)
      (ground arith)

elem-all_parents :
    (d : Dict String (List String)) (x p : String)
    → elem p (parents d x) ≡ true
    → elem p (all_parents d) ≡ true
unfolding get
elem-all_parents [] x p h = ground arith
elem-all_parents ((k, ps) ∷ d) x p h =
    ground (arith, elem-append p ps (all_parents d), elem-all_parents d x p)

module _ (trimmed : String → Bool) where
  copy-IsUnique :
      (items copied c : Dict String (List String))
      → IsUnique copied
      → copy trimmed items copied ≡ ok c
      → IsUnique c
  unfolding copy
  copy-IsUnique [] copied c u h = ground (arith, u)
  copy-IsUnique ((dataset, ps) ∷ items) copied c u h =
      ground
        (arith, copy-IsUnique items (put dataset ps copied) c, put-IsUnique copied dataset ps u)

  -- A graph that its constructor accepts has one entry for each dataset, and each parent is a dataset.
  pub build-IsClosed :
      (limits : DependencyGraphLimits) (items : Dict String (List String))
      (g : DatasetDependencyGraph)
      → build trimmed limits items ≡ ok g
      → IsClosed g.dependencies
  unfolding build
  build-IsClosed limits items g h = from_copy (copy trimmed items []) refl h
    where
      from_copy :
          (r : Result (Dict String (List String)))
          → copy trimmed items [] ≡ r
          → finish_build limits r ≡ ok g
          → IsClosed g.dependencies
      from_copy (err x) e h = absurd (ground arith)
      from_copy (ok c) e h =
          let built : set_defaults (all_parents c) c ≡ g.dependencies = ground (arith, h) in
          rw (sym built) (record {
            unique = set_defaults-IsUnique (all_parents c) c (copy-IsUnique items [] c tt e);
            closed = λ x p m. ground (
              arith,
              contains-set_defaults (all_parents c) p c,
              parents-set_defaults (all_parents c) x c,
              elem-all_parents c x p,
              m,
            );
          })
