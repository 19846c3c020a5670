-- ===== src/Graph/Answers.antt =====
-- `_order`, `validate` and `topological_order`: that they answer, and with what.
use pytitect.Prelude.{
  suc, ◌≤◌, String, Bool, true, false, ◌||◌, ◌≡◌, refl, sym, ◌∙◌, Option, none, some, List, [], ◌∷◌,
  if◌then◌else◌, length, filter, ◌==◌, String_eq, arith, inl, inr, Bool-cases, ok, or_else,
}
use pytitect.Prelude.Dict.{Dict, get, keys, elem, IsUnique}
use pytitect.Prelude.Sets.{elem-filter, count, elem-count, count-to_set}
use pytitect.Graph.Build.{
  DatasetDependencyGraph, DependencyGraphLimits, parents, build, build-IsClosed,
}
use pytitect.Graph.Order.{
  selected_by, DependencyValidation, dependency_order, dependency_cycle, dependency_limit_exceeded,
  start, order, validate, topological_order, has_unknown,
}
use pytitect.Graph.Rounds.{Inv, IsTopological, count-keys-le}
use pytitect.Graph.Ends.{Ends, IsBlocked, rounds-Ends}

some_of_if : {A : Type 0} (b : Bool) (x y : A) → (if b then some x else none) ≡ some y → x ≡ y
some_of_if b x y h = ground (arith, h)

module _ (d : Dict String (List String)) (selected : List String) where
  get-start :
      (names : List String) (x : String)
      → get x (start d selected names)
        ≡ (if elem x names then some (filter (λ p. elem p selected) (parents d x)) else none)
  unfolding start get
  get-start [] x = refl
  get-start (name ∷ names) x = ground (arith, get-start names x, String_eq.beq_iff name x)

  start-IsUnique :
      (names : List String) → ((x : String) → count x names ≤ 1) → IsUnique (start d selected names)
  unfolding start
  start-IsUnique [] once = tt
  start-IsUnique (name ∷ names) once = (
    ground (
      arith,
      get-start names name,
      elem-count name names,
      once name,
      String_eq.beq_iff name name,
    ),
    start-IsUnique names (λ x. ground (arith, once x)),
  )

  length-start : (names : List String) → length (start d selected names) ≡ length names
  unfolding start
  length-start [] = refl
  length-start (name ∷ names) = omega (arith, length-start names)

  module _ (once : (x : String) → count x selected ≤ 1) where
    start-Inv : Inv d selected (start d selected selected) []
    start-Inv = record {
      unique = start-IsUnique selected once;
      counted = λ x. ground (arith, get-start selected x);
      left = λ x p ps h.
          rw
            (← some_of_if (elem x selected) (filter (λ q. elem q selected) (parents d x)) ps
              (sym (get-start selected x) ∙ h))
            (ground (arith, elem-filter (λ q. elem q selected) p (parents d x)));
    }

    pub order-Ends : Ends d selected [] (order d selected)
    unfolding order
    order-Ends =
        rounds-Ends d selected (suc (length selected)) (start d selected selected) [] start-Inv
          (omega (arith, length-start selected))

  -- What an answer says: an order of the selected names, each once and none before a parent of its
  -- that is selected, or a set of them that is not empty and in which each has a parent.
  abbrev pub Answers : Option DependencyValidation → Type 0
  Answers none = ⊥
  Answers (some (dependency_order names)) =
      IsTopological d selected (λ q. false) names
      × ((x : String) → count x names ≡ (if elem x selected then 1 else 0))
  Answers (some (dependency_cycle names)) = IsBlocked d selected names
  Answers (some (dependency_limit_exceeded resource limit)) = ⊥

  Ends-Answers : (o : Option DependencyValidation) → Ends d selected [] o → Answers o
  Ends-Answers none e = e
  Ends-Answers (some (dependency_cycle names)) e = e
  Ends-Answers (some (dependency_limit_exceeded resource limit)) e = e
  Ends-Answers (some (dependency_order names)) e = (rw e.split e.sorted_rest, e.exact)

  pub order-Answers : ((x : String) → count x selected ≤ 1) → Answers (order d selected)
  order-Answers once = Ends-Answers (order d selected) (order-Ends once)

  -- No name of a blocked set has a place in an order.
  pub IsBlocked-IsTopological :
      (names xs : List String) (placed : String → Bool)
      → IsBlocked d selected names
      → IsTopological d selected placed xs
      → ((y : String) → elem y names ≡ true → placed y ≡ false)
      → (x : String) → elem x names ≡ true
      → elem x xs ≡ false
  IsBlocked-IsTopological names [] placed b t free x h = refl
  IsBlocked-IsTopological names (y ∷ ys) placed b t free x h =
      let outside : elem y names ≡ false = elim (Bool-cases (elem y names)) [
        | inr e ↦ e
        | inl e ↦ let (p, a, c) = b.waits y e in absurd (cc (t.0 p a (b.within p c), free p c))
      ] in
      ground (
        arith,
        IsBlocked-IsTopological names ys (λ q. placed q || y == q) b t.1
            (λ z m. ground (arith, free z m, m, outside, String_eq.beq_iff y z)) x h,
        outside,
        String_eq.beq_iff y x,
      )

validate_within :
    (g : DatasetDependencyGraph)
    → length g.dependencies ≤ g.limits.max_datasets
    → validate g ≡ order g.dependencies (keys g.dependencies)
unfolding validate
validate_within g le = ground arith

-- `validate` of a graph within its limit, which the constructor accepted, answers for all datasets.
pub build-validate-Answers :
    (trimmed : String → Bool) (limits : DependencyGraphLimits) (items : Dict String (List String))
    (g : DatasetDependencyGraph)
    → build trimmed limits items ≡ ok g
    → length g.dependencies ≤ g.limits.max_datasets
    → Answers g.dependencies (keys g.dependencies) (validate g)
build-validate-Answers trimmed limits items g h le =
    let closed = build-IsClosed trimmed limits items g h in
    rw (validate_within g le) (
      order-Answers g.dependencies (keys g.dependencies)
        (λ x. count-keys-le g.dependencies x closed.unique))

-- `topological_order` of known datasets within the limit answers, and without an error.
pub topological_order-Answers :
    (g : DatasetDependencyGraph) (datasets : Option (List String))
    → length (selected_by g datasets) ≤ g.limits.max_datasets
    → has_unknown g.dependencies (selected_by g datasets) ≡ false
    → (o : Option DependencyValidation) × (topological_order g datasets ≡ ok o)
      × Answers g.dependencies (selected_by g datasets) o
unfolding topological_order
topological_order-Answers g datasets le known = (
  order g.dependencies (selected_by g datasets),
  ground arith,
  order-Answers g.dependencies (selected_by g datasets)
      (λ x. ground (arith, count-to_set x (or_else datasets (keys g.dependencies)))),
)

order_of_cycle :
    (g : DatasetDependencyGraph) (datasets : Option (List String)) (names : List String)
    → topological_order g datasets ≡ ok (some (dependency_cycle names))
    → order g.dependencies (selected_by g datasets) ≡ some (dependency_cycle names)
unfolding topological_order
order_of_cycle g datasets names h = ground (arith, h)

-- Where `topological_order` reports a cycle, no order of any datasets has a name of it.
pub topological_order_cycle :
    (g : DatasetDependencyGraph) (datasets : Option (List String)) (names xs : List String)
    → topological_order g datasets ≡ ok (some (dependency_cycle names))
    → IsTopological g.dependencies (selected_by g datasets) (λ q. false) xs
    → (x : String) → elem x names ≡ true
    → elem x xs ≡ false
topological_order_cycle g datasets names xs h t x m =
    let answers =
      order-Answers g.dependencies (selected_by g datasets)
        (λ x. ground (arith, count-to_set x (or_else datasets (keys g.dependencies)))) in
    let e = order_of_cycle g datasets names h in
    IsBlocked-IsTopological g.dependencies (selected_by g datasets) names xs (λ q. false)
      (rw e at answers) t (λ y k. refl) x m
