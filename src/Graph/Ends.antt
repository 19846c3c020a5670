-- ===== src/Graph/Ends.antt =====
-- What the loop of `_order` ends with, and that it ends within its fuel.
use mathlib.Core.List.{append_assoc, append-nil}
use pytitect.Prelude.{
  ℕ, zero, suc, ◌<◌, String, true, false, ◌||◌, ◌≡◌, refl, sym, ◌∙◌, Option, none, some, List, [],
  ◌∷◌, ◌++◌, if◌then◌else◌, length, String_eq, arith, inl, inr, Bool-cases, is_some,
}
use pytitect.Prelude.Dict.{Dict, get, keys, elem, contains}
use pytitect.Prelude.Sorting.{sorted, str_leb}
use pytitect.Prelude.Sets.{count, elem-count, elem-append, count-sorted}
use pytitect.Graph.Build.{parents}
use pytitect.Graph.Order.{
  DependencyValidation, dependency_order, dependency_cycle, dependency_limit_exceeded, is_empty,
  ready, waiting, rounds,
}
use pytitect.Graph.Rounds.{
  elem-keys, has_none, elem-ready, length-waiting-lt, Inv, Inv-waiting, IsTopological,
  IsTopological-weaken, IsTopological-append,
}

module _ (d : Dict String (List String)) (selected : List String) where
  -- Each of the names is selected and has a parent among them.
  pub record IsBlocked (names : List String) : Type 0 where
    pub any : is_empty names ≡ false
    pub within : (x : String) → elem x names ≡ true → elem x selected ≡ true
    pub waits :
        (x : String)
        → elem x names ≡ true
        → (p : String) × (elem p (parents d x) ≡ true) × (elem p names ≡ true)

  -- The selected names, each once, and none before one of its selected parents; `output` comes first.
  pub record IsOrder (output names : List String) : Type 0 where
    pub rest : List String
    pub split : names ≡ output ++ rest
    pub sorted_rest : IsTopological d selected (λ q. elem q output) rest
    pub exact : (x : String) → count x names ≡ (if elem x selected then 1 else 0)

  -- What the loop may end with, from the names that are out.
  abbrev pub Ends : List String → Option DependencyValidation → Type 0
  Ends output none = ⊥
  Ends output (some (dependency_order names)) = IsOrder output names
  Ends output (some (dependency_cycle names)) = IsBlocked names
  Ends output (some (dependency_limit_exceeded resource limit)) = ⊥

  Ends-append :
      (output names : List String) (r : Option DependencyValidation)
      → ((x p : String)
          → elem x names ≡ true
          → elem p (parents d x) ≡ true
          → elem p selected ≡ true
          → elem p output ≡ true)
      → Ends (output ++ names) r
      → Ends output r
  Ends-append output names none h e = e
  Ends-append output names (some (dependency_cycle xs)) h e = e
  Ends-append output names (some (dependency_limit_exceeded resource limit)) h e = e
  Ends-append output names (some (dependency_order xs)) h e = record {
    rest = names ++ e.rest;
    split = e.split ∙ append_assoc output names e.rest;
    sorted_rest =
        IsTopological-append d selected (λ q. elem q output) names e.rest h
          (IsTopological-weaken d selected (λ q. elem q (output ++ names))
            (λ q. elem q output || elem q names) e.rest
            (λ q k. ground (arith, elem-append q output names, k)) e.sorted_rest);
    exact = e.exact;
  }

elem-pending :
    (pending : Dict String (List String)) (x : String)
    → elem x (sorted str_leb (keys pending)) ≡ contains x pending
elem-pending pending x = ground (
  arith,
  elem-count x (sorted str_leb (keys pending)),
  count-sorted str_leb x (keys pending),
  elem-count x (keys pending),
  elem-keys pending x,
)

is_empty-elem : (x : String) (xs : List String) → elem x xs ≡ true → is_empty xs ≡ false
is_empty-elem x [] h = cc
is_empty-elem x (y ∷ ys) h = refl

module _ (d : Dict String (List String)) (selected : List String) where
  -- With none ready, a pending name waits for another.
  pending-waits :
      (pending : Dict String (List String)) (output : List String) (x : String)
      (o : Option (List String))
      → Inv d selected pending output
      → is_empty (ready pending) ≡ true
      → get x pending ≡ o
      → is_some o ≡ true
      → (p : String) × (elem p (parents d x) ≡ true) × (contains p pending ≡ true)
  pending-waits pending output x none i stuck e h = absurd (cc h)
  pending-waits pending output x (some []) i stuck e h =
      absurd (ground (arith, elem-ready pending i.unique x, none_ready (ready pending) x stuck))
    where
      none_ready : (xs : List String) (y : String) → is_empty xs ≡ true → elem y xs ≡ false
      none_ready [] y h = refl
      none_ready (z ∷ zs) y h = absurd (cc h)
  pending-waits pending output x (some (p ∷ ps)) i stuck e h =
      let here : elem p (p ∷ ps) ≡ true = ground (arith, String_eq.beq_iff p p) in
      (
        p,
        ground (arith, i.left x p (p ∷ ps) e, here),
        ground (arith, i.left x p (p ∷ ps) e, here, i.counted p, elem-count p output),
      )

  pending-IsBlocked :
      (k : String) (ps : List String) (rest : Dict String (List String)) (output : List String)
      → Inv d selected ((k, ps) ∷ rest) output
      → is_empty (ready ((k, ps) ∷ rest)) ≡ true
      → IsBlocked d selected (sorted str_leb (keys ((k, ps) ∷ rest)))
  unfolding get
  pending-IsBlocked k ps rest output i stuck =
      let pending : Dict String (List String) = (k, ps) ∷ rest in
      record {
        any =
            is_empty-elem k (sorted str_leb (keys pending))
              (ground (arith, elem-pending pending k, String_eq.beq_iff k k));
        within = λ x h. ground (arith, elem-pending pending x, h, i.counted x);
        waits = λ x h.
            let (p, a, b) =
              pending-waits pending output x (get x pending) i stuck refl
                (sym (elem-pending pending x) ∙ h) in
            (p, a, elem-pending pending p ∙ b);
      }

rounds-nil :
    (fuel : ℕ) (output : List String) → rounds fuel [] output ≡ some (dependency_order output)
unfolding rounds
rounds-nil zero output = refl
rounds-nil (suc fuel) output = refl

module _ (fuel : ℕ) (item : String × List String) (pending : Dict String (List String))
    (output : List String) where
  rounds_stuck :
      is_empty (ready (item ∷ pending)) ≡ true
      → rounds (suc fuel) (item ∷ pending) output
        ≡ some (dependency_cycle (sorted str_leb (keys (item ∷ pending))))
  unfolding rounds
  rounds_stuck h = rw h

  rounds_more :
      is_empty (ready (item ∷ pending)) ≡ false
      → rounds (suc fuel) (item ∷ pending) output
        ≡ rounds fuel (waiting (item ∷ pending)) (output ++ ready (item ∷ pending))
  unfolding rounds
  rounds_more h = rw h

module _ (d : Dict String (List String)) (selected : List String) where
  ready-parents-out :
      (pending : Dict String (List String)) (output : List String)
      → Inv d selected pending output
      → (x p : String) → elem x (ready pending) ≡ true
      → elem p (parents d x) ≡ true
      → elem p selected ≡ true
      → elem p output ≡ true
  ready-parents-out pending output i x p h k l =
      out (get x pending) refl (sym (elem-ready pending i.unique x) ∙ h)
    where
      out :
          (o : Option (List String)) → get x pending ≡ o → has_none o ≡ true → elem p output ≡ true
      out none e n = absurd (cc n)
      out (some []) e n = ground (arith, i.left x p [] e, k, l)
      out (some (q ∷ qs)) e n = absurd (cc n)

  -- From a state that keeps the invariant, with more fuel than names that are pending, the loop ends.
  pub rounds-Ends :
      (fuel : ℕ) (pending : Dict String (List String)) (output : List String)
      → Inv d selected pending output
      → length pending < fuel
      → Ends d selected output (rounds fuel pending output)
  unfolding get
  rounds-Ends fuel [] output i h = rw (rounds-nil fuel output) (record {
    rest = [];
    split = sym (append-nil output);
    sorted_rest = tt;
    exact = λ x. ground (arith, i.counted x);
  })
  rounds-Ends zero (item ∷ pending) output i h = absurd (omega arith)
  rounds-Ends (suc fuel) ((k, ps) ∷ rest) output i h =
      let pending : Dict String (List String) = (k, ps) ∷ rest in
      elim (Bool-cases (is_empty (ready pending))) [
        | inl stuck ↦
            rw (rounds_stuck fuel (k, ps) rest output stuck)
              (pending-IsBlocked d selected k ps rest output i stuck)
        | inr more ↦ rw (rounds_more fuel (k, ps) rest output more) (
            Ends-append d selected output (ready pending)
              (rounds fuel (waiting pending) (output ++ ready pending))
              (ready-parents-out pending output i)
              (rounds-Ends fuel (waiting pending) (output ++ ready pending)
                (Inv-waiting d selected pending output i)
                (omega (arith, length-waiting-lt pending i.unique more))))
      ]
