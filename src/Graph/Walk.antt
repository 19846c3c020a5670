-- ===== src/Graph/Walk.antt =====
-- The `while` loop of `closure` in src/pytitect/sync/graph.py. `pending` is a stack whose top stands
-- first. The loop runs on fuel; `none` means that it ran out.
use pytitect.Prelude.{
  ℕ, zero, suc, ◌+◌, ◌≤◌, ◌<◌, String, true, false, ◌||◌, ◌&&◌, not, ◌≡◌, refl, ◌∙◌, Option, none,
  some, List, [], ◌∷◌, if◌then◌else◌, length, filter, ◌==◌, String_eq, arith, ◌↔◌, inl, inr,
  Bool-cases,
}
use pytitect.Prelude.Dict.{Dict, keys, elem, contains}
use pytitect.Prelude.Sets.{count, elem-count}
use pytitect.Graph.Build.{parents}
use pytitect.Graph.Rounds.{elem-keys}

pub record Visit : Type 0 where
  pub selected : List String
  pub pending : List String

-- `for parent in self._dependencies[current]`
unfoldable pub visit : List String → Visit → Visit
visit [] v = v
visit (p ∷ ps) v =
    visit ps (
      if elem p v.selected
      then v
      else record { selected = p ∷ v.selected; pending = p ∷ v.pending })

-- `while pending`
unfoldable pub walk :
    ℕ → Dict String (List String) → List String → List String → Option (List String)
unfolding visit
walk fuel d [] selected = some selected
walk zero d (current ∷ pending) selected = none
walk (suc fuel) d (current ∷ pending) selected =
    let v = visit (parents d current) (record { selected = selected; pending = pending }) in
    walk fuel d v.pending v.selected

-- The datasets that can be reached from those of a list by going to a parent.
pub data Reach (d : Dict String (List String)) (requested : List String) : String → Type 0 where
  of_requested : {x : String} → elem x requested ≡ true → Reach d requested x
  parent : {x p : String} → Reach d requested x → elem p (parents d x) ≡ true → Reach d requested p

-- How many of the names are not among the selected.
abbrev pub unseen : List String → List String → ℕ
unseen selected names = length (filter (λ k. not (elem k selected)) names)

unseen_le :
    (selected : List String) (p : String) (names : List String)
    → unseen (p ∷ selected) names ≤ unseen selected names
unseen_le selected p [] = omega arith
unseen_le selected p (k ∷ names) = ground (arith, unseen_le selected p names)

unseen_lt :
    (selected : List String) (p : String) (names : List String)
    → elem p names ≡ true
    → elem p selected ≡ false
    → unseen (p ∷ selected) names < unseen selected names
unseen_lt selected p [] h k = absurd (cc h)
unseen_lt selected p (n ∷ names) h k = ground (
  arith,
  unseen_le selected p names,
  unseen_lt selected p names,
  String_eq.beq_iff n p,
  String_eq.beq_iff p n,
)

-- What is still to be done, by the names that the graph has.
abbrev pub measure : List String → Visit → ℕ
measure names v = length v.pending + unseen v.selected names

visit-measure :
    (names ps : List String) (v : Visit)
    → ((p : String) → elem p ps ≡ true → elem p names ≡ true)
    → measure names (visit ps v) ≤ measure names v
unfolding visit
visit-measure names [] v known = omega arith
visit-measure names (p ∷ ps) v known = ground (
  arith,
  visit-measure names ps
      (if elem p v.selected
        then v
        else record { selected = p ∷ v.selected; pending = p ∷ v.pending })
      (λ q h. known q (ground (arith, h))),
  unseen_lt v.selected p names (known p (ground (arith, String_eq.beq_iff p p))),
)

module _ (d : Dict String (List String)) (requested : List String) where
  -- What the loop keeps within a visit of `current`, of whose parents those of `ps` are still to come:
  -- the names that are selected can be reached, those that were requested are selected, and so are
  -- the parents of a selected name that is not pending. None is selected twice.
  pub record Inv (current : String) (ps : List String) (v : Visit) : Type 0 where
    pub reached : (x : String) → elem x v.selected ≡ true → Reach d requested x
    pub begun : (x : String) → elem x requested ≡ true → elem x v.selected ≡ true
    pub stacked : (x : String) → elem x v.pending ≡ true → elem x v.selected ≡ true
    pub once : (x : String) → count x v.selected ≤ 1
    pub to_come : (p : String) → elem p ps ≡ true → Reach d requested p
    pub followed :
        (x p : String)
        → elem x v.selected ≡ true
        → elem x v.pending ≡ false
        → elem p (parents d x) ≡ true
        → (elem p v.selected || (x == current && elem p ps)) ≡ true

  visit_one :
      (current p : String) (ps : List String) (v : Visit)
      → Inv current (p ∷ ps) v
      → Inv current ps (
          if elem p v.selected
          then v
          else record { selected = p ∷ v.selected; pending = p ∷ v.pending })
  visit_one current p ps v i = elim (Bool-cases (elem p v.selected)) [
    | inl old ↦ rw old (record {
      reached = i.reached;
      begun = i.begun;
      stacked = i.stacked;
      once = i.once;
      to_come = λ q h. i.to_come q (ground (arith, h));
      followed = λ x q a b c. ground (arith, i.followed x q a b c, String_eq.beq_iff p q, old);
    })
    | inr fresh ↦ rw fresh (record {
      reached = λ x h. elim (Bool-cases (p == x)) [
        | inl e ↦
            rw (← (String_eq.beq_iff p x).0 e) (i.to_come p (ground (arith, String_eq.beq_iff p p)))
        | inr e ↦ i.reached x (ground (arith, h, e))
      ];
      begun = λ x h. ground (arith, i.begun x h);
      stacked = λ x h. ground (arith, i.stacked x, h);
      once = λ x. ground (arith, i.once x, elem-count p v.selected, String_eq.beq_iff p x);
      to_come = λ q h. i.to_come q (ground (arith, h));
      followed = λ x q a b c. ground (arith, i.followed x q, a, b, c, String_eq.beq_iff p q);
    })
  ]

  visit-Inv :
      (current : String) (ps : List String) (v : Visit)
      → Inv current ps v
      → Inv current [] (visit ps v)
  unfolding visit
  visit-Inv current [] v i = i
  visit-Inv current (p ∷ ps) v i =
      visit-Inv current ps
        (if elem p v.selected
          then v
          else record { selected = p ∷ v.selected; pending = p ∷ v.pending })
        (visit_one current p ps v i)

  pop-Inv :
      (c current : String) (selected pending : List String)
      → Inv c [] (record { selected = selected; pending = current ∷ pending })
      → Inv current (parents d current) (record { selected = selected; pending = pending })
  pop-Inv c current selected pending i = record {
    reached = i.reached;
    begun = i.begun;
    stacked = λ x h. i.stacked x (ground (arith, h));
    once = i.once;
    to_come = λ p h.
        Reach.parent
          (i.reached current
            (i.stacked current (ground (arith, String_eq.beq_iff current current))))
          h;
    followed = λ x p a b c.
        ground
          (arith, i.followed x p a, b, c, String_eq.beq_iff x current, String_eq.beq_iff current x);
  }

  -- Once nothing is pending, exactly the names that can be reached are selected.
  done-exact :
      (c : String) (selected : List String)
      → Inv c [] (record { selected = selected; pending = [] })
      → (x : String) → Reach d requested x
      → elem x selected ≡ true
  done-exact c selected i x (Reach.of_requested h) = i.begun x h
  done-exact c selected i p (Reach.parent {x = x} r h) =
      let here : elem x selected ≡ true = done-exact c selected i x r in
      ground (arith, i.followed x p here refl h)

  -- With as much fuel as there is to be done, the loop returns the names that can be reached, each once.
  pub walk-exact :
      ((x p : String) → elem p (parents d x) ≡ true → contains p d ≡ true)
      → (fuel : ℕ) (c : String) (pending selected : List String)
      → Inv c [] (record { selected = selected; pending = pending })
      → length pending + unseen selected (keys d) ≤ fuel
      → (out : List String) × (walk fuel d pending selected ≡ some out)
        × ((x : String) → (elem x out ≡ true) ↔ Reach d requested x)
        × ((x : String) → count x out ≤ 1)
  unfolding walk
  walk-exact closed fuel c [] selected i le = (
    selected,
    (elim fuel [ zero ↦ refl | suc n ↦ refl ]),
    λ x. (i.reached x, done-exact c selected i x),
    i.once,
  )
  walk-exact closed zero c (current ∷ pending) selected i le = absurd (omega (arith, le))
  walk-exact closed (suc fuel) c (current ∷ pending) selected i le =
      let v : Visit = record { selected = selected; pending = pending } in
      let next = visit (parents d current) v in
      let lower : measure (keys d) next ≤ measure (keys d) v =
        visit-measure (keys d) (parents d current) v (λ p h. elem-keys d p ∙ closed current p h) in
      walk-exact closed fuel current next.pending next.selected
        (visit-Inv current (parents d current) v (pop-Inv c current selected pending i))
        (omega (arith, lower, le))
