-- ===== src/Graph/Rounds.antt =====
-- A round of the loop of `_order`, and the invariant that it keeps.
use pytitect.Prelude.{
  ◌+◌, ◌≤◌, ◌<◌, String, Bool, true, false, ◌&&◌, ◌||◌, not, ◌≡◌, refl, sym, ◌∙◌, Option, none,
  some, List, [], ◌∷◌, ◌++◌, if◌then◌else◌, length, filter, ◌==◌, String_eq, arith,
}
use pytitect.Prelude.Dict.{
  Dict, get, keys, elem, contains, pop_all, get-pop_all, IsUnique, pop_all-IsUnique,
  length-pop_all-le, length-pop-lt, pop,
}
use pytitect.Prelude.Sorting.{str_leb}
use pytitect.Prelude.Sets.{
  count, elem-count, count-append, elem-append, elem-filter, count-sorted, count-keys-filter,
}
use pytitect.Graph.Build.{parents}
use pytitect.Graph.Order.{is_empty, ready, difference_update, waiting}

-- `parents.difference_update(names)`, where the name is pending
abbrev pub without : List String → Option (List String) → Option (List String)
without names none = none
without names (some ps) = some (filter (λ p. not (elem p names)) ps)

get-difference_update :
    (names : List String) (d : Dict String (List String)) (x : String)
    → get x (difference_update names d) ≡ without names (get x d)
unfolding difference_update get
get-difference_update names [] x = refl
get-difference_update names ((k, ps) ∷ d) x = ground (arith, get-difference_update names d x)

difference_update-IsUnique :
    (names : List String) (d : Dict String (List String))
    → IsUnique d
    → IsUnique (difference_update names d)
unfolding difference_update
difference_update-IsUnique names [] u = tt
difference_update-IsUnique names ((k, ps) ∷ d) u =
    (ground (arith, get-difference_update names d k, u.0), difference_update-IsUnique names d u.1)

length-difference_update :
    (names : List String) (d : Dict String (List String))
    → length (difference_update names d) ≡ length d
unfolding difference_update
length-difference_update names [] = refl
length-difference_update names ((k, ps) ∷ d) = ground (arith, length-difference_update names d)

pub elem-keys : {V : Type 0} (d : Dict String V) (x : String) → elem x (keys d) ≡ contains x d
unfolding get
elem-keys [] x = refl
elem-keys ((k, v) ∷ d) x = ground (arith, elem-keys d x)

pub count-keys-le :
    {V : Type 0} (d : Dict String V) (x : String) → IsUnique d → count x (keys d) ≤ 1
unfolding get
count-keys-le [] x u = omega arith
count-keys-le ((k, v) ∷ d) x u =
    ground
      (arith, count-keys-le d x u.1, elem-count x (keys d), elem-keys d x, String_eq.beq_iff k x)

abbrev pub has_none : Option (List String) → Bool
has_none none = false
has_none (some ps) = is_empty ps

length-pop_all-lt :
    (names : List String) (d : Dict String (List String))
    → is_empty names ≡ false
    → ((x : String) → elem x names ≡ true → contains x d ≡ true)
    → length (pop_all names d) < length d
unfolding pop_all
length-pop_all-lt [] d h there = absurd (cc h)
length-pop_all-lt (x ∷ names) d h there =
    let here : contains x d ≡ true = there x (ground (arith, String_eq.beq_iff x x)) in
    omega (
      arith,
      length-pop_all-le names (pop x d),
      length-pop-lt d x (λ (n : get x d ≡ none). ground (arith, here, n)),
    )

module _ (pending : Dict String (List String)) (unique : IsUnique pending) where
  pub count-ready :
      (x : String) → count x (ready pending) ≡ (if has_none (get x pending) then 1 else 0)
  count-ready x = ground (
    arith,
    count-sorted str_leb x
        (keys (filter (λ (item : String × List String). is_empty item.1) pending)),
    count-keys-filter (λ (item : String × List String). is_empty item.1) pending x unique,
  )

  pub elem-ready : (x : String) → elem x (ready pending) ≡ has_none (get x pending)
  elem-ready x = ground (arith, elem-count x (ready pending), count-ready x)

  pub get-waiting :
      (x : String)
      → get x (waiting pending)
        ≡ (if has_none (get x pending) then none else without (ready pending) (get x pending))
  unfolding waiting
  get-waiting x = ground (
    arith,
    get-difference_update (ready pending) (pop_all (ready pending) pending) x,
    get-pop_all (ready pending) pending x,
    elem-ready x,
  )

  waiting-IsUnique : IsUnique (waiting pending)
  unfolding waiting
  waiting-IsUnique =
      difference_update-IsUnique (ready pending) (pop_all (ready pending) pending)
        (pop_all-IsUnique (ready pending) pending unique)

  -- A round in which a name is ready leaves fewer pending.
  pub length-waiting-lt :
      is_empty (ready pending) ≡ false → length (waiting pending) < length pending
  unfolding waiting
  length-waiting-lt some_ready = rw length-difference_update (
      length-pop_all-lt (ready pending) pending some_ready (λ x h. ground (arith, elem-ready x, h)))

module _ (d : Dict String (List String)) (selected : List String) where
  -- The names that have been put out and those that are pending are the selected ones, each once; a
  -- pending name waits for those of its parents that are selected and not out.
  pub record Inv (pending : Dict String (List String)) (output : List String) : Type 0 where
    pub unique : IsUnique pending
    pub counted :
        (x : String)
        → count x output + (if contains x pending then 1 else 0)
          ≡ (if elem x selected then 1 else 0)
    pub left :
        (x p : String) (ps : List String)
        → get x pending ≡ some ps
        → elem p ps ≡ (elem p (parents d x) && elem p selected && not (elem p output))

  pub Inv-waiting :
      (pending : Dict String (List String)) (output : List String)
      → Inv pending output
      → Inv (waiting pending) (output ++ ready pending)
  Inv-waiting pending output i = record {
    unique = waiting-IsUnique pending i.unique;
    counted = λ x. ground (
      arith,
      count-append x output (ready pending),
      count-ready pending i.unique x,
      get-waiting pending i.unique x,
      i.counted x,
    );
    left = λ x p ps h.
        waiting_left x p ps (get x pending) refl (sym (get-waiting pending i.unique x) ∙ h);
  }
    where
      waiting_left :
          (x p : String) (ps : List String) (o : Option (List String))
          → get x pending ≡ o
          → (if has_none o then none else without (ready pending) o) ≡ some ps
          → elem p ps
            ≡ (elem p (parents d x) && elem p selected && not (elem p (output ++ ready pending)))
      waiting_left x p ps none e h = absurd (ground (arith, h))
      waiting_left x p ps (some qs) e h =
          let same : filter (λ p. not (elem p (ready pending))) qs ≡ ps = ground (arith, h) in
          rw (sym same) (
            ground (
              arith,
              elem-filter (λ p. not (elem p (ready pending))) p qs,
              i.left x p qs e,
              elem-append p output (ready pending),
            ))

  -- Each name comes after those of its parents that are selected; `placed` came before.
  abbrev pub IsTopological : (String → Bool) → List String → Type 0
  IsTopological placed [] = Unit
  IsTopological placed (x ∷ xs) =
      ((p : String) → elem p (parents d x) ≡ true → elem p selected ≡ true → placed p ≡ true)
      × IsTopological (λ q. placed q || x == q) xs

  pub IsTopological-weaken :
      (placed placed' : String → Bool) (xs : List String)
      → ((q : String) → placed q ≡ true → placed' q ≡ true)
      → IsTopological placed xs
      → IsTopological placed' xs
  IsTopological-weaken placed placed' [] more t = tt
  IsTopological-weaken placed placed' (x ∷ xs) more t = (
    λ p h k. more p (t.0 p h k),
    IsTopological-weaken (λ q. placed q || x == q) (λ q. placed' q || x == q) xs
        (λ q h. ground (arith, more q, h)) t.1,
  )

  pub IsTopological-append :
      (placed : String → Bool) (xs ys : List String)
      → ((x p : String)
          → elem x xs ≡ true
          → elem p (parents d x) ≡ true
          → elem p selected ≡ true
          → placed p ≡ true)
      → IsTopological (λ q. placed q || elem q xs) ys
      → IsTopological placed (xs ++ ys)
  IsTopological-append placed [] ys h t =
      IsTopological-weaken (λ q. placed q || false) placed ys (λ q k. ground (arith, k)) t
  IsTopological-append placed (x ∷ xs) ys h t = (
    λ p. h x p (ground (arith, String_eq.beq_iff x x)),
    IsTopological-append (λ q. placed q || x == q) xs ys
        (λ y p m k l. ground (arith, h y p, m, k, l))
        (IsTopological-weaken (λ q. placed q || (x == q || elem q xs))
          (λ q. (placed q || x == q) || elem q xs) ys (λ q k. ground (arith, k)) t),
  )
