-- ===== src/Prelude/Dict/Unique.antt =====
-- A key stands in a dictionary once, which every operation keeps; what a filter over the items
-- selects, and what is left when the selected keys are popped.
use mathlib.Core.Path.{◌≡◌, refl}
use mathlib.Core.Logic.{inl, inr}
use mathlib.Core.Bool.{Bool, true, false}
use mathlib.Core.Option.{Option, none, some}
use mathlib.Core.List.{List, [], ◌∷◌, ◌++◌}
use native.Mathlib.Omega.{arith}
use pytitect.Prelude.Tests.{if◌then◌else◌, Bool-cases}
use pytitect.Prelude.Lists.{filter, All}
use pytitect.Prelude.Equality.{Eq, ◌==◌}
use pytitect.Prelude.Dict.Defs.{Dict, get, put, pop, place_last, move_to_end, pop_all, keys, elem}
use pytitect.Prelude.Dict.Laws.{get-put, get-pop}

module _ {ℓ κ} {K : Type ℓ} {V : Type κ} ⦃e : Eq K⦄ where
  abbrev pub IsUnique : Dict K V → Type κ
  IsUnique [] = Unit
  IsUnique ((k, v) ∷ d) = (get k d ≡ none) × IsUnique d

  pub put-IsUnique : (d : Dict K V) (k : K) (v : V) → IsUnique d → IsUnique (put k v d)
  unfolding put get
  put-IsUnique [] k v h = (refl, tt)
  put-IsUnique ((i, w) ∷ d) k v h =
      ground (arith, put-IsUnique d k v h.1, get-put d k i v, e.beq_iff i k, e.beq_iff k i)

  pub pop-IsUnique : (d : Dict K V) (k : K) → IsUnique d → IsUnique (pop k d)
  unfolding pop
  pop-IsUnique [] k h = tt
  pop-IsUnique ((i, w) ∷ d) k h = ground (arith, pop-IsUnique d k h.1, get-pop d k i)

  append-IsUnique :
      (d : Dict K V) (k : K) (v : V) → get k d ≡ none → IsUnique d → IsUnique (d ++ (k, v) ∷ [])
  unfolding get
  append-IsUnique [] k v a h = (refl, tt)
  append-IsUnique ((i, w) ∷ d) k v a h =
      ground (arith, append-IsUnique d k v, get-snoc d i, e.beq_iff i k, e.beq_iff k i)
    where
      get-snoc :
          (d : Dict K V) (i : K)
          → get i (d ++ (k, v) ∷ [])
            ≡ elim (get i d) [ none ↦ (if k == i then some v else none) | some x ↦ some x ]
      get-snoc [] i = refl
      get-snoc ((j, w) ∷ d) i = ground (arith, get-snoc d i)

  place_last-IsUnique :
      (d : Dict K V) (k : K) (o : Option V) → IsUnique d → IsUnique (place_last k o d)
  unfolding place_last
  place_last-IsUnique d k none h = h
  place_last-IsUnique d k (some v) h =
      append-IsUnique (pop k d) k v (ground (arith, get-pop d k k, e.beq_iff k k))
        (pop-IsUnique d k h)

  pub move_to_end-IsUnique : (d : Dict K V) (k : K) → IsUnique d → IsUnique (move_to_end k d)
  unfolding move_to_end
  move_to_end-IsUnique d k h = place_last-IsUnique d k (get k d) h

  pub pop_all-IsUnique : (ks : List K) (d : Dict K V) → IsUnique d → IsUnique (pop_all ks d)
  unfolding pop_all
  pop_all-IsUnique [] d h = h
  pop_all-IsUnique (k ∷ ks) d h = pop_all-IsUnique ks (pop k d) (pop-IsUnique d k h)

  -- Whether the pair at a key satisfies a test.
  abbrev pub holds_at : (K × V → Bool) → K → Option V → Bool
  holds_at p k none = false
  holds_at p k (some v) = p (k, v)

  -- A key is among the filtered items exactly if its pair passes the test.
  pub elem-keys-filter :
      (p : K × V → Bool) (d : Dict K V) (k : K)
      → IsUnique d
      → elem k (keys (filter p d)) ≡ holds_at p k (get k d)
  unfolding get
  elem-keys-filter p [] k h = refl
  elem-keys-filter p ((i, w) ∷ d) k h = ground (arith, elem-keys-filter p d k h.1, e.beq_iff i k)

  -- Each selected pair is in the dictionary and passes the test.
  abbrev pub Selected : (K × V → Bool) → Dict K V → K × V → Type κ
  Selected p d (k, v) = (get k d ≡ some v) × (p (k, v) ≡ true)

  pub filter-Selected :
      (p : K × V → Bool) (d c : Dict K V)
      → IsUnique c
      → ((k : K) (v : V) → get k c ≡ some v → get k d ≡ some v)
      → All (Selected p d) (filter p c)
  unfolding get
  filter-Selected p d [] u h = tt
  filter-Selected p d ((i, w) ∷ c) u h =
      let rest : All (Selected p d) (filter p c) =
        filter-Selected p d c u.1 (λ k v q. h k v (ground (arith, e.beq_iff i k))) in
      let here : get i d ≡ some w = h i w (ground (arith, e.beq_iff i i)) in
      elim (Bool-cases (p (i, w))) [
        | inl chosen ↦ rw chosen ((here, chosen), rest)
        | inr passed ↦ rw passed rest
      ]

  -- `[(k, v) for k, v in d.items() if p(k, v)]`
  pub select-Selected :
      (p : K × V → Bool) (d : Dict K V) → IsUnique d → All (Selected p d) (filter p d)
  select-Selected p d u = filter-Selected p d d u (λ k v h. h)

  -- A key that is among the selected pairs has its own pair there.
  pub Selected-elem :
      (p : K × V → Bool) (d l : Dict K V) (k : K)
      → All (Selected p d) l
      → elem k (keys l) ≡ true
      → holds_at p k (get k d) ≡ true
  Selected-elem p d [] k h m = cc
  Selected-elem p d ((i, w) ∷ l) k h m = ground (arith, e.beq_iff i k, Selected-elem p d l k h.1)
