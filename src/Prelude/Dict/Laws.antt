-- ===== src/Prelude/Dict/Laws.antt =====
-- What a dictionary holds after each operation, and how long it is.
use Prim.Native.Nat.{suc, ◌≤◌, ◌<◌}
use mathlib.Core.Path.{◌≡◌, refl}
use mathlib.Core.Logic.{◌≢◌}
use mathlib.Core.Option.{Option, none, some}
use mathlib.Core.List.{List, [], ◌∷◌, ◌++◌}
use native.Mathlib.Omega.{arith}
use pytitect.Prelude.Tests.{if◌then◌else◌}
use pytitect.Prelude.Lists.{length, length-append}
use pytitect.Prelude.Equality.{Eq, ◌==◌}
use pytitect.Prelude.Dict.Defs.{
  Dict, get, put, pop, place_last, move_to_end, pop_all, elem, contains,
}

module _ {ℓ κ} {K : Type ℓ} {V : Type κ} ⦃e : Eq K⦄ where
  pub get-put :
      (d : Dict K V) (k j : K) (v : V) → get j (put k v d) ≡ (if k == j then some v else get j d)
  unfolding get put
  get-put [] k j v = refl
  get-put ((i, w) ∷ d) k j v =
      ground (arith, e.beq_iff i k, e.beq_iff i j, e.beq_iff k j, get-put d k j v)

  pub get-pop : (d : Dict K V) (k j : K) → get j (pop k d) ≡ (if k == j then none else get j d)
  unfolding get pop
  get-pop [] k j = ground arith
  get-pop ((i, w) ∷ d) k j =
      ground (arith, e.beq_iff i k, e.beq_iff i j, e.beq_iff k j, get-pop d k j)

  get-append :
      (d c : Dict K V) (j : K)
      → get j (d ++ c) ≡ elim (get j d) [ none ↦ get j c | some v ↦ some v ]
  unfolding get
  get-append [] c j = refl
  get-append ((i, w) ∷ d) c j = ground (arith, get-append d c j)

  get-place_last :
      (d : Dict K V) (k j : K) (o : Option V) → get k d ≡ o → get j (place_last k o d) ≡ get j d
  unfolding place_last
  get-place_last d k j none h = refl
  get-place_last d k j (some v) h =
      rw (get-append, get-pop) (unfold get in ground (arith, e.beq_iff k j))

  pub get-move_to_end : (d : Dict K V) (k j : K) → get j (move_to_end k d) ≡ get j d
  get-move_to_end d k j =
      let h : get j (place_last k (get k d) d) ≡ get j d = get-place_last d k j (get k d) refl in
      unfold move_to_end in h

  pub get-pop_all :
      (ks : List K) (d : Dict K V) (j : K)
      → get j (pop_all ks d) ≡ (if elem j ks then none else get j d)
  unfolding pop_all
  get-pop_all [] d j = refl
  get-pop_all (k ∷ ks) d j = ground (arith, get-pop_all ks (pop k d) j, get-pop d k j)

  pub length-put :
      (d : Dict K V) (k : K) (v : V)
      → length (put k v d) ≡ (if contains k d then length d else suc (length d))
  unfolding get put
  length-put [] k v = refl
  length-put ((i, w) ∷ d) k v = ground (arith, length-put d k v)

  pub length-pop-le : (d : Dict K V) (k : K) → length (pop k d) ≤ length d
  unfolding pop
  length-pop-le [] k = omega arith
  length-pop-le ((i, w) ∷ d) k = ground (arith, length-pop-le d k)

  pub length-pop-lt : (d : Dict K V) (k : K) → get k d ≢ none → length (pop k d) < length d
  unfolding get pop
  length-pop-lt [] k h = absurd (h refl)
  length-pop-lt ((i, w) ∷ d) k h = ground (arith, length-pop-le d k, length-pop-lt d k)

  length-place_last-le :
      (d : Dict K V) (k : K) (o : Option V) → get k d ≡ o → length (place_last k o d) ≤ length d
  unfolding place_last
  length-place_last-le d k none h = omega arith
  length-place_last-le d k (some v) h = omega (
    arith,
    length-append (pop k d) ((k, v) ∷ []),
    length-pop-lt d k (λ (n : get k d ≡ none). cc (n, h)),
  )

  pub length-move_to_end-le : (d : Dict K V) (k : K) → length (move_to_end k d) ≤ length d
  length-move_to_end-le d k =
      let h : length (place_last k (get k d) d) ≤ length d =
        length-place_last-le d k (get k d) refl in
      unfold move_to_end in h

  pub length-pop_all-le : (ks : List K) (d : Dict K V) → length (pop_all ks d) ≤ length d
  unfolding pop_all
  length-pop_all-le [] d = omega arith
  length-pop_all-le (k ∷ ks) d = omega (arith, length-pop_all-le ks (pop k d), length-pop-le d k)
