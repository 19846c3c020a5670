-- ===== src/Prelude/Sets.antt =====
-- Python's sets as lists that are asked for their members, and how often a list has an element.
use Prim.Native.Nat.{ℕ, suc, ◌+◌}
use mathlib.Core.Path.{◌≡◌, refl}
use mathlib.Core.Bool.{Bool, ◌||◌, ◌&&◌}
use mathlib.Core.List.{List, [], ◌∷◌, ◌++◌}
use native.Mathlib.Omega.{arith}
use pytitect.Prelude.Tests.{if◌then◌else◌, ltb}
use pytitect.Prelude.Lists.{filter}
use pytitect.Prelude.Equality.{Eq, ◌==◌}
use pytitect.Prelude.Dict.{Dict, get, keys, elem, IsUnique, holds_at}
use pytitect.Prelude.Sorting.{sorted, insert}

module _ {ℓ} {A : Type ℓ} ⦃e : Eq A⦄ where
  -- `xs.count(x)`
  abbrev pub count : A → List A → ℕ
  count x [] = 0
  count x (y ∷ ys) = if y == x then suc (count x ys) else count x ys

  -- `set(xs)`
  abbrev pub to_set : List A → List A
  to_set [] = []
  to_set (x ∷ xs) = if elem x xs then to_set xs else x ∷ to_set xs

  pub elem-count : (x : A) (xs : List A) → elem x xs ≡ ltb 0 (count x xs)
  elem-count x [] = refl
  elem-count x (y ∷ ys) = ground (arith, elem-count x ys)

  pub count-append : (x : A) (xs ys : List A) → count x (xs ++ ys) ≡ count x xs + count x ys
  count-append x [] ys = omega arith
  count-append x (y ∷ xs) ys = ground (arith, count-append x xs ys)

  pub elem-append : (x : A) (xs ys : List A) → elem x (xs ++ ys) ≡ (elem x xs || elem x ys)
  elem-append x [] ys = refl
  elem-append x (y ∷ xs) ys = ground (arith, elem-append x xs ys)

  pub elem-filter : (p : A → Bool) (x : A) (xs : List A) → elem x (filter p xs) ≡ (elem x xs && p x)
  elem-filter p x [] = refl
  elem-filter p x (y ∷ ys) = ground (arith, elem-filter p x ys, e.beq_iff y x)

  pub count-to_set : (x : A) (xs : List A) → count x (to_set xs) ≡ (if elem x xs then 1 else 0)
  count-to_set x [] = refl
  count-to_set x (y ∷ ys) = ground (arith, count-to_set x ys, e.beq_iff y x)

  count-insert :
      (leq : A → A → Bool) (x y : A) (ys : List A) → count x (insert leq y ys) ≡ count x (y ∷ ys)
  unfolding insert
  count-insert leq x y [] = refl
  count-insert leq x y (z ∷ zs) = ground (arith, count-insert leq x y zs)

  -- A sort keeps every element as often as it was there.
  pub count-sorted :
      (leq : A → A → Bool) (x : A) (xs : List A) → count x (sorted leq xs) ≡ count x xs
  unfolding sorted
  count-sorted leq x [] = refl
  count-sorted leq x (y ∷ ys) =
      ground (arith, count-insert leq x y (sorted leq ys), count-sorted leq x ys)

  pub count-keys-filter {κ} :
      {V : Type κ} (p : A × V → Bool) (d : Dict A V) (x : A)
      → IsUnique d
      → count x (keys (filter p d)) ≡ (if holds_at p x (get x d) then 1 else 0)
  unfolding get
  count-keys-filter p [] x u = refl
  count-keys-filter p ((k, v) ∷ d) x u = ground (arith, count-keys-filter p d x u.1, e.beq_iff k x)
