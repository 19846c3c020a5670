-- ===== src/Prelude/Sorting.antt =====
-- Python's `sorted` on a list, a stable sort, by a comparison of two elements.
use Prim.Native.Nat.{ℕ, ◌≤◌}
use Prim.Native.String.{String, compare}
use text.Mathlib.Text.{is_le}
use mathlib.Core.Path.{◌≡◌, refl}
use mathlib.Core.Logic.{inl, inr}
use mathlib.Core.Bool.{Bool, ◌&&◌, ◌||◌}
use mathlib.Core.List.{List, [], ◌∷◌}
use native.Mathlib.Nat.{le_trans}
use native.Mathlib.Omega.{arith}
use pytitect.Prelude.Tests.{ltb, eqb, if◌then◌else◌, Bool-cases}
use pytitect.Prelude.Lists.{length, filter, All, All-map_implies}

-- `<=` on strings, by code points.
abbrev pub str_leb : String → String → Bool
str_leb s t = is_le (compare s t)

-- Tuples compare by the first part that differs.
abbrev pub then_by : Bool → Bool → Bool → Bool
then_by below same rest = below || (same && rest)

module _ {ℓ} {A : Type ℓ} (leq : A → A → Bool) where
  unfoldable pub insert : A → List A → List A
  insert x [] = x ∷ []
  insert x (y ∷ ys) = if leq x y then x ∷ y ∷ ys else y ∷ insert x ys

  unfoldable pub sorted : List A → List A
  unfolding insert
  sorted [] = []
  sorted (x ∷ xs) = insert x (sorted xs)

  pub length-insert : (x : A) (xs : List A) → length (insert x xs) ≡ length (x ∷ xs)
  unfolding insert
  length-insert x [] = refl
  length-insert x (y ∷ ys) = ground (arith, length-insert x ys)

  pub length-sorted : (xs : List A) → length (sorted xs) ≡ length xs
  unfolding sorted
  length-sorted [] = refl
  length-sorted (x ∷ xs) = omega (arith, length-insert x (sorted xs), length-sorted xs)

  insert-All {κ} : (P : A → Type κ) (x : A) (xs : List A) → P x → All P xs → All P (insert x xs)
  unfolding insert
  insert-All P x [] hx h = (hx, tt)
  insert-All P x (y ∷ ys) hx h = elim (Bool-cases (leq x y)) [
    | inl first ↦ rw first (hx, h)
    | inr later ↦ rw later (h.0, insert-All P x ys hx h.1)
  ]

  pub sorted-All {κ} : (P : A → Type κ) (xs : List A) → All P xs → All P (sorted xs)
  unfolding sorted
  sorted-All P [] h = tt
  sorted-All P (x ∷ xs) h = insert-All P x (sorted xs) h.0 (sorted-All P xs h.1)

-- Each element's key is at most the keys of the elements after it.
abbrev pub IsSortedBy {ℓ} : {A : Type ℓ} → (A → ℕ) → List A → Type 0
IsSortedBy key [] = Unit
IsSortedBy key (x ∷ xs) = All (λ y. key x ≤ key y) xs × IsSortedBy key xs

-- A comparison of tuples whose first part is a number.
abbrev pub key_then {ℓ} : {A : Type ℓ} → (A → ℕ) → (A → A → Bool) → A → A → Bool
key_then key tie x y = then_by (ltb (key x) (key y)) (eqb (key x) (key y)) (tie x y)

module _ {ℓ} {A : Type ℓ} (key : A → ℕ) (tie : A → A → Bool) where
  insert-IsSortedBy :
      (x : A) (xs : List A) → IsSortedBy key xs → IsSortedBy key (insert (key_then key tie) x xs)
  unfolding insert
  insert-IsSortedBy x [] h = (tt, tt)
  insert-IsSortedBy x (y ∷ ys) h = elim (Bool-cases (key_then key tie x y)) [
    | inl first ↦
        let le : key x ≤ key y = ground arith in
        rw first ((le, All-map_implies (λ z (k : key y ≤ key z). le_trans le k) ys h.0), h)
    | inr later ↦
        let le : key y ≤ key x = ground arith in
        rw later (
          insert-All (key_then key tie) (λ z. key y ≤ key z) x ys le h.0,
          insert-IsSortedBy x ys h.1,
        )
  ]

  -- A sort by tuples puts the first parts in order.
  pub sorted-IsSortedBy : (xs : List A) → IsSortedBy key (sorted (key_then key tie) xs)
  unfolding sorted
  sorted-IsSortedBy [] = tt
  sorted-IsSortedBy (x ∷ xs) =
      insert-IsSortedBy x (sorted (key_then key tie) xs) (sorted-IsSortedBy xs)

filter-All {ℓ κ} :
    {A : Type ℓ} (P : A → Type κ) (p : A → Bool) (xs : List A) → All P xs → All P (filter p xs)
filter-All P p [] h = tt
filter-All P p (x ∷ xs) h = elim (Bool-cases (p x)) [
  | inl in_ ↦ rw in_ (h.0, filter-All P p xs h.1)
  | inr out ↦ rw out (filter-All P p xs h.1)
]

-- What is filtered stays in order.
pub filter-IsSortedBy {ℓ} :
    {A : Type ℓ} (key : A → ℕ) (p : A → Bool) (xs : List A)
    → IsSortedBy key xs
    → IsSortedBy key (filter p xs)
filter-IsSortedBy key p [] h = tt
filter-IsSortedBy key p (x ∷ xs) h = elim (Bool-cases (p x)) [
  | inl in_ ↦ rw in_ (filter-All (λ y. key x ≤ key y) p xs h.0, filter-IsSortedBy key p xs h.1)
  | inr out ↦ rw out (filter-IsSortedBy key p xs h.1)
]
