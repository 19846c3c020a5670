-- ===== src/Prelude/Dict/Defs.antt =====
-- The operations of a dictionary. Without a key, `pop` and `move_to_end` change nothing: the code
-- calls them with keys that are there, or with a default.
use mathlib.Core.Bool.{Bool, false, ◌||◌}
use mathlib.Core.Option.{Option, none, some}
use mathlib.Core.List.{List, [], ◌∷◌, ◌++◌}
use pytitect.Prelude.Tests.{if◌then◌else◌, is_some}
use pytitect.Prelude.Equality.{Eq, ◌==◌}

abbrev pub Dict {ℓ κ} : Type ℓ → Type κ → Type (ℓ ⊔ κ)
Dict K V = List (K × V)

abbrev pub keys {ℓ κ} : {K : Type ℓ} {V : Type κ} → Dict K V → List K
keys [] = []
keys ((k, v) ∷ d) = k ∷ keys d

abbrev pub values {ℓ κ} : {K : Type ℓ} {V : Type κ} → Dict K V → List V
values [] = []
values ((k, v) ∷ d) = v ∷ values d

abbrev pub elem {ℓ} : {K : Type ℓ} ⦃e : Eq K⦄ → K → List K → Bool
elem k [] = false
elem k (j ∷ js) = j == k || elem k js

module _ {ℓ κ} {K : Type ℓ} {V : Type κ} ⦃e : Eq K⦄ where
  unfoldable pub get : K → Dict K V → Option V
  get k [] = none
  get k ((j, v) ∷ d) = if j == k then some v else get k d

  abbrev pub contains : K → Dict K V → Bool
  contains k d = is_some (get k d)

  unfoldable pub put : K → V → Dict K V → Dict K V
  put k v [] = (k, v) ∷ []
  put k v ((j, w) ∷ d) = if j == k then (j, v) ∷ d else (j, w) ∷ put k v d

  unfoldable pub pop : K → Dict K V → Dict K V
  pop k [] = []
  pop k ((j, v) ∷ d) = let rest = pop k d in if j == k then rest else (j, v) ∷ rest

  unfoldable pub place_last : K → Option V → Dict K V → Dict K V
  place_last k none d = d
  place_last k (some v) d = pop k d ++ (k, v) ∷ []

  unfoldable pub move_to_end : K → Dict K V → Dict K V
  unfolding get pop place_last
  move_to_end k d = place_last k (get k d) d

  -- `for k in ks: d.pop(k)`
  unfoldable pub pop_all : List K → Dict K V → Dict K V
  unfolding pop
  pop_all [] d = d
  pop_all (k ∷ ks) d = pop_all ks (pop k d)
