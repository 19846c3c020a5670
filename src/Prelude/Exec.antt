-- ===== src/Prelude/Exec.antt =====
-- Python's exceptions, and methods that change an object and may raise. What was written before
-- a raise stays written, so the state comes back beside an error too.
use mathlib.Core.Bool.{Bool}
use mathlib.Core.Path.{◌≡◌, ap}
use pytitect.Prelude.Tests.{if◌then◌else◌}

-- The exception classes that the modelled code raises. The messages are dropped.
pub data Error : Type 0 where
  value_error overflow_error stop_iteration lookup_error runtime_error assertion_error : Error

pub data Result {ℓ} (A : Type ℓ) : Type ℓ where
  ok : A → Result A
  err : Error → Result A

-- A method on an object with state `S` that returns an `A` or raises.
abbrev pub Action {ℓ} : Type ℓ → Type ℓ → Type ℓ
Action S A = S → Result A × S

module _ {ℓ} {S A : Type ℓ} where
  abbrev pub pure : A → Action S A
  pure a s = (ok a, s)

  abbrev pub raise : Error → Action S A
  raise e s = (err e, s)

  abbrev pub lift : Result A → Action S A
  lift r s = (r, s)

  abbrev pub gets : (S → A) → Action S A
  gets f s = (ok (f s), s)

  -- Store the new state and return the value.
  abbrev pub commit : A → S → Action S A
  commit a s' s = (ok a, s')

infixl 5 ◌>>=◌ ◌>>◌
abbrev pub ◌>>=◌ {ℓ} : {S A B : Type ℓ} → Action S A → (A → Action S B) → Action S B
◌>>=◌ m f s = let (r, s') = m s in elim r [ ok a ↦ f a s' | err e ↦ (err e, s') ]

abbrev pub ◌>>◌ {ℓ} : {S A B : Type ℓ} → Action S A → Action S B → Action S B
m >> k = m >>= λ _. k

-- A method that has returned hands its value and its state on.
pub bind_ok {ℓ} :
    {S A B : Type ℓ} (m : Action S A) (f : A → Action S B) {s s' : S} {a : A}
    → m s ≡ (ok a, s')
    → (m >>= f) s ≡ f a s'
bind_ok {S = S} {A = A} m f {a = a} e = rw (e, ◌>>=◌) (ap (λ (p : Result A × S). f a p.1) e)

-- `if test: raise e`
abbrev pub raise_if {ℓ} : {S : Type ℓ} → Bool → Error → Action S Unit
raise_if c e s = (if c then err e else ok tt, s)
