-- ===== src/Leases/Calls.antt =====
-- The methods of the `LeaseStore` protocol as data, and what a sequence of calls does to a store.
use pytitect.Prelude.{String, List, [], ◌∷◌, Eq, Datetime, Timedelta}
use pytitect.Leases
use pytitect.Leases.{Lease, LeaseStore}

pub data Call (R : Type 0) : Type 0 where
  acquire : R → String → Datetime → Timedelta → Call R
  renew : Lease R → Datetime → Timedelta → Call R
  release : Lease R → Datetime → Call R

module _ {R : Type 0} ⦃e : Eq R⦄ where
  -- The store after a call, whether it returned or raised.
  unfoldable pub perform : Call R → LeaseStore R → LeaseStore R
  perform (acquire resource owner now ttl) s = (Leases.acquire resource owner now ttl s).1
  perform (renew lease now ttl) s = (Leases.renew lease now ttl s).1
  perform (release lease now) s = (Leases.release lease now s).1

  unfoldable pub perform_all : List (Call R) → LeaseStore R → LeaseStore R
  unfolding perform
  perform_all [] s = s
  perform_all (c ∷ cs) s = perform_all cs (perform c s)

  -- What every call keeps, every sequence of calls keeps.
  pub perform_all_keeps {ℓ} :
      (P : LeaseStore R → Type ℓ)
      → ((c : Call R) (s : LeaseStore R) → P s → P (perform c s))
      → (cs : List (Call R)) (s : LeaseStore R) → P s
      → P (perform_all cs s)
  unfolding perform_all
  perform_all_keeps P step [] s h = h
  perform_all_keeps P step (c ∷ cs) s h = perform_all_keeps P step cs (perform c s) (step c s h)
