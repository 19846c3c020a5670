-- ===== src/Leases.antt =====
-- Leases with monotonic fencing: src/pytitect/leases.py, `InMemoryLeaseStore`. Each method holds
-- the lock from end to end, so threads interleave whole calls.
pub mod Calls
pub mod Fencing
pub mod Exclusion
pub mod Commit
pub mod Harness
mod Tests
use pytitect.Prelude.{
  ℕ, ◌+◌, String, Bool, ◌&&◌, ◌||◌, not, Option, none, some, [], ltb, leb, if◌then◌else◌, or_else,
  length, Eq, ◌==◌, pair_eq, ℕ_eq, String_eq, ◌↔◌, ◌≡◌, true, arith, Action, Result, ok, err,
  value_error, overflow_error, ◌>>=◌, ◌>>◌, pure, gets, lift, raise_if, Datetime, instant,
  Timedelta, not_positive, ◌+ₜ◌,
}
use pytitect.Prelude.Dict.{Dict, get, put, pop, contains}

pub record Lease (R : Type 0) : Type 0 where
  pub resource : R
  pub owner : String
  pub fencing_token : ℕ
  pub expires_at : ℕ

module _ {R : Type 0} ⦃e : Eq R⦄ where
  -- `==` of the frozen dataclass: field by field.
  abbrev pub lease_beq : Lease R → Lease R → Bool
  lease_beq a b =
      (a.resource == b.resource)
      && (a.owner == b.owner)
      && (a.fencing_token == b.fencing_token)
      && (a.expires_at == b.expires_at)

  pub lease_beq_iff : (a b : Lease R) → (lease_beq a b ≡ true) ↔ (a ≡ b)
  lease_beq_iff a b =
      ground (arith, e.beq_iff a.resource b.resource, String_eq.beq_iff a.owner b.owner)

  instance abbrev pub Lease_eq : Eq (Lease R)
  Lease_eq = record { beq = lease_beq; beq_iff = lease_beq_iff }

-- `Lease(resource, owner, fencing_token, expires_at)`
unfoldable pub lease : {R : Type 0} → R → String → ℕ → Datetime → Result (Lease R)
lease resource owner fencing_token (Datetime.other t) = err value_error
lease resource owner fencing_token (Datetime.utc t) =
    if (owner == "") || (fencing_token == 0)
    then err value_error
    else ok (record {
      resource = resource;
      owner = owner;
      fencing_token = fencing_token;
      expires_at = t;
    })

pub data AcquireResult (R : Type 0) : Type 0 where
  lease_acquired : Lease R → AcquireResult R
  lease_busy : String → ℕ → AcquireResult R

pub data RenewResult (R : Type 0) : Type 0 where
  lease_renewed : Lease R → RenewResult R
  stale_lease : RenewResult R

pub data ReleaseResult : Type 0 where
  lease_released stale_lease : ReleaseResult

pub record LeaseStore (R : Type 0) : Type 0 where
  pub capacity : ℕ
  pub leases : Dict R (Lease R)
  pub tokens : Dict R ℕ

module _ {R : Type 0} ⦃e : Eq R⦄ where
  -- The part of `acquire` below the test for an active lease.
  unfoldable pub issue : R → String → ℕ → Timedelta → Action (LeaseStore R) (AcquireResult R)
  issue resource owner now ttl s =
      let token = or_else (get resource s.tokens) 0 + 1 in
      let lease : Lease R = record {
        resource = resource;
        owner = owner;
        fencing_token = token;
        expires_at = now +ₜ ttl;
      } in
      if not (contains resource s.tokens) && leb s.capacity (length s.tokens)
      then (err overflow_error, s)
      else (
        ok (lease_acquired lease),
        record s { tokens = put resource token s.tokens; leases = put resource lease s.leases },
      )

  unfoldable pub acquire_locked :
      Option (Lease R) → R → String → ℕ → Timedelta → Action (LeaseStore R) (AcquireResult R)
  unfolding issue
  acquire_locked none resource owner now ttl s = issue resource owner now ttl s
  acquire_locked (some current) resource owner now ttl s =
      if ltb now current.expires_at
      then (ok (lease_busy current.owner current.expires_at), s)
      else issue resource owner now ttl s

  unfoldable pub acquire :
      R → String → Datetime → Timedelta → Action (LeaseStore R) (AcquireResult R)
  unfolding acquire_locked
  acquire resource owner now ttl = do
    t ← lift (instant now)
    raise_if (owner == "" || not_positive ttl) value_error
    current ← gets (λ s. get resource s.leases)
    acquire_locked current resource owner t ttl

  -- `current != lease or current.expires_at <= now`, the test of `renew` and `release`
  unfoldable pub is_stale : Option (Lease R) → Lease R → ℕ → Bool
  is_stale none lease now = true
  is_stale (some current) lease now = not (current == lease) || leb current.expires_at now

  unfoldable pub renew_locked : Lease R → ℕ → Timedelta → Action (LeaseStore R) (RenewResult R)
  unfolding is_stale
  renew_locked lease now ttl s =
      let renewed = record lease { expires_at = now +ₜ ttl } in
      if is_stale (get lease.resource s.leases) lease now
      then (ok RenewResult.stale_lease, s)
      else (ok (lease_renewed renewed), record s { leases = put lease.resource renewed s.leases })

  unfoldable pub renew : Lease R → Datetime → Timedelta → Action (LeaseStore R) (RenewResult R)
  unfolding renew_locked
  renew lease now ttl = do
    t ← lift (instant now)
    raise_if (not_positive ttl) value_error
    renew_locked lease t ttl

  unfoldable pub release_locked : Lease R → ℕ → Action (LeaseStore R) ReleaseResult
  unfolding is_stale
  release_locked lease now s =
      if is_stale (get lease.resource s.leases) lease now
      then (ok ReleaseResult.stale_lease, s)
      else (ok lease_released, record s { leases = pop lease.resource s.leases })

  unfoldable pub release : Lease R → Datetime → Action (LeaseStore R) ReleaseResult
  unfolding release_locked
  release lease now = do t ← lift (instant now); release_locked lease t

  unfoldable pub current : R → LeaseStore R → Option (Lease R)
  current resource s = get resource s.leases

  unfoldable pub authority : R → LeaseStore R → Option ℕ
  authority resource s = elim (get resource s.leases) [
    | none ↦ none
    | some l ↦ some l.fencing_token
  ]

  -- `InMemoryLeaseStore(capacity=...)`
  unfoldable pub new : ℕ → Result (LeaseStore R)
  new capacity =
      if capacity == 0
      then err value_error
      else ok (record { capacity = capacity; leases = []; tokens = [] })
