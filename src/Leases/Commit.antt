-- ===== src/Leases/Commit.antt =====
-- `FencedCommit` of src/pytitect/leases.py: compare the authority under the consumer's lock and
-- mutate in the same callback. The consumer's `locked_authority` and its mutation are parameters:
-- both act on a world `S` that the consumer owns.
use pytitect.Prelude.{
  value_error, ℕ, ◌<◌, String, Bool, false, ◌||◌, not, ◌≡◌, refl, Option, none, some, List, Eq,
  arith, leb, if◌then◌else◌, ◌==◌, ℕ_eq, String_eq, Action, Result, ok, err, inl, inr, Option-cases,
  ap, sym, ◌∙◌, Datetime, Timedelta,
}
use pytitect.Prelude.Dict.{get}
use pytitect.Leases.{Lease, LeaseStore, lease_acquired, acquire}
use pytitect.Leases.Calls.{Call, perform_all}
use pytitect.Leases.Exclusion.{acquired-IsBeyond}

pub record LeaseAuthority : Type 0 where
  pub owner : String
  pub fencing_token : ℕ
  pub expires_at : ℕ

-- `LeaseAuthority(owner, fencing_token, expires_at)`
unfoldable pub lease_authority : String → ℕ → Datetime → Result LeaseAuthority
lease_authority owner fencing_token (Datetime.other t) = err value_error
lease_authority owner fencing_token (Datetime.utc t) =
    if (owner == "") || (fencing_token == 0)
    then err value_error
    else ok (record { owner = owner; fencing_token = fencing_token; expires_at = t })

pub data FencedResult (A : Type 0) : Type 0 where
  fenced_committed : A → FencedResult A
  stale_lease : FencedResult A

abbrev pub Locked : Type 0 → Type 0 → Type 0 → Type 0
Locked R S A = R → (Option LeaseAuthority → Action S (FencedResult A)) → Action S (FencedResult A)

abbrev pub committed : {S A : Type 0} → Result A × S → Result (FencedResult A) × S
committed (ok a, s) = (ok (fenced_committed a), s)
committed (err x, s) = (err x, s)

-- The test of `compare`; `now` is what the clock answers under the lock.
unfoldable pub is_authoritative : {R : Type 0} → Lease R → ℕ → Option LeaseAuthority → Bool
is_authoritative lease now none = false
is_authoritative lease now (some authority) = not (
    not (authority.fencing_token == lease.fencing_token)
    || not (authority.owner == lease.owner)
    || leb authority.expires_at now)

unfoldable pub compare :
    {R S A : Type 0} → Lease R → ℕ → Action S A → Option LeaseAuthority → Action S (FencedResult A)
unfolding is_authoritative
compare lease now mutation authority s =
    if is_authoritative lease now authority then committed (mutation s) else (ok stale_lease, s)

-- `FencedCommit(locked_authority, clock=...).commit(lease, mutation)`
unfoldable pub commit :
    {R S A : Type 0} → Locked R S A → ℕ → Lease R → Action S A → Action S (FencedResult A)
unfolding compare
commit locked_authority now lease mutation =
    locked_authority lease.resource (compare lease now mutation)

-- What `LeaseAuthority` a stored lease gives.
abbrev pub authority_of : {R : Type 0} → Option (Lease R) → Option LeaseAuthority
authority_of none = none
authority_of (some l) =
    some (record { owner = l.owner; fencing_token = l.fencing_token; expires_at = l.expires_at })

module _ {R S A : Type 0} ⦃e : Eq R⦄ (leases : S → LeaseStore R) where
  -- What the consumer's lock promises: the callback runs once, in the world as it is, with the
  -- authority that the lease store of that world has for the resource.
  abbrev pub Honest : Locked R S A → Type 0
  Honest locked_authority =
      (r : R) (callback : Option LeaseAuthority → Action S (FencedResult A)) (s : S)
      → locked_authority r callback s ≡ callback (authority_of (get r (leases s).leases)) s

  -- Under an honest lock, a commit that reports a committed value ran the mutation in the world as
  -- it was, and at that moment the resource's lease had the token and the owner of the caller's
  -- lease and had not expired.
  pub committed_authority :
      (locked_authority : Locked R S A) (now : ℕ) (lease : Lease R) (mutation : Action S A) (s : S)
      (a : A)
      → Honest locked_authority
      → (commit locked_authority now lease mutation s).0 ≡ ok (fenced_committed a)
      → (mutation s ≡ (ok a, (commit locked_authority now lease mutation s).1))
        × ((l : Lease R) × (get lease.resource (leases s).leases ≡ some l)
            × (l.fencing_token ≡ lease.fencing_token)
            × (l.owner ≡ lease.owner)
            × (now < l.expires_at))
  unfolding commit
  committed_authority locked_authority now lease mutation s a honest h =
      let h' = rw honest at h in
      rw honest (inversion (get lease.resource (leases s).leases) refl h')
    where
      inversion :
          (o : Option (Lease R))
          → get lease.resource (leases s).leases ≡ o
          → (compare lease now mutation (authority_of o) s).0 ≡ ok (fenced_committed a)
          → (mutation s ≡ (ok a, (compare lease now mutation (authority_of o) s).1))
            × ((l : Lease R) × (o ≡ some l)
                × (l.fencing_token ≡ lease.fencing_token)
                × (l.owner ≡ lease.owner)
                × (now < l.expires_at))
      inversion none q h = ground arith
      inversion (some l) q h = (
        ground arith,
        (
          l,
          refl,
          ground arith,
          ground (arith, String_eq.beq_iff l.owner lease.owner),
          ground arith,
        ),
      )

  -- A commit under a lease that has been superseded does nothing: once a newer lease of its
  -- resource has been issued, and after any further calls on the lease store, the mutation is not
  -- run and the world is unchanged.
  pub superseded_commit :
      (locked_authority : Locked R S A) (o : String) (at : Datetime) (ttl : Timedelta)
      (store : LeaseStore R) (cs : List (Call R)) (l old : Lease R) (now : ℕ)
      (mutation : Action S A) (s : S)
      → Honest locked_authority
      → (acquire old.resource o at ttl store).0 ≡ ok (lease_acquired l)
      → old.fencing_token < l.fencing_token
      → leases s ≡ perform_all cs (acquire old.resource o at ttl store).1
      → commit locked_authority now old mutation s ≡ (ok stale_lease, s)
  unfolding commit
  superseded_commit locked_authority o at ttl store cs l old now mutation s honest h newer same =
      rw honest (elim (Option-cases (get old.resource (leases s).leases)) [
        | inl absent ↦ rw absent refl
        | inr (current, found) ↦
            let beyond : old.fencing_token < current.fencing_token =
              acquired-IsBeyond old.resource o at ttl store cs l current old.fencing_token h newer
                (ap (λ w. get old.resource w.leases) (sym same) ∙ found) in
            rw found (ground arith)
      ])
