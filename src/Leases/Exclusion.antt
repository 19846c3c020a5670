-- ===== src/Leases/Exclusion.antt =====
-- Who holds a lease: exclusion while it lasts, and staleness once a newer one is issued.
use pytitect.Prelude.{
  ℕ, ◌<◌, String, ◌≡◌, ◌≢◌, false, some, List, [], ◌∷◌, All, Eq, arith, ok, inl, inr, Option-cases,
  not_positive, Datetime, utc, other, Timedelta, String_eq, ◌==◌,
}
use pytitect.Prelude.Dict.{get, get-put, get-pop}
use pytitect.Leases.{
  Lease, LeaseStore, lease_acquired, lease_busy, lease_beq_iff, acquire, renew, release,
  RenewResult, ReleaseResult,
}
use pytitect.Leases.Calls.{Call, perform, perform_all, perform_all_keeps}
use pytitect.Leases.Fencing.{issued, acquired_token}

module _ {R : Type 0} ⦃e : Eq R⦄ where
  -- While the lease of a resource is unexpired, `acquire` of that resource with valid arguments
  -- reports its owner and end, whoever asks, and leaves the store alone.
  pub acquire_busy :
      (r : R) (o : String) (t : ℕ) (ttl : Timedelta) (s : LeaseStore R) (l : Lease R)
      → get r s.leases ≡ some l
      → t < l.expires_at
      → (o == "") ≡ false
      → not_positive ttl ≡ false
      → acquire r o (utc t) ttl s ≡ (ok (lease_busy l.owner l.expires_at), s)
  unfolding acquire
  acquire_busy r o t ttl s l held early named positive = ground arith

  -- The call happens before an instant, and is no `renew` or `release` of the given lease.
  abbrev pub LeavesAlone : Lease R → Call R → Type 0
  LeavesAlone l (Call.acquire r o (utc t) ttl) = t < l.expires_at
  LeavesAlone l (Call.acquire r o (other t) ttl) = Unit
  LeavesAlone l (Call.renew lease now ttl) = lease ≢ l
  LeavesAlone l (Call.release lease now) = lease ≢ l

  step_held :
      (r : R) (l : Lease R) (c : Call R) (s : LeaseStore R)
      → LeavesAlone l c
      → get r s.leases ≡ some l
      → get r (perform c s).leases ≡ some l
  unfolding perform acquire renew release
  step_held r l (Call.acquire r' o (utc t) ttl) s alone h = grind (arith, get-put, e.beq_iff)
  step_held r l (Call.acquire r' o (other t) ttl) s alone h = h
  step_held r l (Call.renew lease (utc t) ttl) s alone h =
      grind (arith, get-put, e.beq_iff, lease_beq_iff)
  step_held r l (Call.renew lease (other t) ttl) s alone h = h
  step_held r l (Call.release lease (utc t)) s alone h =
      grind (arith, get-pop, e.beq_iff, lease_beq_iff)
  step_held r l (Call.release lease (other t)) s alone h = h

  -- The newest token of a resource is above `n`, and so is the token of its lease.
  record IsBeyond (r : R) (n : ℕ) (s : LeaseStore R) : Type 0 where
    newest : n < issued r s
    held_newer : (l : Lease R) → get r s.leases ≡ some l → n < l.fencing_token

  -- A lease that a resource has stays its lease, unchanged, through any calls that come before it
  -- expires and are not a renewal or a release of that very lease.
  pub held_until_expiry :
      (r : R) (l : Lease R) (cs : List (Call R)) (s : LeaseStore R)
      → All (LeavesAlone l) cs
      → get r s.leases ≡ some l
      → get r (perform_all cs s).leases ≡ some l
  unfolding perform_all
  held_until_expiry r l [] s alone h = h
  held_until_expiry r l (c ∷ cs) s alone h =
      held_until_expiry r l cs (perform c s) alone.1 (step_held r l c s alone.0 h)

  acquire-IsBeyond :
      (r : R) (n : ℕ) (r' : R) (o : String) (now : Datetime) (ttl : Timedelta) (s : LeaseStore R)
      → IsBeyond r n s
      → IsBeyond r n (acquire r' o now ttl s).1
  unfolding acquire
  acquire-IsBeyond r n r' o (utc t) ttl s b = record {
    newest = grind (arith, get-put, e.beq_iff, b.newest);
    held_newer = λ l q. grind (arith, get-put, e.beq_iff, b.newest, b.held_newer);
  }
  acquire-IsBeyond r n r' o (other t) ttl s b = b

  renew-IsBeyond :
      (r : R) (n : ℕ) (lease : Lease R) (now : Datetime) (ttl : Timedelta) (s : LeaseStore R)
      → IsBeyond r n s
      → IsBeyond r n (renew lease now ttl s).1
  unfolding renew
  renew-IsBeyond r n lease (utc t) ttl s b = record {
    newest = ground (arith, b.newest);
    held_newer = λ l q. grind (arith, get-put, e.beq_iff, lease_beq_iff, b.held_newer);
  }
  renew-IsBeyond r n lease (other t) ttl s b = b

  release-IsBeyond :
      (r : R) (n : ℕ) (lease : Lease R) (now : Datetime) (s : LeaseStore R)
      → IsBeyond r n s
      → IsBeyond r n (release lease now s).1
  unfolding release
  release-IsBeyond r n lease (utc t) s b = record {
    newest = ground (arith, b.newest);
    held_newer = λ l q. grind (arith, get-pop, b.held_newer);
  }
  release-IsBeyond r n lease (other t) s b = b

  perform-IsBeyond :
      (r : R) (n : ℕ) (c : Call R) (s : LeaseStore R) → IsBeyond r n s → IsBeyond r n (perform c s)
  unfolding perform
  perform-IsBeyond r n (Call.acquire r' o now ttl) s = acquire-IsBeyond r n r' o now ttl s
  perform-IsBeyond r n (Call.renew lease now ttl) s = renew-IsBeyond r n lease now ttl s
  perform-IsBeyond r n (Call.release lease now) s = release-IsBeyond r n lease now s

  acquired_lease :
      (r : R) (o : String) (now : Datetime) (ttl : Timedelta) (s : LeaseStore R) (l : Lease R)
      → (acquire r o now ttl s).0 ≡ ok (lease_acquired l)
      → get r (acquire r o now ttl s).1.leases ≡ some l
  unfolding acquire
  acquired_lease r o (utc t) ttl s l h = grind (arith, get-put, e.beq_iff)
  acquired_lease r o (other t) ttl s l h = ground arith

  -- After an acquisition, and whatever calls follow it, every lease that the resource ever has is
  -- at least as new as the acquired one.
  pub acquired-IsBeyond :
      (r : R) (o : String) (now : Datetime) (ttl : Timedelta) (s : LeaseStore R)
      (cs : List (Call R)) (l old : Lease R) (n : ℕ)
      → (acquire r o now ttl s).0 ≡ ok (lease_acquired l)
      → n < l.fencing_token
      → get r (perform_all cs (acquire r o now ttl s).1).leases ≡ some old
      → n < old.fencing_token
  acquired-IsBeyond r o now ttl s cs l old n h newer q =
      let s₁ = (acquire r o now ttl s).1 in
      let start : IsBeyond r n s₁ = record {
        newest = omega (arith, acquired_token r o now ttl s l h);
        held_newer = λ l' q'. ground (arith, acquired_lease r o now ttl s l h);
      } in
      (perform_all_keeps (IsBeyond r n) (perform-IsBeyond r n) cs s₁ start).held_newer old q

  not_current :
      (old : Lease R) (t : ℕ) (ttl : Timedelta) (s : LeaseStore R)
      → get old.resource s.leases ≢ some old
      → not_positive ttl ≡ false
      → (renew old (utc t) ttl s ≡ (ok RenewResult.stale_lease, s))
        × (release old (utc t) s ≡ (ok ReleaseResult.stale_lease, s))
  unfolding renew release
  not_current old t ttl s differs positive = elim (Option-cases (get old.resource s.leases)) [
    | inl absent ↦ (ground arith, ground arith)
    | inr (current, found) ↦
        (ground (arith, lease_beq_iff current old), ground (arith, lease_beq_iff current old))
  ]

  -- Once a newer lease of its resource has been issued, a lease is stale for good: after any
  -- further calls, renewing it for a positive duration or releasing it, at a UTC instant, reports staleness
  -- and changes nothing.
  pub superseded_lease :
      (o : String) (now : Datetime) (ttl : Timedelta) (s : LeaseStore R) (cs : List (Call R))
      (l old : Lease R) (t : ℕ) (ttl' : Timedelta)
      → let s' = perform_all cs (acquire old.resource o now ttl s).1 in
        (acquire old.resource o now ttl s).0 ≡ ok (lease_acquired l)
        → old.fencing_token < l.fencing_token
        → not_positive ttl' ≡ false
        → (renew old (utc t) ttl' s' ≡ (ok RenewResult.stale_lease, s'))
          × (release old (utc t) s' ≡ (ok ReleaseResult.stale_lease, s'))
  superseded_lease o now ttl s cs l old t ttl' h newer positive =
      let s' = perform_all cs (acquire old.resource o now ttl s).1 in
      not_current old t ttl' s'
        (λ q. absurd (
          omega (
            arith,
            acquired-IsBeyond old.resource o now ttl s cs l old old.fencing_token h newer q,
          )))
        positive
