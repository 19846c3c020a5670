-- ===== src/Leases/Fencing.antt =====
-- The well-formedness of the lease store, and the order of its fencing tokens.
use pytitect.Prelude.{
  ℕ, ◌+◌, ◌≤◌, ◌<◌, String, ◌≡◌, some, List, Eq, arith, or_else, length, ok, Datetime, utc, other,
  Timedelta, String_eq,
}
use pytitect.Prelude.Dict.{get, get-put, get-pop, length-put}
use pytitect.Leases.{Lease, LeaseStore, lease_acquired, lease_beq_iff, acquire, renew, release}
use pytitect.Leases.Calls.{Call, perform, perform_all, perform_all_keeps}

module _ {R : Type 0} ⦃e : Eq R⦄ where
  -- The last fencing token issued for a resource, 0 before the first.
  abbrev pub issued : R → LeaseStore R → ℕ
  issued r s = or_else (get r s.tokens) 0

  -- A lease stands under its own resource with the last token issued for it, which is positive.
  pub record IsValid (s : LeaseStore R) : Type 0 where
    pub fits : length s.tokens ≤ s.capacity
    pub held :
        (r : R) (l : Lease R)
        → get r s.leases ≡ some l
        → (l.resource ≡ r) × (0 < l.fencing_token) × (l.fencing_token ≡ issued r s)

  -- The invariant at one resource, with the parts of the store that it reads.
  abbrev HeldAt : R → LeaseStore R → Type 0
  HeldAt j s =
      (l : Lease R)
      → get j s.leases ≡ some l
      → (l.resource ≡ j) × (0 < l.fencing_token) × (l.fencing_token ≡ issued j s)

  acquire-fits :
      (r : R) (o : String) (now : Datetime) (ttl : Timedelta) (s : LeaseStore R)
      → length s.tokens ≤ s.capacity
      → length (acquire r o now ttl s).1.tokens ≤ (acquire r o now ttl s).1.capacity
  unfolding acquire
  acquire-fits r o (utc t) ttl s h =
      ground (arith, length-put s.tokens r (or_else (get r s.tokens) 0 + 1))
  acquire-fits r o (other t) ttl s h = h

  acquire-held :
      (r : R) (o : String) (now : Datetime) (ttl : Timedelta) (s : LeaseStore R) (j : R)
      → HeldAt j s
      → HeldAt j (acquire r o now ttl s).1
  unfolding acquire
  acquire-held r o (utc t) ttl s j h l q = grind (arith, get-put, e.beq_iff, h)
  acquire-held r o (other t) ttl s j h l q = h l q

  renew-held :
      (lease : Lease R) (now : Datetime) (ttl : Timedelta) (s : LeaseStore R)
      → ((j : R) → HeldAt j s)
      → (j : R) → HeldAt j (renew lease now ttl s).1
  unfolding renew
  renew-held lease (utc t) ttl s h j l q =
      grind (arith, get-put, e.beq_iff, lease_beq_iff, h j, h lease.resource)
  renew-held lease (other t) ttl s h j l q = h j l q

  renew-tokens :
      (lease : Lease R) (now : Datetime) (ttl : Timedelta) (s : LeaseStore R)
      → ((renew lease now ttl s).1.tokens ≡ s.tokens)
        × ((renew lease now ttl s).1.capacity ≡ s.capacity)
  unfolding renew
  renew-tokens lease (utc t) ttl s = ground arith
  renew-tokens lease (other t) ttl s = ground arith

  release-tokens :
      (lease : Lease R) (now : Datetime) (s : LeaseStore R)
      → ((release lease now s).1.tokens ≡ s.tokens)
        × ((release lease now s).1.capacity ≡ s.capacity)
  unfolding release
  release-tokens lease (utc t) s = ground arith
  release-tokens lease (other t) s = ground arith

  release-held :
      (lease : Lease R) (now : Datetime) (s : LeaseStore R) (j : R)
      → HeldAt j s
      → HeldAt j (release lease now s).1
  unfolding release
  release-held lease (utc t) s j h l q = grind (arith, get-pop, h)
  release-held lease (other t) s j h l q = h l q

  -- Every call, whether it returns or raises, keeps the store well formed: at most `capacity`
  -- resources have a fencing token, and a lease stands under its own resource with the last
  -- token issued for it, which is positive.
  pub perform_lease-IsValid : (c : Call R) (s : LeaseStore R) → IsValid s → IsValid (perform c s)
  unfolding perform
  perform_lease-IsValid (Call.acquire r o now ttl) s v = record {
    fits = acquire-fits r o now ttl s v.fits;
    held = λ j. acquire-held r o now ttl s j (v.held j);
  }
  perform_lease-IsValid (Call.renew lease now ttl) s v = record {
    fits = ground (arith, renew-tokens lease now ttl s, v.fits);
    held = renew-held lease now ttl s v.held;
  }
  perform_lease-IsValid (Call.release lease now) s v = record {
    fits = ground (arith, release-tokens lease now s, v.fits);
    held = λ j. release-held lease now s j (v.held j);
  }

  acquire-issued :
      (r : R) (o : String) (now : Datetime) (ttl : Timedelta) (s : LeaseStore R) (j : R)
      → issued j s ≤ issued j (acquire r o now ttl s).1
  unfolding acquire
  acquire-issued r o (utc t) ttl s j = grind (arith, get-put, e.beq_iff)
  acquire-issued r o (other t) ttl s j = omega arith

  -- No call takes back an issued token.
  issued_mono :
      (j : R) (n : ℕ) (c : Call R) (s : LeaseStore R) → n ≤ issued j s → n ≤ issued j (perform c s)
  unfolding perform
  issued_mono j n (Call.acquire r o now ttl) s h = omega (arith, acquire-issued r o now ttl s j)
  issued_mono j n (Call.renew lease now ttl) s h = rw ((renew-tokens lease now ttl s).0) h
  issued_mono j n (Call.release lease now) s h = rw ((release-tokens lease now s).0) h

  -- The token of an acquired lease is the next one, and is recorded as issued.
  pub acquired_token :
      (r : R) (o : String) (now : Datetime) (ttl : Timedelta) (s : LeaseStore R) (l : Lease R)
      → (acquire r o now ttl s).0 ≡ ok (lease_acquired l)
      → (l.fencing_token ≡ issued r s + 1) × (issued r (acquire r o now ttl s).1 ≡ l.fencing_token)
  unfolding acquire
  acquired_token r o (utc t) ttl s l h = grind (arith, get-put, e.beq_iff)
  acquired_token r o (other t) ttl s l h = ground arith

  -- Fencing tokens of one resource grow: whatever calls run between two acquisitions of it, the
  -- second lease has the larger token.
  pub fencing_grows :
      (r : R) (o o' : String) (now now' : Datetime) (ttl ttl' : Timedelta) (s : LeaseStore R)
      (cs : List (Call R)) (l l' : Lease R)
      → let s' = perform_all cs (acquire r o now ttl s).1 in
        (acquire r o now ttl s).0 ≡ ok (lease_acquired l)
        → (acquire r o' now' ttl' s').0 ≡ ok (lease_acquired l')
        → l.fencing_token < l'.fencing_token
  fencing_grows r o o' now now' ttl ttl' s cs l l' h h' =
      let s₁ = (acquire r o now ttl s).1 in
      let s₂ = perform_all cs s₁ in
      omega (
        arith,
        acquired_token r o now ttl s l h,
        acquired_token r o' now' ttl' s₂ l' h',
        perform_all_keeps (λ s. issued r s₁ ≤ issued r s) (issued_mono r (issued r s₁)) cs s₁
            (omega arith),
      )
