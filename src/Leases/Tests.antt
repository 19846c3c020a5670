-- ===== src/Leases/Tests.antt =====
-- Tests of the lease modules: a resource that is held, and theorems applied to it.
use pytitect.Prelude.{
  ℕ, ◌+◌, ◌<◌, String, ◌≡◌, refl, some, List, [], ◌∷◌, arith, ok, String_eq, Action, utc, pos,
}
use pytitect.Prelude.Dict.{get, put}
use pytitect.Leases.{
  Lease, LeaseStore, lease_acquired, RenewResult, ReleaseResult, acquire, renew, release,
}
use pytitect.Leases.Calls.{Call, perform, perform_all}
use pytitect.Leases.Fencing.{IsValid, perform_lease-IsValid, fencing_grows}
use pytitect.Leases.Exclusion.{held_until_expiry, superseded_lease}
use pytitect.Leases.Commit.{
  Locked, FencedResult, fenced_committed, commit, authority_of, committed_authority,
  superseded_commit,
}

abbrev empty : LeaseStore String
empty = record { capacity = 2; leases = []; tokens = [] }

-- The lease that `one` acquires of `empty` at time 10 for 60.
abbrev first : Lease String
first = record { resource = "db"; owner = "one"; fencing_token = 1; expires_at = 70 }

abbrev held : LeaseStore String
held = record { capacity = 2; leases = ("db", first) ∷ []; tokens = ("db", 1) ∷ [] }

-- The lease that `two` acquires at time 80, once the first has expired.
abbrev second : Lease String
second = record { resource = "db"; owner = "two"; fencing_token = 2; expires_at = 140 }

acquire-first : acquire "db" "one" (utc 10) (pos 60) empty ≡ (ok (lease_acquired first), held)
unfolding acquire get put
acquire-first = refl

acquire-second : (acquire "db" "two" (utc 80) (pos 60) held).0 ≡ ok (lease_acquired second)
unfolding acquire get put
acquire-second = refl

held-IsValid : IsValid held
unfolding get
held-IsValid = record {
  fits = omega arith;
  held = λ r l q. ground (arith, String_eq.beq_iff "db" r);
}

perform_lease-IsValid_example : IsValid (perform (Call.acquire "db" "two" (utc 80) (pos 60)) held)
perform_lease-IsValid_example =
    perform_lease-IsValid (Call.acquire "db" "two" (utc 80) (pos 60)) held held-IsValid

second_token :
    (acquire "db" "two"
      (utc 80)
      (pos 60)
      (perform_all [] (acquire "db" "one" (utc 10) (pos 60) empty).1)).0
    ≡ ok (lease_acquired second)
unfolding acquire perform_all get put
second_token = refl

first_token : (acquire "db" "one" (utc 10) (pos 60) empty).0 ≡ ok (lease_acquired first)
unfolding acquire get put
first_token = refl

fencing_grows_example : 1 < 2
fencing_grows_example =
    fencing_grows "db" "one" "two" (utc 10) (utc 80) (pos 60) (pos 60) empty [] first second
      first_token second_token

held_first : get "db" held.leases ≡ some first
unfolding get
held_first = refl

abbrev attempts : List (Call String)
attempts = Call.acquire "db" "two" (utc 20) (pos 60) ∷ Call.release second (utc 90) ∷ []

held_until_expiry_example : get "db" (perform_all attempts held).leases ≡ some first
held_until_expiry_example =
    held_until_expiry "db" first attempts held (omega arith, (λ q. ground arith, tt)) held_first

superseded_lease_example :
    let s' = perform_all [] (acquire "db" "two" (utc 80) (pos 60) held).1 in
    (renew first (utc 90) (pos 60) s' ≡ (ok RenewResult.stale_lease, s'))
    × (release first (utc 90) s' ≡ (ok ReleaseResult.stale_lease, s'))
superseded_lease_example =
    superseded_lease "two" (utc 80) (pos 60) held [] second first 90 (pos 60) acquire-second
      (omega arith) refl

-- A consumer whose world is the lease store and a number, and its lock.
abbrev World : Type 0
World = LeaseStore String × ℕ

abbrev store_of : World → LeaseStore String
store_of (s, n) = s

abbrev lock : Locked String World ℕ
lock resource callback w = callback (authority_of (get resource (store_of w).leases)) w

abbrev add_five : Action World ℕ
add_five (s, n) = (ok (n + 5), (s, n + 5))

commit-first : (commit lock 20 first add_five (held, 3)).0 ≡ ok (fenced_committed 8)
unfolding commit get
commit-first = refl

committed_authority_example :
    (add_five (held, 3) ≡ (ok 8, (commit lock 20 first add_five (held, 3)).1))
    × ((l : Lease String) × (get "db" held.leases ≡ some l)
        × (l.fencing_token ≡ 1)
        × (l.owner ≡ "one")
        × (20 < l.expires_at))
committed_authority_example =
    committed_authority store_of lock 20 first add_five (held, 3) 8 (λ r callback w. refl)
      commit-first

abbrev later : LeaseStore String
later = (acquire "db" "two" (utc 80) (pos 60) held).1

later_is : later ≡ perform_all [] (acquire "db" "two" (utc 80) (pos 60) held).1
unfolding perform_all
later_is = refl

superseded_commit_example :
    commit lock 90 first add_five (later, 3) ≡ (ok FencedResult.stale_lease, (later, 3))
superseded_commit_example =
    superseded_commit store_of lock "two" (utc 80) (pos 60) held [] second first 90 add_five
      (later, 3) (λ r callback w. refl) acquire-second (omega arith) later_is
