-- ===== src/Idempotency/Preservation.antt =====
-- Every method of the idempotency store keeps it well formed.
use pytitect.Prelude.{
  ℕ, String, ◌≡◌, refl, Option, none, some, List, String_eq, ◌==◌, arith, length, leb, Datetime,
  utc, other, Timedelta, ◌+ₜ◌, inl, inr, Bool-cases, not_positive, filter,
}
use pytitect.Prelude.Dict.{get, keys, get-pop, pop-IsUnique, length-pop-le}
use pytitect.Maintenance.{UncertainPlan}
use pytitect.Idempotency.Types.{IdempotencyScope, Identity, identity_eq, Entry, Store}
use pytitect.Idempotency.Reserve.{drop, purge_expired, is_expired, reserve, reserve_purged}
use pytitect.Idempotency.Settle.{
  executing, renew, complete, mark_uncertain, abandon, renew_found, complete_found, mark_found,
  abandon_found,
}
use pytitect.Idempotency.Purge.{purge, purgeable}
use pytitect.Idempotency.Calls.{Call, perform, IsFresh, perform_all, AllFresh, perform_all_keeps}
use pytitect.Idempotency.Linked.{drop-IsLinked}
use pytitect.Idempotency.Validity.{
  IsValid, drop_all-IsValid, purge_expired-IsValid, set_entry-IsValid, move-IsValid, add-IsValid,
  executing_found, tokens-drop_all,
}

module _ {T : Type 0} where
  reserve_purged-IsValid :
      (o : Option (Entry T)) (i : Identity) (fp : String) (now : ℕ) (ttl : Timedelta)
      (fresh : String) (s : Store T)
      → get i s.entries ≡ o
      → get fresh s.tokens ≡ none
      → IsValid s
      → IsValid (reserve_purged o i fp now ttl fresh s).1
  unfolding reserve_purged
  reserve_purged-IsValid (some x) i fp now ttl fresh s found f v = move-IsValid i s v
  reserve_purged-IsValid none i fp now ttl fresh s absent f v =
      elim (Bool-cases (leb s.capacity (length s.entries))) [
        | inl full ↦ rw full v
        | inr room ↦ rw room (add-IsValid i fresh fp (now +ₜ ttl) s absent f (ground arith) v)
      ]

  reserve-IsValid :
      (scope : IdempotencyScope) (key fp : String) (now : Datetime) (ttl : Timedelta)
      (fresh : String) (s : Store T)
      → get fresh s.tokens ≡ none
      → IsValid s
      → IsValid (reserve scope key fp now ttl fresh s).1
  unfolding reserve
  reserve-IsValid scope key fp (other t) ttl fresh s f v = v
  reserve-IsValid scope key fp (utc t) ttl fresh s f v = elim (Bool-cases (key == "")) [
    | inl empty ↦ rw empty v
    | inr given ↦ elim (Bool-cases (not_positive ttl)) [
      | inl short ↦ rw (given, short) v
      | inr long ↦
          let s' = purge_expired t s in
          rw (given, long)
            (reserve_purged-IsValid (get (scope, key) s'.entries) (scope, key) fp t ttl fresh s'
              refl (tokens-drop_all (keys (filter (is_expired t) s.entries)) s fresh f)
              (purge_expired-IsValid t s v))
    ]
  ]

  renew_found-IsValid :
      (o : Option (Identity × Entry T)) (token : String) (now expires_at : ℕ) (s : Store T)
      → executing token now s ≡ o
      → IsValid s
      → IsValid (renew_found o expires_at s).1
  unfolding renew_found
  renew_found-IsValid none token now expires_at s h v = v
  renew_found-IsValid (some (i, x)) token now expires_at s h v =
      let (linked, found, named, reserved, early) = executing_found token now s i x h in
      set_entry-IsValid i x (record x { expires_at = expires_at }) s found refl (λ q. cc) v

  complete_found-IsValid :
      (o : Option (Identity × Entry T)) (token : String) (now : ℕ) (value : T) (expires_at : ℕ)
      (s : Store T)
      → executing token now s ≡ o
      → IsValid s
      → IsValid (complete_found o value expires_at s).1
  unfolding complete_found
  complete_found-IsValid none token now value expires_at s h v = v
  complete_found-IsValid (some (i, x)) token now value expires_at s h v =
      let (linked, found, named, reserved, early) = executing_found token now s i x h in
      set_entry-IsValid i x _ s found refl (λ q. refl) v

  mark_found-IsValid :
      (o : Option (Identity × Entry T)) (token : String) (now : ℕ) (reason : String)
      (expires_at : ℕ) (s : Store T)
      → executing token now s ≡ o
      → IsValid s
      → IsValid (mark_found o reason expires_at s).1
  unfolding mark_found
  mark_found-IsValid none token now reason expires_at s h v = v
  mark_found-IsValid (some (i, x)) token now reason expires_at s h v =
      let (linked, found, named, reserved, early) = executing_found token now s i x h in
      set_entry-IsValid i x _ s found refl (λ q. cc) v

  abandon_found-IsValid :
      (o : Option (Identity × Entry T)) (token : String) (now : ℕ) (s : Store T)
      → executing token now s ≡ o
      → IsValid s
      → IsValid (abandon_found o token s).1
  unfolding abandon_found drop
  abandon_found-IsValid none token now s h v = v
  abandon_found-IsValid (some (i, x)) token now s h v =
      let (linked, found, named, reserved, early) = executing_found token now s i x h in
      record {
        fits = omega (arith, length-pop-le s.entries i, v.fits);
        unique = pop-IsUnique s.entries i v.unique;
        linked = rw (found, named) at (drop-IsLinked i s v.linked);
        valued = λ j y q. ground (arith, get-pop s.entries i j, v.valued j y);
      }

  renew-IsValid :
      (token : String) (now : Datetime) (ttl : Timedelta) (s : Store T)
      → IsValid s
      → IsValid (renew token now ttl s).1
  unfolding renew
  renew-IsValid token (other t) ttl s v = v
  renew-IsValid token (utc t) ttl s v = elim (Bool-cases (not_positive ttl)) [
    | inl short ↦ rw short v
    | inr long ↦ rw long (renew_found-IsValid (executing token t s) token t (t +ₜ ttl) s refl v)
  ]

  complete-IsValid :
      (token : String) (value : T) (now : Datetime) (ttl : Timedelta) (s : Store T)
      → IsValid s
      → IsValid (complete token value now ttl s).1
  unfolding complete
  complete-IsValid token value (other t) ttl s v = v
  complete-IsValid token value (utc t) ttl s v = elim (Bool-cases (not_positive ttl)) [
    | inl short ↦ rw short v
    | inr long ↦
        rw long (complete_found-IsValid (executing token t s) token t value (t +ₜ ttl) s refl v)
  ]

  mark_uncertain-IsValid :
      (token reason : String) (now : Datetime) (ttl : Timedelta) (s : Store T)
      → IsValid s
      → IsValid (mark_uncertain token reason now ttl s).1
  unfolding mark_uncertain
  mark_uncertain-IsValid token reason (other t) ttl s v = v
  mark_uncertain-IsValid token reason (utc t) ttl s v = elim (Bool-cases (reason == "")) [
    | inl empty ↦ rw empty v
    | inr given ↦ elim (Bool-cases (not_positive ttl)) [
      | inl short ↦ rw (given, short) v
      | inr long ↦
          rw (given, long)
            (mark_found-IsValid (executing token t s) token t reason (t +ₜ ttl) s refl v)
    ]
  ]

  abandon-IsValid :
      (token : String) (now : Datetime) (s : Store T) → IsValid s → IsValid (abandon token now s).1
  unfolding abandon
  abandon-IsValid token (other t) s v = v
  abandon-IsValid token (utc t) s v = abandon_found-IsValid (executing token t s) token t s refl v

  purge-IsValid : (plan : UncertainPlan) (s : Store T) → IsValid s → IsValid (purge plan s).1
  unfolding purge
  purge-IsValid plan s v = elim (Bool-cases plan.dry_run) [
    | inl dry ↦ rw dry v
    | inr wet ↦ rw wet (drop_all-IsValid (keys (purgeable plan s)) s v)
  ]

  -- Every call, whether it returns or raises, keeps the store well formed, if the token that
  -- `uuid4` gives to `reserve` is new to the store: at most `capacity` entries, one for each
  -- identity, linked with their tokens both ways, and a value in each completed one.
  pub perform_reservation-IsValid :
      (c : Call T) (s : Store T) → IsFresh c s → IsValid s → IsValid (perform c s)
  unfolding perform
  perform_reservation-IsValid (Call.reserve scope key fp now ttl fresh) s f v =
      reserve-IsValid scope key fp now ttl fresh s f v
  perform_reservation-IsValid (Call.renew token now ttl) s f v = renew-IsValid token now ttl s v
  perform_reservation-IsValid (Call.complete token value now ttl) s f v =
      complete-IsValid token value now ttl s v
  perform_reservation-IsValid (Call.mark_uncertain token reason now ttl) s f v =
      mark_uncertain-IsValid token reason now ttl s v
  perform_reservation-IsValid (Call.abandon token now) s f v = abandon-IsValid token now s v
  perform_reservation-IsValid (Call.purge plan) s f v = purge-IsValid plan s v

  pub perform_all-IsValid :
      (cs : List (Call T)) (s : Store T) → AllFresh cs s → IsValid s → IsValid (perform_all cs s)
  perform_all-IsValid = perform_all_keeps IsValid perform_reservation-IsValid
