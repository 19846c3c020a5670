-- ===== src/Inbox/Validity.antt =====
-- The well-formedness of the inbox store, which every call keeps.
use pytitect.Prelude.{
  ℕ, ◌≤◌, String, ◌≡◌, refl, Option, none, some, arith, length, leb, ltb, Datetime, utc, other,
  Timedelta, not_positive, ◌+ₜ◌, ◌||◌, ◌==◌, String_eq, inl, inr, Bool-cases, Option-cases, not,
  is_some,
}
use pytitect.Prelude.Dict.{
  get, pop, IsUnique, put-IsUnique, pop-IsUnique, length-put, length-pop-le,
}
use pytitect.Maintenance.{Plan}
use pytitect.Maintenance.Effect.{remaining-IsUnique, length-remaining-le}
use pytitect.Prelude.Sorting.{key_then}
use pytitect.Inbox.{
  InboxScope, Identity, identity_eq, InboxEntry, InboxStore, begin, accept, begin_found,
  begin_locked, complete, complete_locked, abandon, abandon_locked, purge, is_purgeable, settled_at,
  identity_leb,
}
use pytitect.Inbox.Calls.{Call, perform}

-- At most `capacity` entries, one for an identity.
pub record IsValid (s : InboxStore) : Type 0 where
  pub fits : length s.entries ≤ s.capacity
  pub unique : IsUnique s.entries

accept-IsValid :
    (i : Identity) (token : String) (expires_at : ℕ) (s : InboxStore)
    → IsValid s
    → IsValid (accept i token expires_at s).1
unfolding accept
accept-IsValid i token expires_at s v =
    let x : InboxEntry = record { token = token; expires_at = expires_at; completed_at = none } in
    elim (Bool-cases (leb s.capacity (length s.entries))) [
      | inl full ↦ rw full v
      | inr room ↦ rw room (record {
        fits = ground (arith, length-put s.entries i x);
        unique = put-IsUnique s.entries i x v.unique;
      })
    ]

pop-IsValid :
    (i : Identity) (s : InboxStore) → IsValid s → IsValid (record s { entries = pop i s.entries })
pop-IsValid i s v = record {
  fits = omega (arith, length-pop-le s.entries i, v.fits);
  unique = pop-IsUnique s.entries i v.unique;
}

begin_locked-IsValid :
    (o : Option InboxEntry) (i : Identity) (token : String) (now : ℕ) (ttl : Timedelta)
    (s : InboxStore)
    → IsValid s
    → IsValid (begin_locked o i token now ttl s).1
unfolding begin_locked
begin_locked-IsValid none i token now ttl s v = accept-IsValid i token (now +ₜ ttl) s v
begin_locked-IsValid (some x) i token now ttl s v = elim (Option-cases x.completed_at) [
  | inr (c, done) ↦ rw (done, begin_found) v
  | inl open_ ↦ elim (Bool-cases (ltb now x.expires_at)) [
    | inl held ↦ rw (open_, held, begin_found) v
    | inr free ↦
        rw (open_, free, begin_found)
          (accept-IsValid i token (now +ₜ ttl) (record s { entries = pop i s.entries })
            (pop-IsValid i s v))
  ]
]

begin-IsValid :
    (scope : InboxScope) (message_id token : String) (now : Datetime) (ttl : Timedelta)
    (s : InboxStore)
    → IsValid s
    → IsValid (begin scope message_id token now ttl s).1
unfolding begin
begin-IsValid scope message_id token (other t) ttl s v = v
begin-IsValid scope message_id token (utc t) ttl s v =
    elim (Bool-cases ((token == "") || not_positive ttl)) [
      | inl bad ↦ rw bad v
      | inr fine ↦ rw fine (
          begin_locked-IsValid (get (scope, message_id) s.entries) (scope, message_id) token t ttl s
            v)
    ]

complete_locked-IsValid :
    (o : Option InboxEntry) (i : Identity) (token : String) (now : ℕ) (s : InboxStore)
    → get i s.entries ≡ o
    → IsValid s
    → IsValid (complete_locked o i token now s).1
unfolding complete_locked
complete_locked-IsValid none i token now s h v = v
complete_locked-IsValid (some x) i token now s h v =
    elim (Bool-cases (not (x.token == token) || leb x.expires_at now)) [
      | inl stale ↦ rw stale v
      | inr fresh ↦ rw fresh (record {
        fits =
            ground (arith, length-put s.entries i (record x { completed_at = some now }), v.fits);
        unique = put-IsUnique s.entries i _ v.unique;
      })
    ]

abandon_locked-IsValid :
    (o : Option InboxEntry) (i : Identity) (token : String) (s : InboxStore)
    → IsValid s
    → IsValid (abandon_locked o i token s).1
unfolding abandon_locked
abandon_locked-IsValid none i token s v = v
abandon_locked-IsValid (some x) i token s v =
    elim (Bool-cases (not (x.token == token) || is_some x.completed_at)) [
      | inl stale ↦ rw stale v
      | inr fresh ↦ rw fresh (pop-IsValid i s v)
    ]

purge-IsValid : (plan : Plan) (s : InboxStore) → IsValid s → IsValid (purge plan s).1
unfolding purge
purge-IsValid plan s v =
    let leq = key_then settled_at identity_leb in
    record {
      fits = omega (
        arith,
        length-remaining-le leq (is_purgeable plan) plan.batch_size s.entries plan.dry_run,
        v.fits,
      );
      unique =
          remaining-IsUnique leq (is_purgeable plan) plan.batch_size s.entries plan.dry_run
            v.unique;
    }

-- Every call, whether it returns or raises, keeps the store well formed: at most `capacity`
-- entries, and one for each identity.
pub perform_message-IsValid : (c : Call) (s : InboxStore) → IsValid s → IsValid (perform c s)
unfolding perform complete abandon
perform_message-IsValid (Call.begin scope message_id token now ttl) s v =
    begin-IsValid scope message_id token now ttl s v
perform_message-IsValid (Call.complete scope message_id token (other t)) s v = v
perform_message-IsValid (Call.complete scope message_id token (utc t)) s v =
    complete_locked-IsValid (get (scope, message_id) s.entries) (scope, message_id) token t s refl v
perform_message-IsValid (Call.abandon scope message_id token) s v =
    abandon_locked-IsValid (get (scope, message_id) s.entries) (scope, message_id) token s v
perform_message-IsValid (Call.purge plan) s v = purge-IsValid plan s v
