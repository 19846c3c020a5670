-- ===== src/Idempotency/Lifecycle.antt =====
-- A request that `IdempotencyCoordinator`, src/pytitect/idempotency.py, begins, completes and is asked
-- for again, on the in-memory store.
use pytitect.Prelude.{
  ℕ, ◌<◌, String, Bool, false, ◌≡◌, ◌∙◌, sym, Option, none, some, List, All, String_eq, ◌==◌, arith,
  utc, Timedelta, ◌+ₜ◌, not_positive, leb, length, if◌then◌else◌, ok, ==_refl,
}
use pytitect.Prelude.Dict.{get}
use pytitect.Idempotency.Types.{
  IdempotencyScope, Identity, identity_eq, IdempotencyPolicy, policy, execute, replay, conflict,
  reservation_completed, Entry, Store,
}
use pytitect.Idempotency.Reserve.{reserve, answer, reservation, purge_expired}
use pytitect.Idempotency.Settle
use pytitect.Idempotency.Calls.{Call, perform, perform_all, AllFresh}
use pytitect.Idempotency.Validity.{IsValid}
use pytitect.Idempotency.Preservation.{perform_reservation-IsValid}
use pytitect.Idempotency.View.{reserve_view, live, decision, after}
use pytitect.Idempotency.Replay.{IsBefore, replay_completed}
use pytitect.Idempotency.Coordinator.{begin, complete, in_memory}

-- What a policy that its constructor accepted holds.
policy_fields :
    (execution result uncertainty : Timedelta) (p : IdempotencyPolicy)
    → policy execution result uncertainty ≡ ok p
    → (p.execution_lease_ttl ≡ execution)
      × (p.result_retention_ttl ≡ result)
      × (not_positive execution ≡ false)
      × (not_positive result ≡ false)
unfolding policy
policy_fields execution result uncertainty p h = ground (arith, h)

module _ {T : Type 0} where
  answer_not_execute : (x : Entry T) (fp fresh : String) → answer x fp ≡ execute fresh → ⊥
  unfolding answer
  answer_not_execute x fp fresh h = ground (arith, h)

  decided :
      (o : Option (Entry T)) (fp fresh : String) (full : Bool) (end : ℕ)
      → decision o fp full fresh ≡ execute fresh
      → after o full fresh fp end ≡ some (reservation fresh fp end)
  decided none fp fresh full end h = ground (arith, h)
  decided (some x) fp fresh full end h = absurd (answer_not_execute x fp fresh h)

  reserved_entry :
      (scope : IdempotencyScope) (key fp : String) (t : ℕ) (ttl : Timedelta) (fresh : String)
      (s : Store T)
      → IsValid s
      → (key == "") ≡ false
      → not_positive ttl ≡ false
      → (reserve scope key fp (utc t) ttl fresh s).0 ≡ ok (execute fresh)
      → get (scope, key) (reserve scope key fp (utc t) ttl fresh s).1.entries
        ≡ some (reservation fresh fp (t +ₜ ttl))
  reserved_entry scope key fp t ttl fresh s v given long h =
      let i : Identity = (scope, key) in
      let view = reserve_view scope key fp t ttl fresh s v.unique given long in
      let full = leb (purge_expired t s).capacity (length (purge_expired t s).entries) in
      let alive = live t (get i s.entries) in
      let made = decided alive fp fresh full (t +ₜ ttl) (ground (arith, view.0, h)) in
      let after_it : get i (reserve scope key fp (utc t) ttl fresh s).1.entries
          ≡ after alive full fresh fp (t +ₜ ttl) =
        ground (arith, view.1 i, ==_refl i) in
      after_it ∙ made

  complete_reserved :
      (i : Identity) (fp token : String) (value : T) (end t : ℕ) (ttl : Timedelta) (s : Store T)
      → IsValid s
      → get i s.entries ≡ some (reservation token fp end)
      → t < end
      → not_positive ttl ≡ false
      → (Settle.complete token value (utc t) ttl s).0 ≡ ok (reservation_completed (t +ₜ ttl))
  unfolding Settle.complete
  complete_reserved i fp token value end t ttl s v h early long =
      ground (arith, h, long, v.linked.token_of i (reservation token fp end) h, ==_refl token)

  -- With a policy that its constructor accepted and a well-formed in-memory store: where begin of
  -- the coordinator gives out a fresh token for a key that is not empty, complete with that token,
  -- the store's next call and before the execution lease ends, answers with the end of the
  -- result's retention; and after any calls with fresh tokens whose reserve comes and whose purge
  -- looks before that end, begin of the same identity before it replays the value to the
  -- fingerprint of the first request and reports a conflict to another.
  pub coordinator_replays :
      (execution result uncertainty : Timedelta) (p : IdempotencyPolicy) (scope : IdempotencyScope)
      (key fp fresh : String) (value : T) (t t' t'' : ℕ) (s : Store T) (cs : List (Call T))
      (fp' fresh' : String)
      → let s₁ = (begin in_memory p scope key fp (utc t) fresh s).1 in
        let completed = complete in_memory p fresh value (utc t') s₁ in
        policy execution result uncertainty ≡ ok p
        → IsValid s
        → get fresh s.tokens ≡ none
        → (key == "") ≡ false
        → (begin in_memory p scope key fp (utc t) fresh s).0 ≡ ok (execute fresh)
        → t' < t +ₜ execution
        → AllFresh cs completed.1
        → All (IsBefore (t' +ₜ result)) cs
        → t'' < t' +ₜ result
        → (completed.0 ≡ ok (reservation_completed (t' +ₜ result)))
          × ((begin in_memory p scope key fp' (utc t'') fresh' (perform_all cs completed.1)).0
              ≡ ok (if fp == fp' then replay (some value) else conflict))
  unfolding begin complete
  coordinator_replays execution result uncertainty p scope key fp fresh value t t' t'' s cs fp'
        fresh' made v new given begun early f b soon =
      let (fe, fr, long, kept) = policy_fields execution result uncertainty p made in
      let i : Identity = (scope, key) in
      let lease = p.execution_lease_ttl in
      let retention = p.result_retention_ttl in
      let long' : not_positive lease ≡ false = rw fe long in
      let kept' : not_positive retention ≡ false = rw fr kept in
      let end = t +ₜ lease in
      let s₁ = (reserve scope key fp (utc t) lease fresh s).1 in
      let v₁ : IsValid s₁ =
        unfold perform in
        perform_reservation-IsValid (Call.reserve scope key fp (utc t) lease fresh) s new v in
      let entry = reserved_entry scope key fp t lease fresh s v given long' begun in
      let early' : t' < end = rw fe early in
      let done = complete_reserved i fp fresh value end t' retention s₁ v₁ entry early' kept' in
      rw (sym fr) (
        done,
        replay_completed scope key (reservation fresh fp end) value t' (t' +ₜ retention) retention
            s₁ cs fp' t'' lease fresh' v₁ entry done f (rw fr b) (rw fr soon) given long',
      )
