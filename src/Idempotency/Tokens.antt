-- ===== src/Idempotency/Tokens.antt =====
-- Who may settle a reservation: one token at a time, once, and not after its lease.
use pytitect.Prelude.{
  ℕ, String, false, ◌≡◌, ◌≢◌, refl, Option, none, some, List, [], ◌∷◌, All, String_eq, ◌==◌, arith,
  Datetime, utc, other, Timedelta, ◌+ₜ◌, inl, inr, Option-cases, Bool-cases, not_positive, ok,
}
use pytitect.Prelude.Dict.{get, keys, get-put, get-pop, get-pop_all, IsUnique}
use pytitect.Maintenance.{UncertainPlan}
use pytitect.Idempotency.Types.{
  IdempotencyScope, Identity, identity_eq, Entry, EntryState, Store, RenewReservationResult,
  CompleteReservationResult, MarkUncertainResult, AbandonReservationResult, reservation_completed,
}
use pytitect.Idempotency.Reserve.{drop_all, reserve}
use pytitect.Idempotency.Settle.{
  executing, renew, complete, mark_uncertain, abandon, set_entry, renew_found, complete_found,
  mark_found, abandon_found,
}
use pytitect.Idempotency.Purge.{purge, purgeable}
use pytitect.Idempotency.Calls.{Call, perform, perform_all, AllFresh}
use pytitect.Idempotency.Validity.{IsValid, executing_found, entries-drop_all}
use pytitect.Idempotency.Preservation.{perform_reservation-IsValid}
use pytitect.Idempotency.View.{reserve_view}

module _ {T : Type 0} where
  -- No entry that the token names is still reserved.
  abbrev pub IsSettled : String → Store T → Type 0
  IsSettled token s =
      (i : Identity) (x : Entry T)
      → get i s.entries ≡ some x
      → x.token ≡ token
      → x.state ≢ EntryState.reserved

  settled_executing :
      (token : String) (t : ℕ) (s : Store T) → IsSettled token s → executing token t s ≡ none
  settled_executing token t s settled = elim (Option-cases (executing token t s)) [
    | inl nothing ↦ nothing
    | inr ((i, x), e) ↦
        let (linked, found, named, reserved, early) = executing_found token t s i x e in
        absurd (settled i x found named reserved)
  ]

  -- With a settled token every method that takes a token reports a stale reservation and changes
  -- nothing.
  pub settled_stale :
      (token : String) (value : T) (reason : String) (t : ℕ) (ttl : Timedelta) (s : Store T)
      → IsSettled token s
      → (reason == "") ≡ false
      → not_positive ttl ≡ false
      → (renew token (utc t) ttl s ≡ (ok RenewReservationResult.stale_reservation, s))
        × (complete token value (utc t) ttl s ≡ (ok CompleteReservationResult.stale_reservation, s))
        × (mark_uncertain token reason (utc t) ttl s
            ≡ (ok MarkUncertainResult.stale_reservation, s))
        × (abandon token (utc t) s ≡ (ok AbandonReservationResult.stale_reservation, s))
  unfolding renew complete mark_uncertain abandon
  settled_stale token value reason t ttl s settled given long =
      let nothing = settled_executing token t s settled in
      (ground arith, ground arith, ground arith, ground arith)

  -- `uuid4` does not give this token again.
  abbrev pub Avoids : String → Call T → Type 0
  Avoids token (Call.reserve scope key fp now ttl fresh) = fresh ≢ token
  Avoids token _ = Unit

  set-IsSettled :
      (token : String) (i : Identity) (old new : Entry T) (s : Store T)
      → get i s.entries ≡ some old
      → old.state ≡ EntryState.reserved
      → new.token ≡ old.token
      → IsSettled token s
      → IsSettled token (set_entry i new s)
  set-IsSettled token i old new s found reserved same settled j y h named =
      elim (Bool-cases (i == j)) [
        | inl here ↦
            let at_i : y ≡ new = ground (arith, get-put s.entries i j new) in
            absurd (settled i old found (cc (at_i, same, named)) reserved)
        | inr there ↦ settled j y (ground (arith, get-put s.entries i j new)) named
      ]

  reserve-IsSettled :
      (token : String) (scope : IdempotencyScope) (key fp : String) (now : Datetime)
      (ttl : Timedelta) (fresh : String) (s : Store T)
      → IsUnique s.entries
      → fresh ≢ token
      → IsSettled token s
      → IsSettled token (reserve scope key fp now ttl fresh s).1
  unfolding reserve
  reserve-IsSettled token scope key fp (other t) ttl fresh s u avoids settled j y h named =
      settled j y h named
  reserve-IsSettled token scope key fp (utc t) ttl fresh s u avoids settled j y h named =
      elim (Bool-cases (key == "")) [
        | inl empty ↦ settled j y (rw empty at h) named
        | inr given ↦ elim (Bool-cases (not_positive ttl)) [
          | inl short ↦ settled j y (rw (given, short) at h) named
          | inr long ↦ ground (
            arith,
            (reserve_view scope key fp t ttl fresh s u given long).1 j,
            identity_eq.beq_iff (scope, key) j,
            settled j y,
          )
        ]
      ]

  module _ (token : String) (s : Store T) (settled : IsSettled token s) where
    renew-IsSettled :
        (o : Option (Identity × Entry T)) (other_token : String) (t expires_at : ℕ)
        → executing other_token t s ≡ o
        → IsSettled token (renew_found o expires_at s).1
    unfolding renew_found
    renew-IsSettled none other_token t expires_at e = settled
    renew-IsSettled (some (i, x)) other_token t expires_at e =
        let (linked, found, named, reserved, early) = executing_found other_token t s i x e in
        set-IsSettled token i x _ s found reserved refl settled

    complete-IsSettled :
        (o : Option (Identity × Entry T)) (other_token : String) (value : T) (t expires_at : ℕ)
        → executing other_token t s ≡ o
        → IsSettled token (complete_found o value expires_at s).1
    unfolding complete_found
    complete-IsSettled none other_token value t expires_at e = settled
    complete-IsSettled (some (i, x)) other_token value t expires_at e =
        let (linked, found, named, reserved, early) = executing_found other_token t s i x e in
        set-IsSettled token i x _ s found reserved refl settled

    mark-IsSettled :
        (o : Option (Identity × Entry T)) (other_token reason : String) (t expires_at : ℕ)
        → executing other_token t s ≡ o
        → IsSettled token (mark_found o reason expires_at s).1
    unfolding mark_found
    mark-IsSettled none other_token reason t expires_at e = settled
    mark-IsSettled (some (i, x)) other_token reason t expires_at e =
        let (linked, found, named, reserved, early) = executing_found other_token t s i x e in
        set-IsSettled token i x _ s found reserved refl settled

    abandon-IsSettled :
        (o : Option (Identity × Entry T)) (other_token : String)
        → IsSettled token (abandon_found o other_token s).1
    unfolding abandon_found
    abandon-IsSettled none other_token j y h named = settled j y h named
    abandon-IsSettled (some (i, x)) other_token j y h named =
        settled j y (ground (arith, get-pop s.entries i j)) named

    drop_all-IsSettled : (is : List Identity) → IsSettled token (drop_all is s)
    drop_all-IsSettled is j y h named =
        settled j y (ground (arith, (entries-drop_all is s).0, get-pop_all is s.entries j)) named

    purge-IsSettled : (plan : UncertainPlan) → IsSettled token (purge plan s).1
    unfolding purge
    purge-IsSettled plan j y h named = elim (Bool-cases plan.dry_run) [
      | inl dry ↦ settled j y (rw dry at h) named
      | inr wet ↦ drop_all-IsSettled (keys (purgeable plan s)) j y (rw wet at h) named
    ]

  perform-IsSettled :
      (token : String) (c : Call T) (s : Store T)
      → IsUnique s.entries
      → Avoids token c
      → IsSettled token s
      → IsSettled token (perform c s)
  unfolding perform renew complete mark_uncertain abandon
  perform-IsSettled token (Call.reserve scope key fp now ttl fresh) s u a settled =
      reserve-IsSettled token scope key fp now ttl fresh s u a settled
  perform-IsSettled token (Call.renew other_token (other t) ttl) s u a settled = settled
  perform-IsSettled token (Call.renew other_token (utc t) ttl) s u a settled =
      elim (Bool-cases (not_positive ttl)) [
        | inl short ↦ rw (short, perform) settled
        | inr long ↦
            rw (long, perform)
              (renew-IsSettled token s settled (executing other_token t s) other_token t (t +ₜ ttl)
                refl)
      ]
  perform-IsSettled token (Call.complete other_token value (other t) ttl) s u a settled = settled
  perform-IsSettled token (Call.complete other_token value (utc t) ttl) s u a settled =
      let next =
        complete-IsSettled token s settled (executing other_token t s) other_token value t
          (t +ₜ ttl) refl in
      elim (Bool-cases (not_positive ttl)) [
        | inl short ↦ rw (short, perform) settled
        | inr long ↦ rw (long, perform) next
      ]
  perform-IsSettled token (Call.mark_uncertain other_token reason (other t) ttl) s u a settled =
      settled
  perform-IsSettled token (Call.mark_uncertain other_token reason (utc t) ttl) s u a settled =
      let next =
        mark-IsSettled token s settled (executing other_token t s) other_token reason t (t +ₜ ttl)
          refl in
      elim (Bool-cases (reason == "")) [
        | inl empty ↦ rw (empty, perform) settled
        | inr given ↦ elim (Bool-cases (not_positive ttl)) [
          | inl short ↦ rw (given, short, perform) settled
          | inr long ↦ rw (given, long, perform) next
        ]
      ]
  perform-IsSettled token (Call.abandon other_token (other t)) s u a settled = settled
  perform-IsSettled token (Call.abandon other_token (utc t)) s u a settled =
      abandon-IsSettled token s settled (executing other_token t s) other_token
  perform-IsSettled token (Call.purge plan) s u a settled = purge-IsSettled token s settled plan

  pub perform_all-IsSettled :
      (token : String) (cs : List (Call T)) (s : Store T)
      → IsValid s
      → AllFresh cs s
      → All (Avoids token) cs
      → IsSettled token s
      → IsSettled token (perform_all cs s)
  unfolding perform_all
  perform_all-IsSettled token [] s v f a settled = settled
  perform_all-IsSettled token (c ∷ cs) s v f a settled =
      perform_all-IsSettled token cs (perform c s) (perform_reservation-IsValid c s f.0 v) f.1 a.1
        (perform-IsSettled token c s v.unique a.0 settled)

  completed-IsSettled :
      (token : String) (value : T) (t end : ℕ) (ttl : Timedelta) (s : Store T)
      → IsValid s
      → (complete token value (utc t) ttl s).0 ≡ ok (reservation_completed end)
      → IsSettled token (complete token value (utc t) ttl s).1
  unfolding complete
  completed-IsSettled token value t end ttl s v h j y found named =
      elim (Option-cases (executing token t s)) [
        | inl nothing ↦ ground arith
        | inr ((i, x), e) ↦
            let (linked, at_i, of_x, reserved, early) = executing_found token t s i x e in
            ground (
              arith,
              get-put s.entries i j (record x {
                state = EntryState.completed;
                value = some value;
                expires_at = t +ₜ ttl;
              }),
              v.linked.token_of j y,
              identity_eq.beq_iff i j,
            )
      ]

  -- A reservation of a well-formed store is settled once: after its token has completed it, and
  -- whatever calls follow, for which `uuid4` gives fresh tokens other than this one, every further
  -- renewal, completion, mark (with a reason) or abandonment with that token at a UTC instant, for a
  -- positive duration, is stale and changes nothing.
  pub settled_once :
      (token : String) (value value' : T) (reason : String) (t t' end : ℕ) (ttl ttl' : Timedelta)
      (s : Store T) (cs : List (Call T))
      → let s₁ = (complete token value (utc t) ttl s).1 in
        let s₂ = perform_all cs s₁ in
        IsValid s
        → (complete token value (utc t) ttl s).0 ≡ ok (reservation_completed end)
        → AllFresh cs s₁
        → All (Avoids token) cs
        → (reason == "") ≡ false
        → not_positive ttl' ≡ false
        → (renew token (utc t') ttl' s₂ ≡ (ok RenewReservationResult.stale_reservation, s₂))
          × (complete token value' (utc t') ttl' s₂
              ≡ (ok CompleteReservationResult.stale_reservation, s₂))
          × (mark_uncertain token reason (utc t') ttl' s₂
              ≡ (ok MarkUncertainResult.stale_reservation, s₂))
          × (abandon token (utc t') s₂ ≡ (ok AbandonReservationResult.stale_reservation, s₂))
  settled_once token value value' reason t t' end ttl ttl' s cs v h f a given long =
      let s₁ = (complete token value (utc t) ttl s).1 in
      let v₁ : IsValid s₁ =
        unfold perform in
        perform_reservation-IsValid (Call.complete token value (utc t) ttl) s tt v in
      settled_stale token value' reason t' ttl' (perform_all cs s₁)
        (perform_all-IsSettled token cs s₁ v₁ f a (completed-IsSettled token value t end ttl s v h))
        given long
