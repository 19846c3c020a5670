-- ===== src/Idempotency/Replay.antt =====
-- A completed result is replayed for as long as it is retained.
use pytitect.Prelude.{
  ℕ, ◌<◌, String, false, ◌≡◌, refl, Option, none, some, List, [], ◌∷◌, All, String_eq, ◌==◌, arith,
  Datetime, utc, other, Timedelta, ◌+ₜ◌, inl, inr, Bool-cases, not_positive, if◌then◌else◌, ok,
}
use pytitect.Prelude.Dict.{get, put, keys, get-put, get-pop, get-pop_all, IsUnique, Selected-elem}
use pytitect.Prelude.Sorting.{key_then}
use pytitect.Maintenance.{UncertainPlan}
use pytitect.Maintenance.Selection.{select-All}
use pytitect.Idempotency.Types.{
  IdempotencyScope, Identity, identity_eq, Entry, EntryState, Store, replay, conflict,
  reservation_completed,
}
use pytitect.Idempotency.Reserve.{reserve, answer}
use pytitect.Idempotency.Settle.{
  executing, renew, complete, mark_uncertain, abandon, renew_found, complete_found, mark_found,
  abandon_found,
}
use pytitect.Idempotency.Purge.{purge, purgeable, is_purgeable, expiry, identity_leb}
use pytitect.Idempotency.Calls.{Call, perform, perform_all, AllFresh}
use pytitect.Idempotency.Validity.{IsValid, executing_found, entries-drop_all}
use pytitect.Idempotency.Preservation.{perform_reservation-IsValid, perform_all-IsValid}
use pytitect.Idempotency.View.{reserve_view}

module _ {T : Type 0} where
  -- The call happens before an instant; a purge looks at what expired before it.
  abbrev pub IsBefore : ℕ → Call T → Type 0
  IsBefore end (Call.reserve scope key fp (utc t) ttl fresh) = t < end
  IsBefore end (Call.purge plan) = plan.cutoff < end
  IsBefore end _ = Unit

  -- A settled entry: no longer reserved, so no token acts on it.
  keep_found :
      (i : Identity) (x : Entry T) (j : Identity) (old new : Entry T) (s : Store T)
      → get i s.entries ≡ some x
      → x.state ≡ EntryState.completed
      → get j s.entries ≡ some old
      → old.state ≡ EntryState.reserved
      → get i (put j new s.entries) ≡ some x
  keep_found i x j old new s h done found reserved =
      ground (arith, get-put s.entries j i new, identity_eq.beq_iff j i)

  keep_reserve :
      (i : Identity) (x : Entry T) (scope : IdempotencyScope) (key fp : String) (now : Datetime)
      (ttl : Timedelta) (fresh : String) (s : Store T)
      → IsUnique s.entries
      → IsBefore x.expires_at (Call.reserve scope key fp now ttl fresh)
      → get i s.entries ≡ some x
      → get i (reserve scope key fp now ttl fresh s).1.entries ≡ some x
  unfolding reserve
  keep_reserve i x scope key fp (other t) ttl fresh s u early h = h
  keep_reserve i x scope key fp (utc t) ttl fresh s u early h = elim (Bool-cases (key == "")) [
    | inl empty ↦ rw empty h
    | inr given ↦ elim (Bool-cases (not_positive ttl)) [
      | inl short ↦ rw (given, short) h
      | inr long ↦ ground (
        arith,
        reserve_view scope key fp t ttl fresh s u given long,
        (reserve_view scope key fp t ttl fresh s u given long).1 i,
        identity_eq.beq_iff (scope, key) i,
      )
    ]
  ]

  module _ (i : Identity) (x : Entry T) (s : Store T) (h : get i s.entries ≡ some x)
      (done : x.state ≡ EntryState.completed) where
    keep_renew :
        (o : Option (Identity × Entry T)) (token : String) (t expires_at : ℕ)
        → executing token t s ≡ o
        → get i (renew_found o expires_at s).1.entries ≡ some x
    unfolding renew_found
    keep_renew none token t expires_at e = h
    keep_renew (some (j, old)) token t expires_at e =
        let (linked, found, named, reserved, early) = executing_found token t s j old e in
        keep_found i x j old _ s h done found reserved

    keep_complete :
        (o : Option (Identity × Entry T)) (token : String) (value : T) (t expires_at : ℕ)
        → executing token t s ≡ o
        → get i (complete_found o value expires_at s).1.entries ≡ some x
    unfolding complete_found
    keep_complete none token value t expires_at e = h
    keep_complete (some (j, old)) token value t expires_at e =
        let (linked, found, named, reserved, early) = executing_found token t s j old e in
        keep_found i x j old _ s h done found reserved

    keep_mark :
        (o : Option (Identity × Entry T)) (token reason : String) (t expires_at : ℕ)
        → executing token t s ≡ o
        → get i (mark_found o reason expires_at s).1.entries ≡ some x
    unfolding mark_found
    keep_mark none token reason t expires_at e = h
    keep_mark (some (j, old)) token reason t expires_at e =
        let (linked, found, named, reserved, early) = executing_found token t s j old e in
        keep_found i x j old _ s h done found reserved

    keep_abandon :
        (o : Option (Identity × Entry T)) (token : String) (t : ℕ)
        → executing token t s ≡ o
        → get i (abandon_found o token s).1.entries ≡ some x
    unfolding abandon_found
    keep_abandon none token t e = h
    keep_abandon (some (j, old)) token t e =
        let (linked, found, named, reserved, early) = executing_found token t s j old e in
        ground (arith, get-pop s.entries j i, identity_eq.beq_iff j i)

    keep_purge :
        (plan : UncertainPlan)
        → IsUnique s.entries
        → plan.cutoff < x.expires_at
        → get i (purge plan s).1.entries ≡ some x
    unfolding purge
    keep_purge plan u early = ground (
      arith,
      (entries-drop_all (keys (purgeable plan s)) s).0,
      get-pop_all (keys (purgeable plan s)) s.entries i,
      Selected-elem (is_purgeable plan) s.entries (purgeable plan s) i (
          select-All (key_then expiry identity_leb) (is_purgeable plan) plan.batch_size s.entries
            u),
    )

  -- A completed entry stays as it is through any call that happens before it expires.
  keep_completed :
      (i : Identity) (x : Entry T) (c : Call T) (s : Store T)
      → IsValid s
      → IsBefore x.expires_at c
      → x.state ≡ EntryState.completed
      → get i s.entries ≡ some x
      → get i (perform c s).entries ≡ some x
  unfolding perform renew complete mark_uncertain abandon
  keep_completed i x (Call.reserve scope key fp now ttl fresh) s v b done h =
      keep_reserve i x scope key fp now ttl fresh s v.unique b h
  keep_completed i x (Call.renew token (other t) ttl) s v b done h = h
  keep_completed i x (Call.renew token (utc t) ttl) s v b done h =
      ground (arith, keep_renew i x s h done (executing token t s) token t (t +ₜ ttl) refl)
  keep_completed i x (Call.complete token value (other t) ttl) s v b done h = h
  keep_completed i x (Call.complete token value (utc t) ttl) s v b done h =
      ground (arith, keep_complete i x s h done (executing token t s) token value t (t +ₜ ttl) refl)
  keep_completed i x (Call.mark_uncertain token reason (other t) ttl) s v b done h = h
  keep_completed i x (Call.mark_uncertain token reason (utc t) ttl) s v b done h =
      ground (arith, keep_mark i x s h done (executing token t s) token reason t (t +ₜ ttl) refl)
  keep_completed i x (Call.abandon token (other t)) s v b done h = h
  keep_completed i x (Call.abandon token (utc t)) s v b done h =
      keep_abandon i x s h done (executing token t s) token t refl
  keep_completed i x (Call.purge plan) s v b done h = keep_purge i x s h done plan v.unique b

  pub keep_completed-All :
      (i : Identity) (x : Entry T) (cs : List (Call T)) (s : Store T)
      → IsValid s
      → AllFresh cs s
      → All (IsBefore x.expires_at) cs
      → x.state ≡ EntryState.completed
      → get i s.entries ≡ some x
      → get i (perform_all cs s).entries ≡ some x
  unfolding perform_all
  keep_completed-All i x [] s v f b done h = h
  keep_completed-All i x (c ∷ cs) s v f b done h =
      keep_completed-All i x cs (perform c s) (perform_reservation-IsValid c s f.0 v) f.1 b.1 done
        (keep_completed i x c s v b.0 done h)

  -- The entry that `complete` leaves behind.
  completed_entry :
      (i : Identity) (x : Entry T) (token : String) (value : T) (t end : ℕ) (ttl : Timedelta)
      (s : Store T)
      → get token s.tokens ≡ some i
      → get i s.entries ≡ some x
      → (complete token value (utc t) ttl s).0 ≡ ok (reservation_completed end)
      → get i (complete token value (utc t) ttl s).1.entries
        ≡ some (record x { state = EntryState.completed; value = some value; expires_at = end })
  unfolding complete
  completed_entry i x token value t end ttl s owned found h = ground (
    arith,
    get-put s.entries i i
        (record x { state = EntryState.completed; value = some value; expires_at = end }),
    identity_eq.beq_iff i i,
  )

  reserve_completed :
      (scope : IdempotencyScope) (key fp : String) (x : Entry T) (t : ℕ) (ttl : Timedelta)
      (fresh : String) (s : Store T)
      → IsUnique s.entries
      → (key == "") ≡ false
      → not_positive ttl ≡ false
      → get (scope, key) s.entries ≡ some x
      → t < x.expires_at
      → (reserve scope key fp (utc t) ttl fresh s).0 ≡ ok (answer x fp)
  reserve_completed scope key fp x t ttl fresh s u given long h early =
      ground (arith, (reserve_view scope key fp t ttl fresh s u given long).0)

  -- Once a reservation of a well-formed store has been completed with a value, and whatever calls
  -- follow, with fresh tokens, whose `reserve` comes and whose purge looks before the end of its
  -- retention, a `reserve` of the same identity before that end, with a key and a positive duration,
  -- replays the value if it has the fingerprint of the first request, and reports a conflict if not.
  pub replay_completed :
      (scope : IdempotencyScope) (key : String) (x : Entry T) (value : T) (t end : ℕ)
      (ttl : Timedelta) (s : Store T) (cs : List (Call T)) (fp : String) (t' : ℕ) (ttl' : Timedelta)
      (fresh : String)
      → let s₁ = (complete x.token value (utc t) ttl s).1 in
        IsValid s
        → get (scope, key) s.entries ≡ some x
        → (complete x.token value (utc t) ttl s).0 ≡ ok (reservation_completed end)
        → AllFresh cs s₁
        → All (IsBefore end) cs
        → t' < end
        → (key == "") ≡ false
        → not_positive ttl' ≡ false
        → (reserve scope key fp (utc t') ttl' fresh (perform_all cs s₁)).0
          ≡ ok (if x.fingerprint == fp then replay (some value) else conflict)
  unfolding answer
  replay_completed scope key x value t end ttl s cs fp t' ttl' fresh v found h f b early given
        long =
      let i : Identity = (scope, key) in
      let s₁ = (complete x.token value (utc t) ttl s).1 in
      let y : Entry T = record x {
        state = EntryState.completed;
        value = some value;
        expires_at = end;
      } in
      let v₁ : IsValid s₁ =
        unfold perform in
        perform_reservation-IsValid (Call.complete x.token value (utc t) ttl) s tt v in
      let entry : get i s₁.entries ≡ some y =
        completed_entry i x x.token value t end ttl s (v.linked.token_of i x found) found h in
      let kept : get i (perform_all cs s₁).entries ≡ some y =
        keep_completed-All i y cs s₁ v₁ f b refl entry in
      ground (
        arith,
        reserve_completed scope key fp y t' ttl' fresh (perform_all cs s₁)
            (perform_all-IsValid cs s₁ f v₁).unique given long kept early,
      )
