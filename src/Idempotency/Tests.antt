-- ===== src/Idempotency/Tests.antt =====
-- Tests of the idempotency modules: an order that is reserved and completed, and theorems applied.
use pytitect.Prelude.{
  ℕ_eq, ℕ, ◌≡◌, refl, sym, ap, ◌∙◌, false, some, none, List, [], ◌∷◌, arith, ok, String_eq, utc,
  pos, ◌==◌, if◌then◌else◌,
}
use pytitect.Prelude.Dict.{get, put}
use pytitect.Idempotency.Types.{
  IdempotencyScope, scope_eq, Identity, identity_eq, IdempotencyPolicy, policy, replay, execute,
  RenewReservationResult, CompleteReservationResult, reservation_completed, MarkUncertainResult,
  AbandonReservationResult, Entry, EntryState, Store,
}
use pytitect.Idempotency.Reserve.{reserve, purge_expired}
use pytitect.Idempotency.Settle.{renew, complete, mark_uncertain, abandon}
use pytitect.Idempotency.Calls.{Call, perform, perform_all}
use pytitect.Idempotency.Linked.{IsLinked}
use pytitect.Idempotency.Validity.{IsValid}
use pytitect.Idempotency.Preservation.{perform_reservation-IsValid}
use pytitect.Idempotency.View.{reserve_view, live, after, decision}
use pytitect.Idempotency.Replay.{replay_completed}
use pytitect.Idempotency.Tokens.{settled_once}
use pytitect.Idempotency.Coordinator
use pytitect.Idempotency.Coordinator.{begin, in_memory}
use pytitect.Idempotency.Lifecycle.{coordinator_replays}

abbrev orders : IdempotencyScope
orders = record { namespace = "shop"; subject = "ann"; operation = "order" }

abbrev here : Identity
here = (orders, "k1")

-- What `reserve` at time 10 for 60 leaves.
abbrev reserved : Entry ℕ
reserved = record {
  token = "t1";
  fingerprint = "f";
  expires_at = 70;
  state = EntryState.reserved;
  value = none;
  reason = none;
}

abbrev held : Store ℕ
held = record { capacity = 2; entries = (here, reserved) ∷ []; tokens = ("t1", here) ∷ [] }

held_only : (i : Identity) (x : Entry ℕ) → get i held.entries ≡ some x → (here ≡ i) × (reserved ≡ x)
unfolding get
held_only i x h =
    (ground (arith, identity_eq.beq_iff here i), ground (arith, identity_eq.beq_iff here i))

held-IsLinked : IsLinked held
unfolding get
held-IsLinked = record {
  token_of = λ i x h.
      let (a, b) = held_only i x h in
      ap (λ (y : Entry ℕ). get y.token held.tokens) (sym b) ∙ ap some a;
  owner_of = λ token i h. ground (arith, String_eq.beq_iff "t1" token, identity_eq.beq_iff here i);
}

held-IsValid : IsValid held
unfolding get
held-IsValid = record {
  fits = omega arith;
  unique = (refl, tt);
  linked = held-IsLinked;
  valued = λ i x h done. ground (arith, identity_eq.beq_iff here i);
}

perform_reservation-IsValid_example :
    IsValid (perform (Call.complete "t1" 5 (utc 20) (pos 600)) held)
perform_reservation-IsValid_example =
    perform_reservation-IsValid (Call.complete "t1" 5 (utc 20) (pos 600)) held tt held-IsValid

held_here : get here held.entries ≡ some reserved
unfolding get
held_here = refl

completes : (complete "t1" 5 (utc 20) (pos 600) held).0 ≡ ok (reservation_completed 620)
unfolding complete get put
completes = refl

abbrev calls : List (Call ℕ)
calls = Call.renew "t1" (utc 30) (pos 60) ∷ Call.abandon "t1" (utc 40) ∷ []

reserve_view_example :
    let r = reserve orders "k1" "f" (utc 20) (pos 60) "t2" held in
    let full = false in
    (r.0 ≡ ok (decision (live 20 (some reserved)) "f" full "t2"))
    × ((j : Identity)
        → get j r.1.entries ≡ (
            if here == j
            then after (live 20 (some reserved)) full "t2" "f" 80
            else live 20 (get j held.entries)))
unfolding get purge_expired
reserve_view_example = reserve_view orders "k1" "f" 20 (pos 60) "t2" held (refl, tt) refl refl

replay_completed_example :
    (reserve orders "k1" "f"
      (utc 600)
      (pos 60)
      "t2"
      (perform_all calls (complete "t1" 5 (utc 20) (pos 600) held).1)).0
    ≡ ok (replay (some 5))
replay_completed_example =
    replay_completed orders "k1" reserved 5 20 620 (pos 600) held calls "f" 600 (pos 60) "t2"
      held-IsValid held_here completes (tt, (tt, tt)) (tt, (tt, tt)) (omega arith) refl refl

settled_once_example :
    let s₂ = perform_all calls (complete "t1" 5 (utc 20) (pos 600) held).1 in
    (renew "t1" (utc 50) (pos 60) s₂ ≡ (ok RenewReservationResult.stale_reservation, s₂))
    × (complete "t1" 6 (utc 50) (pos 60) s₂ ≡ (ok CompleteReservationResult.stale_reservation, s₂))
    × (mark_uncertain "t1" "lost" (utc 50) (pos 60) s₂
        ≡ (ok MarkUncertainResult.stale_reservation, s₂))
    × (abandon "t1" (utc 50) s₂ ≡ (ok AbandonReservationResult.stale_reservation, s₂))
settled_once_example =
    settled_once "t1" 5 6 "lost" 20 50 620 (pos 600) (pos 60) held calls held-IsValid completes
      (tt, (tt, tt)) (tt, (tt, tt)) refl refl

abbrev minutes : IdempotencyPolicy
minutes = record {
  execution_lease_ttl = pos 60;
  result_retention_ttl = pos 600;
  uncertainty_retention_ttl = pos 600;
}

minutes-policy : policy (pos 60) (pos 600) (pos 600) ≡ ok minutes
unfolding policy
minutes-policy = refl

abbrev nothing : Store ℕ
nothing = record { capacity = 2; entries = []; tokens = [] }

nothing-IsValid : IsValid nothing
unfolding get
nothing-IsValid = record {
  fits = omega arith;
  unique = tt;
  linked = record { token_of = λ i x h. absurd (cc h); owner_of = λ token i h. absurd (cc h) };
  valued = λ i x h done. absurd (cc h);
}

begins : (begin in_memory minutes orders "k1" "f" (utc 10) "t1" nothing).0 ≡ ok (execute "t1")
unfolding begin reserve purge_expired get put
begins = refl

unused : get "t1" nothing.tokens ≡ none
unfolding get
unused = refl

coordinator_replays_example :
    let s₁ = (begin in_memory minutes orders "k1" "f" (utc 10) "t1" nothing).1 in
    let completed = Coordinator.complete in_memory minutes "t1" 5 (utc 20) s₁ in
    (completed.0 ≡ ok (reservation_completed 620))
    × ((begin in_memory minutes orders "k1" "f" (utc 600) "t2" (perform_all calls completed.1)).0
        ≡ ok (replay (some 5)))
coordinator_replays_example =
    coordinator_replays (pos 60) (pos 600) (pos 600) minutes orders "k1" "f" "t1" 5 10 20 600
      nothing calls "f" "t2" minutes-policy nothing-IsValid unused refl begins (omega arith)
      (tt, (tt, tt)) (tt, (tt, tt)) (omega arith)
