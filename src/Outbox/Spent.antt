-- ===== src/Outbox/Spent.antt =====
-- A claim that has settled its message, or that another claim has replaced, is of no more use.
use mathlib.Core.Path.{subst}
use pytitect.Prelude.{
  String, Bool, true, ◌≡◌, ◌≢◌, refl, ◌∙◌, Option, none, some, List, [], ◌∷◌, ◌==◌, String_eq,
  arith, inl, inr, Bool-cases, Option-cases, All, ok, err, utc, other, Result, Datetime,
  value_error, Error, ==_refl, option_beq_iff, ◌⊎◌, option_eq,
}
use pytitect.Prelude.Dict.{get, get-put}
use pytitect.Outbox.Types.{OutboxClaim, Stored}
use pytitect.Outbox.Store.{
  OutboxStore, valid, valid_item, settle, released, set_delivered, set_retried, set_failed,
  delivered, retry, failed,
}
use pytitect.Outbox.Calls.{Call, perform, perform_all}
use pytitect.Outbox.Moves.{Move, Issues, settle_stale, settle-valid}
use pytitect.Outbox.Validity.{IsValid, perform_outbox-IsValid, perform-Move, failed_utc}

-- `delivered`, `retry` and `failed`.
pub data Settling : Type 0 where
  as_delivered as_retry : Datetime → Settling
  as_failed : String → Datetime → Settling

unfoldable pub settle_as :
    {P : Type 0} → Settling → OutboxClaim P → OutboxStore P → Result Bool × OutboxStore P
settle_as (as_delivered at) c s = delivered c at s
settle_as (as_retry at) c s = retry c at s
settle_as (as_failed reason at) c s = failed c reason at s

module _ {P : Type 0} where
  -- The item, if any, is not held under the claim ID.
  abbrev pub IsForeign : String → Option (Stored P) → Type 0
  IsForeign claim_id none = Unit
  IsForeign claim_id (some item) = item.claim_id ≢ some claim_id

  Move-IsForeign :
      (c : Call P) (i claim_id : String) (o o' : Option (Stored P))
      → (Issues c claim_id → ⊥)
      → IsForeign claim_id o
      → Move c i o o'
      → IsForeign claim_id o'
  Move-IsForeign c i claim_id o o' fresh f (Move.unchanged same) = rw same f
  Move-IsForeign c i claim_id o o' fresh f (Move.added x named absent after) = rw after (λ e. cc e)
  Move-IsForeign c i claim_id o o' fresh f (Move.claimed x id until issued there open_ after) =
      rw after (λ e. fresh (subst (Issues c) (some_of e) issued))
    where
      some_of : {a b : String} → some a ≡ some b → a ≡ b
      some_of e = cc e
  Move-IsForeign c i claim_id o o' fresh f (Move.settled x x' id there open_ owned how after) =
      rw after (λ e. cc e)
  Move-IsForeign c i claim_id o o' fresh f (Move.removed x t cut there by_then after) = rw after tt

  IsForeign-All :
      (cs : List (Call P)) (s : OutboxStore P) (i claim_id : String)
      → IsValid s
      → All (λ c. Issues c claim_id → ⊥) cs
      → IsForeign claim_id (get i s.items)
      → IsForeign claim_id (get i (perform_all cs s).items)
  unfolding perform_all
  IsForeign-All [] s i claim_id v h f = f
  IsForeign-All (c ∷ cs) s i claim_id v h f =
      IsForeign-All cs (perform c s) i claim_id (perform_outbox-IsValid c s v) h.1 (
        Move-IsForeign c i claim_id (get i s.items) (get i (perform c s).items) h.0 f
          (perform-Move c s i v.unique))

  IsForeign-valid :
      (c : OutboxClaim P) (o : Option (Stored P)) → IsForeign c.claim_id o → valid_item c o ≡ none
  IsForeign-valid c none f = refl
  IsForeign-valid c (some item) f =
      ground (arith, option_beq_iff item.claim_id (some c.claim_id), f)

  settle_as-cases :
      (k : Settling) (c : OutboxClaim P) (s : OutboxStore P)
      → ((change : Stored P → Stored P) × (settle_as k c s ≡ settle change c s))
        ⊎ ((e : Error) × (settle_as k c s ≡ (err e, s)))
  unfolding settle_as delivered retry
  settle_as-cases (as_delivered (utc t)) c s = inl (set_delivered t, refl)
  settle_as-cases (as_delivered (other t)) c s = inr (value_error, refl)
  settle_as-cases (as_retry (utc t)) c s = inl (set_retried t, refl)
  settle_as-cases (as_retry (other t)) c s = inr (value_error, refl)
  settle_as-cases (as_failed reason (utc t)) c s = elim (Bool-cases (reason == "")) [
    | inl bad ↦ inr (value_error, failed_utc c reason t s ∙ ground (arith, bad))
    | inr fine ↦ inl (set_failed reason t, failed_utc c reason t s ∙ ground (arith, fine))
  ]
  settle_as-cases (as_failed reason (other t)) c s = unfold failed in inr (value_error, refl)

  settle_as-IsValid :
      (k : Settling) (c : OutboxClaim P) (s : OutboxStore P)
      → IsValid s
      → IsValid (settle_as k c s).1
  unfolding settle_as perform
  settle_as-IsValid (as_delivered at) c s v = perform_outbox-IsValid (Call.delivered c at) s v
  settle_as-IsValid (as_retry at) c s v = perform_outbox-IsValid (Call.retry c at) s v
  settle_as-IsValid (as_failed reason at) c s v =
      perform_outbox-IsValid (Call.failed c reason at) s v

  settle_stale_result :
      (k : Settling) (c : OutboxClaim P) (s : OutboxStore P)
      → valid s c ≡ none
      → ((settle_as k c s).0 ≢ ok true) × ((settle_as k c s).1 ≡ s)
  settle_stale_result k c s h = elim (settle_as-cases k c s) [
    | inl (change, e) ↦ rw (e, settle_stale change c s h) (λ q. cc q, refl)
    | inr (x, e) ↦ rw e (λ q. cc q, refl)
  ]

  -- A settling that answers True takes the claim off its message.
  settled-IsForeign :
      (k : Settling) (c : OutboxClaim P) (s : OutboxStore P)
      → (settle_as k c s).0 ≡ ok true
      → IsForeign c.claim_id (get c.envelope.message_id (settle_as k c s).1.items)
  settled-IsForeign k c s h = elim (settle_as-cases k c s) [
    | inr (x, e) ↦ absurd (cc (rw e at h))
    | inl (change, e) ↦ elim (Option-cases (valid s c)) [
      | inl stale ↦ absurd (ground (arith, rw (e, settle_stale change c s stale) at h))
      | inr (item, q) ↦
          rw (e, settle-valid change c s item q)
            (rw
              (
                get-put s.items c.envelope.message_id c.envelope.message_id
                    (released (change item)),
                ==_refl c.envelope.message_id,
              )
              (λ z. cc z))
    ]
  ]

  -- Once a claim has settled its message in a well-formed store, and after any calls that do not give
  -- out its ID again, `delivered`, `retry` and `failed` with it do not answer True and change nothing.
  pub claim_spent :
      (k k' : Settling) (c : OutboxClaim P) (s : OutboxStore P) (cs : List (Call P))
      → let s' = perform_all cs (settle_as k c s).1 in
        IsValid s
        → (settle_as k c s).0 ≡ ok true
        → All (λ x. Issues x c.claim_id → ⊥) cs
        → ((settle_as k' c s').0 ≢ ok true) × ((settle_as k' c s').1 ≡ s')
  unfolding valid
  claim_spent k k' c s cs v h fresh =
      let s₁ = (settle_as k c s).1 in
      let s' = perform_all cs s₁ in
      let i = c.envelope.message_id in
      let foreign =
        IsForeign-All cs s₁ i c.claim_id (settle_as-IsValid k c s v) fresh
          (settled-IsForeign k c s h) in
      settle_stale_result k' c s' (IsForeign-valid c (get i s'.items) foreign)
