-- ===== src/Outbox/Dispatch.antt =====
-- `OneRoundDispatcher` of src/pytitect/outbox.py, over any store, and on the in-memory one. The
-- handler acts on a world of its own; it may raise.
use pytitect.Prelude.{
  ℕ, ◌+◌, String, Bool, true, false, List, [], ◌∷◌, ltb, if◌then◌else◌, length, Action, Result, ◌≡◌,
  ap, ◌>>=◌, pure, lift, Datetime, utc, other, Timedelta,
}
use pytitect.Outbox.Types.{OutboxEnvelope, OutboxClaim, DeliveryResult, Floats, RetryPolicy, delay}
use pytitect.Outbox.Store
use pytitect.Outbox.Store.{OutboxStore}

-- `OutboxStore`, the protocol; the dispatcher adds nothing
pub record OutboxPort (S P : Type 0) : Type 0 where
  pub claim : Datetime → ℕ → Timedelta → Action S (List (OutboxClaim P))
  pub delivered : OutboxClaim P → Datetime → Action S Bool
  pub retry : OutboxClaim P → Datetime → Action S Bool
  pub failed : OutboxClaim P → String → Datetime → Action S Bool

-- The in-memory store as one, by the IDs that `uuid4` gives in the round.
abbrev pub in_memory : {P : Type 0} → (ℕ → String) → OutboxPort (OutboxStore P) P
in_memory uuid = record {
  claim = Store.claim uuid;
  delivered = Store.delivered;
  retry = Store.retry;
  failed = Store.failed;
}

pub record DispatchSummary : Type 0 where
  pub claimed : ℕ
  pub delivered : ℕ
  pub retried : ℕ
  pub failed : ℕ

-- The three counters of the loop.
pub record Counts : Type 0 where
  pub delivered : ℕ
  pub retried : ℕ
  pub failed : ℕ

-- `int(value)`
abbrev pub int : Bool → ℕ
int true = 1
int false = 0

-- `now + duration`
abbrev pub later : Datetime → ℕ → Datetime
later (utc t) n = utc (t + n)
later (other t) n = other (t + n)

-- A method of the store, and a call of the handler, on both states.
abbrev pub on_store : {S W A : Type 0} → Action S A → Action (S × W) A
on_store m (s, w) = let (r, s') = m s in (r, (s', w))

abbrev pub on_world : {S W A : Type 0} → Action W A → Action (S × W) A
on_world m (s, w) = let (r, w') = m w in (r, (s, w'))

pub on_store_ok :
    {S W A : Type 0} (m : Action S A) {s s' : S} {r : Result A} (w : W)
    → m s ≡ (r, s')
    → on_store m (s, w) ≡ (r, (s', w))
on_store_ok m w e = ap (λ p. (p.0, (p.1, w))) e

pub on_world_ok :
    {S W A : Type 0} (m : Action W A) (s : S) {w w' : W} {r : Result A}
    → m w ≡ (r, w')
    → on_world m (s, w) ≡ (r, (s, w'))
on_world_ok m s e = ap (λ p. (p.0, (s, p.1))) e

module _ {S P W F : Type 0} (floats : Floats F) (policy : RetryPolicy F) (store : OutboxPort S P)
    (now : Datetime) where
  -- The two branches of the loop that do not deliver.
  unfoldable pub give_up : OutboxClaim P → String → Counts → Action (S × W) Counts
  give_up claim reason counts = do
    done ← on_store (store.failed claim reason now)
    pure (record counts { failed = counts.failed + int done })

  unfoldable pub try_again : OutboxClaim P → Counts → Action (S × W) Counts
  unfolding delay
  try_again claim counts = do
    wait ← lift (delay floats policy (claim.envelope.attempt + 1))
    done ← on_store (store.retry claim (later now wait))
    pure (record counts { retried = counts.retried + int done })

  -- What the loop does with the handler's result.
  unfoldable pub conclude : OutboxClaim P → Counts → DeliveryResult → Action (S × W) Counts
  unfolding give_up try_again
  conclude claim counts DeliveryResult.delivered = do
    done ← on_store (store.delivered claim now)
    pure (record counts { delivered = counts.delivered + int done })
  conclude claim counts (DeliveryResult.retryable reason) =
      if ltb (claim.envelope.attempt + 1) policy.max_attempts
      then try_again claim counts
      else give_up claim reason counts
  conclude claim counts (DeliveryResult.permanent_failure reason) = give_up claim reason counts

  module _ (handler : OutboxEnvelope P → Action W DeliveryResult) where
    -- `for claim in claims`
    unfoldable pub dispatch_claims : List (OutboxClaim P) → Counts → Action (S × W) Counts
    unfolding conclude
    dispatch_claims [] counts = pure counts
    dispatch_claims (claim ∷ claims) counts = do
      result ← on_world (handler claim.envelope)
      counts' ← conclude claim counts result
      dispatch_claims claims counts'

    -- `dispatch(limit=...)`, where the clock answers `now`
    unfoldable pub dispatch : Timedelta → ℕ → Action (S × W) DispatchSummary
    unfolding dispatch_claims
    dispatch claim_ttl limit = do
      claims ← on_store (store.claim now limit claim_ttl)
      counts ← dispatch_claims claims (record { delivered = 0; retried = 0; failed = 0 })
      pure (record {
        claimed = length claims;
        delivered = counts.delivered;
        retried = counts.retried;
        failed = counts.failed;
      })
