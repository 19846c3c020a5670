-- ===== src/Outbox/Types.antt =====
-- Envelopes, claims, results and the retry policy of src/pytitect/outbox.py. The multiplier is a
-- float, so it and what the policy computes with it are parameters.
use pytitect.Prelude.{
  ℕ, ◌-◌, String, Bool, ◌||◌, not, Option, leb, if◌then◌else◌, ◌==◌, ℕ_eq, String_eq, Result, ok,
  err, value_error, Datetime, utc, other, Timedelta, pos, negsuc,
}

-- An `OpaqueId` compares by its string. An attempt is a natural number, so that it is not negative.
pub record OutboxEnvelope (P : Type 0) : Type 0 where
  pub message_id : String
  pub topic : String
  pub payload : P
  pub occurred_at : ℕ
  pub available_at : ℕ
  pub attempt : ℕ

-- `OutboxEnvelope(message_id, topic, payload, occurred_at, available_at, attempt)`
unfoldable pub outbox_envelope :
    {P : Type 0} → String → String → P → Datetime → Datetime → ℕ → Result (OutboxEnvelope P)
outbox_envelope message_id topic payload (other t) available_at attempt = err value_error
outbox_envelope message_id topic payload (utc t) (other u) attempt = err value_error
outbox_envelope message_id topic payload (utc t) (utc u) attempt =
    if topic == ""
    then err value_error
    else ok (record {
      message_id = message_id;
      topic = topic;
      payload = payload;
      occurred_at = t;
      available_at = u;
      attempt = attempt;
    })

pub record OutboxClaim (P : Type 0) : Type 0 where
  pub claim_id : String
  pub envelope : OutboxEnvelope P
  pub claimed_until : ℕ

pub record FailedOutboxEnvelope (P : Type 0) : Type 0 where
  pub envelope : OutboxEnvelope P
  pub reason : String
  pub failed_at : ℕ

-- `FailedOutboxEnvelope(envelope, reason, failed_at)`, of an instant that a store keeps
unfoldable pub failed_envelope :
    {P : Type 0} → OutboxEnvelope P → String → ℕ → Result (FailedOutboxEnvelope P)
failed_envelope envelope reason failed_at =
    if reason == ""
    then err value_error
    else ok (record { envelope = envelope; reason = reason; failed_at = failed_at })

pub data DeliveryResult : Type 0 where
  delivered : DeliveryResult
  retryable permanent_failure : String → DeliveryResult

-- `Retryable(reason)`
unfoldable pub retryable_of : String → Result DeliveryResult
retryable_of reason = if reason == "" then err value_error else ok (retryable reason)

-- `PermanentFailure(reason)`
unfoldable pub permanent_failure_of : String → Result DeliveryResult
permanent_failure_of reason =
    if reason == "" then err value_error else ok (permanent_failure reason)

pub data OutboxAddResult : Type 0 where
  outbox_added outbox_duplicate : OutboxAddResult

-- `_Stored`
pub record Stored (P : Type 0) : Type 0 where
  pub envelope : OutboxEnvelope P
  pub claim_id : Option String
  pub claimed_until : Option ℕ
  pub delivered_at : Option ℕ
  pub failure_reason : Option String
  pub failed_at : Option ℕ

-- The multiplier's type, with the tests and the arithmetic that the policy applies to it: whether
-- it is finite, below one, one; whether an exponent reaches
-- `log(maximum / initial) / log(multiplier)`; and `duration * multiplier ** exponent`.
pub record Floats (F : Type 0) : Type 0 where
  pub isfinite : F → Bool
  pub below_one : F → Bool
  pub is_one : F → Bool
  pub reaches : ℕ → ℕ → ℕ → F → Bool
  pub scaled : ℕ → F → ℕ → ℕ

pub record RetryPolicy (F : Type 0) : Type 0 where
  pub initial_delay : ℕ
  pub multiplier : F
  pub maximum_delay : ℕ
  pub max_attempts : ℕ

module _ {F : Type 0} (floats : Floats F) where
  -- `RetryPolicy(initial_delay, multiplier, maximum_delay, max_attempts)`
  unfoldable pub retry_policy : Timedelta → F → Timedelta → ℕ → Result (RetryPolicy F)
  retry_policy (negsuc m) multiplier maximum_delay max_attempts = err value_error
  retry_policy (pos m) multiplier (negsuc n) max_attempts = err value_error
  retry_policy (pos m) multiplier (pos n) max_attempts =
      if (m == 0) || (n == 0)
      then err value_error
      else if not (floats.isfinite multiplier) || floats.below_one multiplier || (max_attempts == 0)
      then err value_error
      else ok (record {
        initial_delay = m;
        multiplier = multiplier;
        maximum_delay = n;
        max_attempts = max_attempts;
      })

  -- `delay(attempt)`
  unfoldable pub delay : RetryPolicy F → ℕ → Result ℕ
  delay policy attempt =
      let grown = floats.scaled policy.initial_delay policy.multiplier (attempt - 1) in
      if attempt == 0
      then err value_error
      else if leb policy.maximum_delay policy.initial_delay
      then ok policy.maximum_delay
      else if floats.is_one policy.multiplier
      then ok policy.initial_delay
      else if floats.reaches (attempt - 1) policy.maximum_delay policy.initial_delay
          policy.multiplier
      then ok policy.maximum_delay
      else ok (if leb grown policy.maximum_delay then grown else policy.maximum_delay)
