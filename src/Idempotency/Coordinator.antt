-- ===== src/Idempotency/Coordinator.antt =====
-- `IdempotencyCoordinator` of src/pytitect/idempotency.py, over any store behind the protocol
-- `IdempotencyStore`. What `clock.now()` answers at a call is the argument `now`.
use pytitect.Prelude.{String, Datetime, Timedelta, Action}
use pytitect.Idempotency.Types.{
  IdempotencyScope, IdempotencyPolicy, IdempotencyDecision, RenewReservationResult,
  CompleteReservationResult, MarkUncertainResult, AbandonReservationResult, Store,
}
use pytitect.Idempotency.Reserve
use pytitect.Idempotency.Settle

pub record IdempotencyStore (S T : Type 0) : Type 0 where
  pub reserve :
      IdempotencyScope
      → String
      → String
      → Datetime
      → Timedelta
      → String
      → Action S (IdempotencyDecision T)
  pub renew : String → Datetime → Timedelta → Action S RenewReservationResult
  pub complete : String → T → Datetime → Timedelta → Action S CompleteReservationResult
  pub mark_uncertain : String → String → Datetime → Timedelta → Action S MarkUncertainResult
  pub abandon : String → Datetime → Action S AbandonReservationResult

module _ {S T : Type 0} (store : IdempotencyStore S T) (p : IdempotencyPolicy) where
  unfoldable pub begin :
      IdempotencyScope → String → String → Datetime → String → Action S (IdempotencyDecision T)
  begin scope key fingerprint now fresh =
      store.reserve scope key fingerprint now p.execution_lease_ttl fresh

  unfoldable pub renew : String → Datetime → Action S RenewReservationResult
  renew token now = store.renew token now p.execution_lease_ttl

  unfoldable pub complete : String → T → Datetime → Action S CompleteReservationResult
  complete token value now = store.complete token value now p.result_retention_ttl

  unfoldable pub uncertain : String → String → Datetime → Action S MarkUncertainResult
  uncertain token reason now = store.mark_uncertain token reason now p.uncertainty_retention_ttl

  unfoldable pub abandon : String → Datetime → Action S AbandonReservationResult
  abandon token now = store.abandon token now

abbrev pub in_memory : {T : Type 0} → IdempotencyStore (Store T) T
in_memory = record {
  reserve = Reserve.reserve;
  renew = Settle.renew;
  complete = Settle.complete;
  mark_uncertain = Settle.mark_uncertain;
  abandon = Settle.abandon;
}
