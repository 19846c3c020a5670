-- ===== src/Outbox/Calls.antt =====
-- The methods of the outbox store as data, and what sequences of calls do. An archive that a call
-- is given answers or raises, without a world of its own.
use pytitect.Prelude.{ℕ, String, List, [], ◌∷◌, Datetime, Timedelta, Result}
use pytitect.Maintenance.{Plan}
use pytitect.Outbox.Types.{OutboxEnvelope, OutboxClaim, FailedOutboxEnvelope}
use pytitect.Outbox.Store
use pytitect.Outbox.Store.{OutboxStore}
use pytitect.Outbox.Maintain

pub data Call (P : Type 0) : Type 0 where
  add : OutboxEnvelope P → Call P
  claim : (ℕ → String) → Datetime → ℕ → Timedelta → Call P
  delivered retry : OutboxClaim P → Datetime → Call P
  failed : OutboxClaim P → String → Datetime → Call P
  purge_delivered : Plan → Call P
  archive_failed : (List (FailedOutboxEnvelope P) → Result (Unit {0})) → Plan → Call P

module _ {P : Type 0} where
  -- The store after a call, whether it returned or raised.
  unfoldable pub perform : Call P → OutboxStore P → OutboxStore P
  perform (add envelope) s = (Store.add envelope s).1
  perform (claim uuid now limit ttl) s = (Store.claim uuid now limit ttl s).1
  perform (delivered held at) s = (Store.delivered held at s).1
  perform (retry held at) s = (Store.retry held at s).1
  perform (failed held reason at) s = (Store.failed held reason at s).1
  perform (purge_delivered plan) s = (Maintain.purge_delivered plan s).1
  perform (archive_failed archive plan) s =
      (Maintain.archive_failed (λ xs (w : Unit {0}). (archive xs, w)) plan (s, tt)).1.0

  unfoldable pub perform_all : List (Call P) → OutboxStore P → OutboxStore P
  unfolding perform
  perform_all [] s = s
  perform_all (c ∷ cs) s = perform_all cs (perform c s)
