-- ===== src/Idempotency/Calls.antt =====
-- The methods of the `IdempotencyStore` protocol as data, and what sequences of calls do.
use pytitect.Prelude.{String, none, ◌≡◌, List, [], ◌∷◌, String_eq, Datetime, Timedelta}
use pytitect.Prelude.Dict.{get}
use pytitect.Maintenance.{UncertainPlan}
use pytitect.Idempotency.Types.{IdempotencyScope, Store}
use pytitect.Idempotency.Reserve
use pytitect.Idempotency.Settle
use pytitect.Idempotency.Purge

pub data Call (T : Type 0) : Type 0 where
  reserve : IdempotencyScope → String → String → Datetime → Timedelta → String → Call T
  renew : String → Datetime → Timedelta → Call T
  complete : String → T → Datetime → Timedelta → Call T
  mark_uncertain : String → String → Datetime → Timedelta → Call T
  abandon : String → Datetime → Call T
  purge : UncertainPlan → Call T

module _ {T : Type 0} where
  -- The store after a call, whether it returned or raised.
  unfoldable pub perform : Call T → Store T → Store T
  perform (reserve scope key fingerprint now ttl fresh) s =
      (Reserve.reserve scope key fingerprint now ttl fresh s).1
  perform (renew token now ttl) s = (Settle.renew token now ttl s).1
  perform (complete token value now ttl) s = (Settle.complete token value now ttl s).1
  perform (mark_uncertain token reason now ttl) s = (Settle.mark_uncertain token reason now ttl s).1
  perform (abandon token now) s = (Settle.abandon token now s).1
  perform (purge plan) s = (Purge.purge plan s).1

  unfoldable pub perform_all : List (Call T) → Store T → Store T
  unfolding perform
  perform_all [] s = s
  perform_all (c ∷ cs) s = perform_all cs (perform c s)

  -- `uuid4` answers with a string that is no token of the store.
  abbrev pub IsFresh : Call T → Store T → Type 0
  IsFresh (reserve scope key fingerprint now ttl fresh) s = get fresh s.tokens ≡ none
  IsFresh _ s = Unit

  -- So it does at each call of a sequence.
  abbrev pub AllFresh : List (Call T) → Store T → Type 0
  AllFresh [] s = Unit
  AllFresh (c ∷ cs) s = IsFresh c s × AllFresh cs (perform c s)

  -- What every call keeps, every sequence of calls keeps.
  pub perform_all_keeps {ℓ} :
      (P : Store T → Type ℓ)
      → ((c : Call T) (s : Store T) → IsFresh c s → P s → P (perform c s))
      → (cs : List (Call T)) (s : Store T) → AllFresh cs s
      → P s
      → P (perform_all cs s)
  unfolding perform_all
  perform_all_keeps P step [] s f h = h
  perform_all_keeps P step (c ∷ cs) s f h =
      perform_all_keeps P step cs (perform c s) f.1 (step c s f.0 h)
