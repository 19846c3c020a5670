-- ===== src/Idempotency/Types.antt =====
-- The values of src/pytitect/idempotency.py: scopes, reservations, and the answers of a store.
use pytitect.Prelude.{
  ℕ, String, Bool, true, false, ◌&&◌, ◌||◌, ◌≡◌, ◌↔◌, Option, [], Eq, ℕ_eq, String_eq, pair_eq,
  ◌==◌, arith, if◌then◌else◌, Result, ok, err, value_error, Timedelta, not_positive,
}
use pytitect.Prelude.Dict.{Dict}

pub record IdempotencyScope : Type 0 where
  pub namespace : String
  pub subject : String
  pub operation : String

-- `IdempotencyScope(namespace, subject, operation)`
unfoldable pub scope : String → String → String → Result IdempotencyScope
scope namespace subject operation =
    if (namespace == "") || (subject == "") || (operation == "")
    then err value_error
    else ok (record { namespace = namespace; subject = subject; operation = operation })

abbrev pub scope_beq : IdempotencyScope → IdempotencyScope → Bool
scope_beq a b =
    (a.namespace == b.namespace) && (a.subject == b.subject) && (a.operation == b.operation)

pub scope_beq_iff : (a b : IdempotencyScope) → (scope_beq a b ≡ true) ↔ (a ≡ b)
scope_beq_iff a b = ground (
  arith,
  String_eq.beq_iff a.namespace b.namespace,
  String_eq.beq_iff a.subject b.subject,
  String_eq.beq_iff a.operation b.operation,
)

instance abbrev pub scope_eq : Eq IdempotencyScope
scope_eq = record { beq = scope_beq; beq_iff = scope_beq_iff }

-- What a reservation is for: a scope and the consumer's key.
abbrev pub Identity : Type 0
Identity = IdempotencyScope × String

instance abbrev pub identity_eq : Eq Identity
identity_eq = pair_eq

pub record IdempotencyPolicy : Type 0 where
  pub execution_lease_ttl : Timedelta
  pub result_retention_ttl : Timedelta
  pub uncertainty_retention_ttl : Timedelta

-- `IdempotencyPolicy(...)`
unfoldable pub policy : Timedelta → Timedelta → Timedelta → Result IdempotencyPolicy
policy execution result uncertainty =
    if not_positive execution || not_positive result || not_positive uncertainty
    then err value_error
    else ok (record {
      execution_lease_ttl = execution;
      result_retention_ttl = result;
      uncertainty_retention_ttl = uncertainty;
    })

-- A reservation token and a request fingerprint are strings: a `uuid4().hex`, a SHA-256 digest.
-- `ReservationToken(value)`
unfoldable pub reservation_token : String → Result String
reservation_token value = if value == "" then err value_error else ok value

pub data IdempotencyDecision (T : Type 0) : Type 0 where
  execute : String → IdempotencyDecision T
  replay : Option T → IdempotencyDecision T
  conflict : IdempotencyDecision T
  in_progress : ℕ → IdempotencyDecision T
  uncertain : String → IdempotencyDecision T

pub data RenewReservationResult : Type 0 where
  reservation_renewed : ℕ → RenewReservationResult
  stale_reservation : RenewReservationResult

pub data CompleteReservationResult : Type 0 where
  reservation_completed : ℕ → CompleteReservationResult
  stale_reservation : CompleteReservationResult

pub data MarkUncertainResult : Type 0 where
  reservation_marked_uncertain : ℕ → MarkUncertainResult
  stale_reservation : MarkUncertainResult

pub data AbandonReservationResult : Type 0 where
  reservation_abandoned stale_reservation : AbandonReservationResult

pub data EntryState : Type 0 where
  reserved completed uncertain : EntryState

abbrev pub is_state : EntryState → EntryState → Bool
is_state EntryState.reserved EntryState.reserved = true
is_state EntryState.completed EntryState.completed = true
is_state EntryState.uncertain EntryState.uncertain = true
is_state _ _ = false

pub record Entry (T : Type 0) : Type 0 where
  pub token : String
  pub fingerprint : String
  pub expires_at : ℕ
  pub state : EntryState
  pub value : Option T
  pub reason : Option String

pub record Store (T : Type 0) : Type 0 where
  pub capacity : ℕ
  pub entries : Dict Identity (Entry T)
  pub tokens : Dict String Identity

-- `InMemoryIdempotencyStore(capacity=...)`
unfoldable pub new : {T : Type 0} → ℕ → Result (Store T)
new capacity =
    if capacity == 0
    then err value_error
    else ok (record { capacity = capacity; entries = []; tokens = [] })
