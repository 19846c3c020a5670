-- ===== src/Inbox.antt =====
-- Inbox de-duplication, src/pytitect/inbox.py: `InMemoryInboxStore`. Each method holds the lock
-- from end to end, so threads interleave whole calls.
pub mod Calls
pub mod Validity
pub mod Duplicates
pub mod Ownership
pub mod Purging
pub mod Harness
mod Tests
use pytitect.Prelude.{
  ℕ, ◌+◌, String, Bool, true, false, ◌&&◌, ◌||◌, ◌≡◌, ◌↔◌, not, Option, none, some, [], List, ltb,
  leb, if◌then◌else◌, length, Eq, ◌==◌, ℕ_eq, String_eq, pair_eq, is_some, or_else, arith, Action,
  Result, ok, err, value_error, ◌>>=◌, ◌>>◌, pure, gets, lift, raise_if, Datetime, instant,
  Timedelta, not_positive, ◌+ₜ◌,
}
use pytitect.Prelude.Dict.{Dict, get, put, pop}
use pytitect.Prelude.Sorting.{str_leb, then_by, key_then}
use pytitect.Maintenance.{Plan, MaintenanceSummary, select, remaining, report}

pub record InboxScope : Type 0 where
  pub namespace : String
  pub source : String
  pub consumer : String

-- `InboxScope(namespace, source, consumer)`
unfoldable pub scope : String → String → String → Result InboxScope
scope namespace source consumer =
    if (namespace == "") || (source == "") || (consumer == "")
    then err value_error
    else ok (record { namespace = namespace; source = source; consumer = consumer })

abbrev pub scope_beq : InboxScope → InboxScope → Bool
scope_beq a b = (a.namespace == b.namespace) && (a.source == b.source) && (a.consumer == b.consumer)

pub scope_beq_iff : (a b : InboxScope) → (scope_beq a b ≡ true) ↔ (a ≡ b)
scope_beq_iff a b = ground (
  arith,
  String_eq.beq_iff a.namespace b.namespace,
  String_eq.beq_iff a.source b.source,
  String_eq.beq_iff a.consumer b.consumer,
)

instance abbrev pub scope_eq : Eq InboxScope
scope_eq = record { beq = scope_beq; beq_iff = scope_beq_iff }

-- A scope and a message ID; an `OpaqueId` compares by its string.
abbrev pub Identity : Type 0
Identity = InboxScope × String

instance abbrev pub identity_eq : Eq Identity
identity_eq = pair_eq

pub record InboxEnvelope (P : Type 0) : Type 0 where
  pub scope : InboxScope
  pub message_id : String
  pub payload : P
  pub received_at : ℕ

-- `InboxEnvelope(scope, message_id, payload, received_at)`
unfoldable pub envelope :
    {P : Type 0} → InboxScope → String → P → Datetime → Result (InboxEnvelope P)
envelope scope message_id payload (Datetime.other t) = err value_error
envelope scope message_id payload (Datetime.utc t) =
    ok (record { scope = scope; message_id = message_id; payload = payload; received_at = t })

pub data InboxDecision : Type 0 where
  inbox_accepted : String → InboxDecision
  inbox_duplicate : ℕ → InboxDecision
  inbox_in_progress : ℕ → InboxDecision
  inbox_capacity_exceeded : ℕ → InboxDecision

pub record InboxEntry : Type 0 where
  pub token : String
  pub expires_at : ℕ
  pub completed_at : Option ℕ

pub record InboxStore : Type 0 where
  pub capacity : ℕ
  pub entries : Dict Identity InboxEntry

-- `InMemoryInboxStore(capacity=...)`
unfoldable pub new : ℕ → Result InboxStore
new capacity =
    if capacity == 0 then err value_error else ok (record { capacity = capacity; entries = [] })

-- The end of `begin`: the identity has no entry.
unfoldable pub accept : Identity → String → ℕ → Action InboxStore InboxDecision
accept identity token expires_at s =
    let entry : InboxEntry = record {
      token = token;
      expires_at = expires_at;
      completed_at = none;
    } in
    if leb s.capacity (length s.entries)
    then (ok (inbox_capacity_exceeded s.capacity), s)
    else (ok (inbox_accepted token), record s { entries = put identity entry s.entries })

-- An entry that was not completed holds its identity until it expires.
unfoldable pub begin_open :
    InboxEntry → Identity → String → ℕ → Timedelta → Action InboxStore InboxDecision
unfolding accept
begin_open entry identity token now ttl s =
    if ltb now entry.expires_at
    then (ok (inbox_in_progress entry.expires_at), s)
    else accept identity token (now +ₜ ttl) (record s { entries = pop identity s.entries })

unfoldable pub begin_found :
    InboxEntry → Option ℕ → Identity → String → ℕ → Timedelta → Action InboxStore InboxDecision
unfolding begin_open
begin_found entry (some completed_at) identity token now ttl s =
    (ok (inbox_duplicate completed_at), s)
begin_found entry none identity token now ttl s = begin_open entry identity token now ttl s

unfoldable pub begin_locked :
    Option InboxEntry → Identity → String → ℕ → Timedelta → Action InboxStore InboxDecision
unfolding begin_found accept
begin_locked none identity token now ttl s = accept identity token (now +ₜ ttl) s
begin_locked (some entry) identity token now ttl s =
    begin_found entry entry.completed_at identity token now ttl s

unfoldable pub begin :
    InboxScope → String → String → Datetime → Timedelta → Action InboxStore InboxDecision
unfolding begin_locked
begin scope message_id token now ttl = do
  t ← lift (instant now)
  raise_if ((token == "") || not_positive ttl) value_error
  entry ← gets (λ s. get (scope, message_id) s.entries)
  begin_locked entry (scope, message_id) token t ttl

unfoldable pub complete_locked : Option InboxEntry → Identity → String → ℕ → Action InboxStore Bool
complete_locked none identity token now s = (ok false, s)
complete_locked (some entry) identity token now s =
    if not (entry.token == token) || leb entry.expires_at now then (ok false, s) else (
      ok true,
      record s { entries = put identity (record entry { completed_at = some now }) s.entries },
    )

unfoldable pub complete : InboxScope → String → String → Datetime → Action InboxStore Bool
unfolding complete_locked
complete scope message_id token now = do
  t ← lift (instant now)
  entry ← gets (λ s. get (scope, message_id) s.entries)
  complete_locked entry (scope, message_id) token t

unfoldable pub abandon_locked : Option InboxEntry → Identity → String → Action InboxStore Bool
abandon_locked none identity token s = (ok false, s)
abandon_locked (some entry) identity token s =
    if not (entry.token == token) || is_some entry.completed_at
    then (ok false, s)
    else (ok true, record s { entries = pop identity s.entries })

unfoldable pub abandon : InboxScope → String → String → Action InboxStore Bool
unfolding abandon_locked
abandon scope message_id token s =
    abandon_locked (get (scope, message_id) s.entries) (scope, message_id) token s

-- `entry.completed_at or entry.expires_at`
abbrev pub settled_at : Identity × InboxEntry → ℕ
settled_at (i, entry) = or_else entry.completed_at entry.expires_at

-- The test of `purge`: completed, or not completed and expired, by the cutoff.
abbrev pub purge_test : Option ℕ → ℕ → ℕ → Bool
purge_test (some completed_at) expires_at cutoff = leb completed_at cutoff
purge_test none expires_at cutoff = leb expires_at cutoff

abbrev pub is_purgeable : Plan → Identity × InboxEntry → Bool
is_purgeable plan (i, entry) = purge_test entry.completed_at entry.expires_at plan.cutoff

abbrev pub identity_leb : Identity × InboxEntry → Identity × InboxEntry → Bool
identity_leb ((a, k), x) ((b, j), y) =
    then_by (not (str_leb b.namespace a.namespace)) (a.namespace == b.namespace) (
      then_by (not (str_leb b.source a.source)) (a.source == b.source)
        (then_by (not (str_leb b.consumer a.consumer)) (a.consumer == b.consumer) (str_leb k j)))

abbrev pub purgeable : Plan → InboxStore → Dict Identity InboxEntry
purgeable plan s =
    select (key_then settled_at identity_leb) (is_purgeable plan) plan.batch_size s.entries

unfoldable pub purge : Plan → Action InboxStore MaintenanceSummary
purge plan s =
    let selected = purgeable plan s in
    (
      report plan.dry_run (length selected),
      record s { entries = remaining plan.dry_run selected s.entries },
    )
