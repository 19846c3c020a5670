-- ===== src/Outbox/Store.antt =====
-- `InMemoryOutboxStore` of src/pytitect/outbox.py. Each method holds the lock from end to end. An
-- item is kept under its message ID, which no method changes, so a pair of the dictionary stands
-- for an item. `uuid n` is the n-th ID that `uuid4` gives within a claim.
use pytitect.Prelude.{
  ℕ, suc, ◌+◌, String, Bool, true, false, ◌&&◌, ◌||◌, not, Option, none, some, List, [], ◌∷◌, ltb,
  leb, if◌then◌else◌, length, ◌==◌, ℕ_eq, String_eq, is_some, option_eq, Action, Result, ok, err,
  value_error, overflow_error, ◌>>=◌, ◌>>◌, lift, raise_if, Datetime, instant, Timedelta,
  not_positive, ◌+ₜ◌,
}
use pytitect.Prelude.Dict.{Dict, get, put, contains}
use pytitect.Prelude.Sorting.{sorted, str_leb, key_then}
use pytitect.Outbox.Types.{
  OutboxEnvelope, OutboxClaim, OutboxAddResult, outbox_added, outbox_duplicate, Stored,
}

pub record OutboxStore (P : Type 0) : Type 0 where
  pub capacity : ℕ
  pub items : Dict String (Stored P)

-- `InMemoryOutboxStore(capacity=...)`
unfoldable pub new : {P : Type 0} → ℕ → Result (OutboxStore P)
new capacity =
    if capacity == 0 then err value_error else ok (record { capacity = capacity; items = [] })

-- `item.claimed_until is not None and item.claimed_until > now`
abbrev pub is_held : Option ℕ → ℕ → Bool
is_held none now = false
is_held (some until) now = ltb now until

module _ {P : Type 0} where
  -- `_Stored(envelope)`
  abbrev pub stored : OutboxEnvelope P → Stored P
  stored envelope = record {
    envelope = envelope;
    claim_id = none;
    claimed_until = none;
    delivered_at = none;
    failure_reason = none;
    failed_at = none;
  }

  unfoldable pub add : OutboxEnvelope P → Action (OutboxStore P) OutboxAddResult
  add envelope s =
      if contains envelope.message_id s.items
      then (ok outbox_duplicate, s)
      else if leb s.capacity (length s.items)
      then (err overflow_error, s)
      else (ok outbox_added, record s { items = put envelope.message_id (stored envelope) s.items })

  -- The key by which `claim` sorts.
  abbrev pub available_at : String × Stored P → ℕ
  available_at item = item.1.envelope.available_at

  abbrev pub id_leb : String × Stored P → String × Stored P → Bool
  id_leb a b = str_leb a.0 b.0

  -- No `continue` of the loop of `claim` is taken.
  abbrev pub is_eligible : ℕ → String × Stored P → Bool
  is_eligible now (i, item) =
      not (ltb now item.envelope.available_at)
      && not (is_some item.delivered_at || is_some item.failure_reason)
      && not (is_held item.claimed_until now)

  abbrev pub held : String → ℕ → Stored P → Stored P
  held claim_id claimed_until item = record item {
    claim_id = some claim_id;
    claimed_until = some claimed_until;
  }

  abbrev pub claim_of : String → ℕ → Stored P → OutboxClaim P
  claim_of claim_id claimed_until item = record {
    claim_id = claim_id;
    envelope = item.envelope;
    claimed_until = claimed_until;
  }

  module _ (now limit claimed_until : ℕ) (uuid : ℕ → String) where
    -- The loop of `claim`, after `n` claims.
    unfoldable pub claim_items :
        ℕ
        → List (String × Stored P)
        → Dict String (Stored P)
        → List (OutboxClaim P) × Dict String (Stored P)
    claim_items n [] items = ([], items)
    claim_items n ((i, item) ∷ rest) items =
        let skipped = claim_items n rest items in
        let taken = claim_items (suc n) rest (put i (held (uuid n) claimed_until item) items) in
        if leb limit n
        then ([], items)
        else if is_eligible now (i, item)
        then (claim_of (uuid n) claimed_until item ∷ taken.0, taken.1)
        else skipped

  -- The part of `claim` under the lock.
  unfoldable pub claim_locked :
      (ℕ → String) → ℕ → ℕ → ℕ → Action (OutboxStore P) (List (OutboxClaim P))
  unfolding claim_items sorted
  claim_locked uuid now limit claimed_until s =
      let r =
        claim_items now limit claimed_until uuid 0 (sorted (key_then available_at id_leb) s.items)
          s.items in
      (ok r.0, record s { items = r.1 })

  unfoldable pub claim :
      (ℕ → String) → Datetime → ℕ → Timedelta → Action (OutboxStore P) (List (OutboxClaim P))
  unfolding claim_locked
  claim uuid now limit claim_ttl = do
    t ← lift (instant now)
    raise_if (limit == 0) value_error
    raise_if (not_positive claim_ttl) value_error
    claim_locked uuid t limit (t +ₜ claim_ttl)

  -- `_valid`
  abbrev pub valid_item : OutboxClaim P → Option (Stored P) → Option (Stored P)
  valid_item claim none = none
  valid_item claim (some item) =
      if not (item.claim_id == some claim.claim_id)
        || is_some item.delivered_at
        || is_some item.failure_reason
      then none
      else some item

  unfoldable pub valid : OutboxStore P → OutboxClaim P → Option (Stored P)
  valid s claim = valid_item claim (get claim.envelope.message_id s.items)

  -- `item.claim_id = None; item.claimed_until = None`
  abbrev pub released : Stored P → Stored P
  released item = record item { claim_id = none; claimed_until = none }

  -- What `delivered`, `retry` and `failed` do with what `_valid` returns.
  unfoldable pub settle_found :
      (Stored P → Stored P) → OutboxClaim P → Option (Stored P) → Action (OutboxStore P) Bool
  settle_found change claim none s = (ok false, s)
  settle_found change claim (some item) s =
      (ok true, record s { items = put claim.envelope.message_id (released (change item)) s.items })

  unfoldable pub settle : (Stored P → Stored P) → OutboxClaim P → Action (OutboxStore P) Bool
  unfolding valid settle_found
  settle change claim s = settle_found change claim (valid s claim) s

  abbrev pub set_delivered : ℕ → Stored P → Stored P
  set_delivered at item = record item { delivered_at = some at }

  abbrev pub set_retried : ℕ → Stored P → Stored P
  set_retried available_at item = record item {
    envelope = record item.envelope {
      attempt = item.envelope.attempt + 1;
      available_at = available_at;
    };
  }

  abbrev pub set_failed : String → ℕ → Stored P → Stored P
  set_failed reason at item = record item { failure_reason = some reason; failed_at = some at }

  unfoldable pub delivered : OutboxClaim P → Datetime → Action (OutboxStore P) Bool
  unfolding settle
  delivered claim at = do t ← lift (instant at); settle (set_delivered t) claim

  unfoldable pub retry : OutboxClaim P → Datetime → Action (OutboxStore P) Bool
  unfolding settle
  retry claim available_at = do t ← lift (instant available_at); settle (set_retried t) claim

  unfoldable pub failed : OutboxClaim P → String → Datetime → Action (OutboxStore P) Bool
  unfolding settle
  failed claim reason at = do
    t ← lift (instant at)
    raise_if (reason == "") value_error
    settle (set_failed reason t) claim
