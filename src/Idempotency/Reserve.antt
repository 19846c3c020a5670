-- ===== src/Idempotency/Reserve.antt =====
-- `reserve` of the in-memory idempotency store, and the `_purge` that comes first in it.
use pytitect.Prelude.{
  ℕ, String, Bool, ◌&&◌, not, Option, none, some, List, [], ◌∷◌, leb, if◌then◌else◌, filter, length,
  ◌==◌, ℕ_eq, String_eq, pair_eq, Action, ok, value_error, ◌>>=◌, ◌>>◌, lift, raise_if, Datetime,
  instant, Timedelta, not_positive, ◌+ₜ◌,
}
use pytitect.Prelude.Dict.{Dict, get, put, pop, move_to_end, keys}
use pytitect.Idempotency.Types.{
  IdempotencyScope, scope_eq, Identity, IdempotencyDecision, execute, replay, conflict, in_progress,
  EntryState, is_state, Entry, Store,
}

-- `text or default`, where the text may be absent or empty
abbrev pub or_text : Option String → String → String
or_text none default = default
or_text (some reason) default = if reason == "" then default else reason

module _ {T : Type 0} where
  -- `self._entries.pop(identity)` and `self._tokens.pop(entry.token, None)`
  abbrev pub pop_token : Option (Entry T) → Dict String Identity → Dict String Identity
  pop_token none tokens = tokens
  pop_token (some entry) tokens = pop entry.token tokens

  unfoldable pub drop : Identity → Store T → Store T
  drop identity s = record s {
    entries = pop identity s.entries;
    tokens = pop_token (get identity s.entries) s.tokens;
  }

  unfoldable pub drop_all : List Identity → Store T → Store T
  unfolding drop
  drop_all [] s = s
  drop_all (i ∷ is) s = drop_all is (drop i s)

  -- The test of `_purge`: only uncertain entries outlive their expiry.
  abbrev pub is_expired : ℕ → Identity × Entry T → Bool
  is_expired now (i, entry) =
      leb entry.expires_at now && not (is_state entry.state EntryState.uncertain)

  -- `_purge`
  unfoldable pub purge_expired : ℕ → Store T → Store T
  unfolding drop_all
  purge_expired now s = drop_all (keys (filter (is_expired now) s.entries)) s

  -- The answer of `reserve` for an identity that has an entry.
  unfoldable pub answer : Entry T → String → IdempotencyDecision T
  answer current fingerprint =
      if not (current.fingerprint == fingerprint)
      then conflict
      else if is_state current.state EntryState.completed
      then replay current.value
      else if is_state current.state EntryState.uncertain
      then IdempotencyDecision.uncertain (or_text current.reason "the prior outcome is unknown")
      else in_progress current.expires_at

  abbrev pub reservation : String → String → ℕ → Entry T
  reservation token fingerprint expires_at = record {
    token = token;
    fingerprint = fingerprint;
    expires_at = expires_at;
    state = EntryState.reserved;
    value = none;
    reason = none;
  }

  unfoldable pub reserve_purged :
      Option (Entry T)
      → Identity
      → String
      → ℕ
      → Timedelta
      → String
      → Action (Store T) (IdempotencyDecision T)
  unfolding answer
  reserve_purged (some current) identity fingerprint now ttl fresh s =
      (ok (answer current fingerprint), record s { entries = move_to_end identity s.entries })
  reserve_purged none identity fingerprint now ttl fresh s =
      if leb s.capacity (length s.entries)
      then (
        ok (IdempotencyDecision.uncertain "idempotency capacity exceeded; no reservation was made"),
        s,
      )
      else (
        ok (execute fresh),
        record s {
          entries = put identity (reservation fresh fingerprint (now +ₜ ttl)) s.entries;
          tokens = put fresh identity s.tokens;
        },
      )

  unfoldable pub reserve_locked :
      Identity → String → ℕ → Timedelta → String → Action (Store T) (IdempotencyDecision T)
  unfolding purge_expired reserve_purged
  reserve_locked identity fingerprint now ttl fresh s =
      let s' = purge_expired now s in
      reserve_purged (get identity s'.entries) identity fingerprint now ttl fresh s'

  unfoldable pub reserve :
      IdempotencyScope
      → String
      → String
      → Datetime
      → Timedelta
      → String
      → Action (Store T) (IdempotencyDecision T)
  unfolding reserve_locked
  reserve scope key fingerprint now lease_ttl fresh = do
    t ← lift (instant now)
    raise_if (key == "") value_error
    raise_if (not_positive lease_ttl) value_error
    reserve_locked (scope, key) fingerprint t lease_ttl fresh
