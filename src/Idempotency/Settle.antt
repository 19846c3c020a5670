-- ===== src/Idempotency/Settle.antt =====
-- The methods that act on a reservation by its token: `renew`, `complete`, `mark_uncertain`,
-- `abandon`, and the `_executing` that they share.
use pytitect.Prelude.{
  ℕ, String, ◌||◌, not, Option, none, some, leb, if◌then◌else◌, ◌==◌, ℕ_eq, String_eq, pair_eq,
  Action, ok, value_error, ◌>>=◌, ◌>>◌, gets, lift, raise_if, Datetime, instant, Timedelta,
  not_positive, ◌+ₜ◌,
}
use pytitect.Prelude.Dict.{get, put, pop}
use pytitect.Idempotency.Types.{
  scope_eq, Identity, RenewReservationResult, reservation_renewed, CompleteReservationResult,
  reservation_completed, MarkUncertainResult, reservation_marked_uncertain,
  AbandonReservationResult, reservation_abandoned, EntryState, is_state, Entry, Store,
}

module _ {T : Type 0} where
  -- The test of `_executing` on the entry that a token leads to.
  abbrev pub check_executing :
      String → ℕ → Identity → Option (Entry T) → Option (Identity × Entry T)
  check_executing token now identity none = none
  check_executing token now identity (some entry) =
      if not (entry.token == token)
        || not (is_state entry.state EntryState.reserved)
        || leb entry.expires_at now
      then none
      else some (identity, entry)

  abbrev pub lookup_executing : String → ℕ → Option Identity → Store T → Option (Identity × Entry T)
  lookup_executing token now none s = none
  lookup_executing token now (some identity) s =
      check_executing token now identity (get identity s.entries)

  -- `_executing`, with the identity of the entry
  unfoldable pub executing : String → ℕ → Store T → Option (Identity × Entry T)
  executing token now s = lookup_executing token now (get token s.tokens) s

  abbrev pub set_entry : Identity → Entry T → Store T → Store T
  set_entry identity entry s = record s { entries = put identity entry s.entries }

  unfoldable pub renew_found :
      Option (Identity × Entry T) → ℕ → Action (Store T) RenewReservationResult
  renew_found none expires_at s = (ok RenewReservationResult.stale_reservation, s)
  renew_found (some (i, entry)) expires_at s = (
    ok (reservation_renewed expires_at),
    set_entry i (record entry { expires_at = expires_at }) s,
  )

  unfoldable pub renew : String → Datetime → Timedelta → Action (Store T) RenewReservationResult
  unfolding executing renew_found
  renew token now lease_ttl = do
    t ← lift (instant now)
    raise_if (not_positive lease_ttl) value_error
    found ← gets (executing token t)
    renew_found found (t +ₜ lease_ttl)

  unfoldable pub complete_found :
      Option (Identity × Entry T) → T → ℕ → Action (Store T) CompleteReservationResult
  complete_found none value expires_at s = (ok CompleteReservationResult.stale_reservation, s)
  complete_found (some (i, entry)) value expires_at s = (
    ok (reservation_completed expires_at),
    set_entry i
        (record entry { state = EntryState.completed; value = some value; expires_at = expires_at })
        s,
  )

  unfoldable pub complete :
      String → T → Datetime → Timedelta → Action (Store T) CompleteReservationResult
  unfolding executing complete_found
  complete token value now retention_ttl = do
    t ← lift (instant now)
    raise_if (not_positive retention_ttl) value_error
    found ← gets (executing token t)
    complete_found found value (t +ₜ retention_ttl)

  unfoldable pub mark_found :
      Option (Identity × Entry T) → String → ℕ → Action (Store T) MarkUncertainResult
  mark_found none reason expires_at s = (ok MarkUncertainResult.stale_reservation, s)
  mark_found (some (i, entry)) reason expires_at s = (
    ok (reservation_marked_uncertain expires_at),
    set_entry i
        (record entry {
          state = EntryState.uncertain;
          reason = some reason;
          expires_at = expires_at;
        })
        s,
  )

  unfoldable pub mark_uncertain :
      String → String → Datetime → Timedelta → Action (Store T) MarkUncertainResult
  unfolding executing mark_found
  mark_uncertain token reason now retention_ttl = do
    t ← lift (instant now)
    raise_if (reason == "") value_error
    raise_if (not_positive retention_ttl) value_error
    found ← gets (executing token t)
    mark_found found reason (t +ₜ retention_ttl)

  unfoldable pub abandon_found :
      Option (Identity × Entry T) → String → Action (Store T) AbandonReservationResult
  abandon_found none token s = (ok AbandonReservationResult.stale_reservation, s)
  abandon_found (some (i, entry)) token s = (
    ok reservation_abandoned,
    record s { entries = pop i s.entries; tokens = pop token s.tokens },
  )

  unfoldable pub abandon : String → Datetime → Action (Store T) AbandonReservationResult
  unfolding executing abandon_found
  abandon token now = do
    t ← lift (instant now)
    found ← gets (executing token t)
    abandon_found found token
