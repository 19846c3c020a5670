-- ===== src/Idempotency/View.antt =====
-- What `reserve` answers, in terms of the entries that are alive at its time.
use pytitect.Prelude.{
  ℕ, String, Bool, false, ◌≡◌, refl, Option, none, some, String_eq, ◌==◌, arith, length, leb, utc,
  Timedelta, ◌+ₜ◌, not_positive, if◌then◌else◌, filter, ok, ◌&&◌, not, ◌∙◌, ap,
}
use pytitect.Prelude.Dict.{
  get, keys, get-put, get-pop_all, get-move_to_end, IsUnique, elem-keys-filter,
}
use pytitect.Idempotency.Types.{
  IdempotencyScope, Identity, identity_eq, Entry, EntryState, Store, IdempotencyDecision, execute,
  is_state,
}
use pytitect.Idempotency.Reserve.{
  purge_expired, is_expired, reservation, reserve, reserve_purged, answer,
}
use pytitect.Idempotency.Validity.{entries-drop_all}

module _ {T : Type 0} where
  -- An entry is alive until it expires; an uncertain one does not expire.
  abbrev pub live : ℕ → Option (Entry T) → Option (Entry T)
  live now none = none
  live now (some x) =
      if leb x.expires_at now && not (is_state x.state EntryState.uncertain) then none else some x

  pub get-purge_expired :
      (now : ℕ) (s : Store T) (i : Identity)
      → IsUnique s.entries
      → get i (purge_expired now s).entries ≡ live now (get i s.entries)
  unfolding purge_expired
  get-purge_expired now s i u =
      rw (entries-drop_all (keys (filter (is_expired now) s.entries)) s).0 (
        ground (
          arith,
          get-pop_all (keys (filter (is_expired now) s.entries)) s.entries i,
          elem-keys-filter (is_expired now) s.entries i u,
        ))

  -- The answer of `reserve` at a time, from what is alive then.
  abbrev pub decision : Option (Entry T) → String → Bool → String → IdempotencyDecision T
  decision (some x) fp full fresh = answer x fp
  decision none fp full fresh =
      if full
      then IdempotencyDecision.uncertain "idempotency capacity exceeded; no reservation was made"
      else execute fresh

  -- The entry of an identity after `reserve` at a time.
  abbrev pub after : Option (Entry T) → Bool → String → String → ℕ → Option (Entry T)
  after (some x) full fresh fp expires_at = some x
  after none full fresh fp expires_at =
      if full then none else some (reservation fresh fp expires_at)

  purged_view :
      (o : Option (Entry T)) (i : Identity) (fp : String) (t : ℕ) (ttl : Timedelta) (fresh : String)
      (s : Store T)
      → get i s.entries ≡ o
      → let r = reserve_purged o i fp t ttl fresh s in
        let full = leb s.capacity (length s.entries) in
        (r.0 ≡ ok (decision o fp full fresh))
        × ((j : Identity)
            → get j r.1.entries
              ≡ (if i == j then after o full fresh fp (t +ₜ ttl) else get j s.entries))
  unfolding reserve_purged
  purged_view none i fp t ttl fresh s h = (
    ground arith,
    λ j.
        ground
          (arith, get-put s.entries i j (reservation fresh fp (t +ₜ ttl)), identity_eq.beq_iff i j),
  )
  purged_view (some x) i fp t ttl fresh s h =
      (refl, λ j. ground (arith, get-move_to_end s.entries i j, identity_eq.beq_iff i j))

  -- `reserve` with valid arguments answers as the entry of its identity that is alive says, or
  -- with a new reservation if there is none and there is room; afterwards its identity has that
  -- entry or the new one, and every other identity has what is alive of it.
  pub reserve_view :
      (scope : IdempotencyScope) (key fp : String) (t : ℕ) (ttl : Timedelta) (fresh : String)
      (s : Store T)
      → IsUnique s.entries
      → (key == "") ≡ false
      → not_positive ttl ≡ false
      → let i : Identity = (scope, key) in
        let r = reserve scope key fp (utc t) ttl fresh s in
        let full = leb (purge_expired t s).capacity (length (purge_expired t s).entries) in
        let alive = live t (get i s.entries) in
        (r.0 ≡ ok (decision alive fp full fresh))
        × ((j : Identity)
            → get j r.1.entries
              ≡ (if i == j then after alive full fresh fp (t +ₜ ttl) else live t (get j s.entries)))
  unfolding reserve
  reserve_view scope key fp t ttl fresh s u given long =
      let i : Identity = (scope, key) in
      let s' = purge_expired t s in
      let full = leb s'.capacity (length s'.entries) in
      let view = purged_view (get i s'.entries) i fp t ttl fresh s' refl in
      let same = λ (j : Identity). get-purge_expired t s j u in
      rw (given, long)
        (
          view.0 ∙ ap (λ o. ok (decision o fp full fresh)) (same i),
          λ j.
              view.1 j
              ∙ ap (λ o. if i == j then after o full fresh fp (t +ₜ ttl) else get j s'.entries)
                  (same i)
              ∙ ap
                  (λ o.
                    if i == j then after (live t (get i s.entries)) full fresh fp (t +ₜ ttl) else o)
                  (same j),
        )
