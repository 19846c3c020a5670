-- ===== src/Outbox/Finality.antt =====
-- A message that has been delivered or has failed is never claimed again.
use pytitect.Prelude.{
  ℕ, suc, String, Bool, true, false, not, ◌≡◌, ◌≢◌, refl, sym, ◌∙◌, Option, none, some, List, [],
  ◌∷◌, ltb, ◌==◌, ℕ_eq, String_eq, arith, inl, inr, Bool-cases, Option-cases, All, ok, utc,
  Timedelta, not_positive, ◌+ₜ◌,
}
use pytitect.Prelude.Dict.{Dict, get, get-put, Selected}
use pytitect.Outbox.Types.{OutboxEnvelope, OutboxClaim, outbox_duplicate, Stored}
use pytitect.Outbox.Store.{
  OutboxStore, is_eligible, valid, released, set_delivered, add, claim, claim_locked, delivered,
}
use pytitect.Outbox.Claiming.{claims, chosen, chosen-Selected, claim_utc, claim_locked_lem}
use pytitect.Outbox.Calls.{Call, perform, perform_all}
use pytitect.Outbox.Moves.{
  Move, is_finished, finished_by, cutoff_of, settle_stale, settle-valid, valid_item-some,
}
use pytitect.Outbox.Validity.{IsValid, perform_outbox-IsValid, perform-Move}

-- Purges and archives of the call look before a time.
abbrev pub looks_before : ℕ → Option ℕ → Bool
looks_before at none = true
looks_before at (some cutoff) = ltb cutoff at

module _ {P : Type 0} where
  abbrev pub spares_at : Option ℕ → Stored P → Bool
  spares_at none item = true
  spares_at (some cutoff) item = not (finished_by cutoff item)

  -- The call is no purge or archive of what was finished by a time at or after the item's.
  abbrev pub Spares : Stored P → Call P → Type 0
  Spares item c = spares_at (cutoff_of c) item ≡ true

  Move_finished :
      (c : Call P) (i : String) (o o' : Option (Stored P)) (item : Stored P)
      → o ≡ some item
      → is_finished item ≡ true
      → Spares item c
      → Move c i o o'
      → o' ≡ some item
  Move_finished c i o o' item e f h (Move.unchanged same) = same ∙ e
  Move_finished c i o o' item e f h (Move.added x named absent after) = absurd (cc (e, absent))
  Move_finished c i o o' item e f h (Move.claimed x claim_id until issued there open_ after) =
      absurd (cc (e, there, open_, f))
  Move_finished c i o o' item e f h (Move.settled x x' claim_id there open_ owned how after) =
      absurd (cc (e, there, open_, f))
  Move_finished c i o o' item e f h (Move.removed x t cut there by_then after) =
      let same : x ≡ item = cc (e, there) in
      let spared : not (finished_by t item) ≡ true = rw cut at h in
      absurd (ground (arith, spared, rw same at by_then))

  -- A finished message stays as it is, through calls that do not purge or archive it.
  pub finished_kept :
      (cs : List (Call P)) (s : OutboxStore P) (i : String) (item : Stored P)
      → IsValid s
      → get i s.items ≡ some item
      → is_finished item ≡ true
      → All (Spares item) cs
      → get i (perform_all cs s).items ≡ some item
  unfolding perform_all
  finished_kept [] s i item v e f h = e
  finished_kept (c ∷ cs) s i item v e f h =
      finished_kept cs (perform c s) i item (perform_outbox-IsValid c s v)
        (Move_finished c i (get i s.items) (get i (perform c s).items) item e f h.0
          (perform-Move c s i v.unique))
        f h.1

  perform_all-IsValid :
      (cs : List (Call P)) (s : OutboxStore P) → IsValid s → IsValid (perform_all cs s)
  unfolding perform_all
  perform_all-IsValid [] s v = v
  perform_all-IsValid (c ∷ cs) s v =
      perform_all-IsValid cs (perform c s) (perform_outbox-IsValid c s v)

  claims-other :
      (until : ℕ) (uuid : ℕ → String) (now n : ℕ) (l : Dict String (Stored P)) (s : OutboxStore P)
      (i : String) (item : Stored P)
      → IsValid s
      → get i s.items ≡ some item
      → is_finished item ≡ true
      → All (Selected (is_eligible now) s.items) l
      → All (λ (c : OutboxClaim P). c.envelope.message_id ≢ i) (claims until uuid n l)
  claims-other until uuid now n [] s i item v e f h = tt
  claims-other until uuid now n ((k, x) ∷ l) s i item v e f h = (
    λ same.
        let sound = v.sound k in
        let named : x.envelope.message_id ≡ k =
          ground (arith, rw h.0.0 at sound, String_eq.beq_iff x.envelope.message_id k) in
        let here : get i s.items ≡ some x = rw (sym named ∙ same) at h.0.0 in
        let eq : x ≡ item = cc (here, e) in absurd (ground (arith, rw eq at h.0.1, f)),
    claims-other until uuid now (suc n) l s i item v e f h.1,
  )

  claim_locked-other :
      (uuid : ℕ → String) (now limit until : ℕ) (s : OutboxStore P) (i : String) (item : Stored P)
      (got : List (OutboxClaim P))
      → IsValid s
      → get i s.items ≡ some item
      → is_finished item ≡ true
      → (claim_locked uuid now limit until s).0 ≡ ok got
      → All (λ (c : OutboxClaim P). c.envelope.message_id ≢ i) got
  claim_locked-other uuid now limit until s i item got v e f h =
      let same : claims until uuid 0 (chosen now limit s) ≡ got =
        ok_of (rw claim_locked_lem at h) in
      rw (← same) (
        claims-other until uuid now 0 (chosen now limit s) s i item v e f
          (chosen-Selected now limit s v.unique))
    where
      ok_of : {x y : List (OutboxClaim P)} → ok x ≡ ok y → x ≡ y
      ok_of h = cc h

  claim_other :
      (uuid : ℕ → String) (t limit : ℕ) (ttl : Timedelta) (s : OutboxStore P) (i : String)
      (item : Stored P) (got : List (OutboxClaim P))
      → IsValid s
      → get i s.items ≡ some item
      → is_finished item ≡ true
      → (claim uuid (utc t) limit ttl s).0 ≡ ok got
      → All (λ (c : OutboxClaim P). c.envelope.message_id ≢ i) got
  claim_other uuid t limit ttl s i item got v e f h = elim (Bool-cases (limit == 0)) [
    | inl bad ↦ absurd (ground (arith, bad, rw claim_utc at h))
    | inr some_ ↦ elim (Bool-cases (not_positive ttl)) [
      | inl bad ↦ absurd (ground (arith, bad, some_, rw claim_utc at h))
      | inr fine ↦
          claim_locked-other uuid t limit (t +ₜ ttl) s i item got v e f
            (let q = rw claim_utc at h in rw (some_, fine) at q)
    ]
  ]

  delivered_item :
      (c : OutboxClaim P) (at : ℕ) (s : OutboxStore P)
      → (delivered c (utc at) s).0 ≡ ok true
      → (item : Stored P) × (get c.envelope.message_id (delivered c (utc at) s).1.items
          ≡ some (released (set_delivered at item)))
        × (is_finished item ≡ false)
  unfolding delivered
  delivered_item c at s h = elim (Option-cases (valid s c)) [
    | inl stale ↦ absurd (ground (arith, rw (settle_stale (set_delivered at) c s stale) at h))
    | inr (item, e) ↦ (
      item,
      rw (settle-valid (set_delivered at) c s item e) (
          ground (
            arith,
            get-put s.items c.envelope.message_id c.envelope.message_id
                (released (set_delivered at item)),
            String_eq.beq_iff c.envelope.message_id c.envelope.message_id,
          )),
      (valid_item-some c (get c.envelope.message_id s.items) item (unfold valid in e)).1,
    )
  ]

  looks_before-Spares :
      (at : ℕ) (item : Stored P) (cs : List (Call P))
      → is_finished item ≡ false
      → All (λ c. looks_before at (cutoff_of c) ≡ true) cs
      → All (Spares (released (set_delivered at item))) cs
  looks_before-Spares at item [] f h = tt
  looks_before-Spares at item (c ∷ cs) f h =
      (spared (cutoff_of c) h.0, looks_before-Spares at item cs f h.1)
    where
      spared :
          (o : Option ℕ)
          → looks_before at o ≡ true
          → spares_at o (released (set_delivered at item)) ≡ true
      spared none h = refl
      spared (some cutoff) h = ground (arith, h, f)

  -- Once `delivered` has answered True in a well-formed store, and after any calls whose purges and
  -- archives look before that delivery, no claim returns the message, adding it again reports a
  -- duplicate, and it is still there, with the time of the delivery.
  pub delivered_final :
      (c : OutboxClaim P) (at : ℕ) (s : OutboxStore P) (cs : List (Call P)) (uuid : ℕ → String)
      (t limit : ℕ) (ttl : Timedelta) (got : List (OutboxClaim P)) (e : OutboxEnvelope P)
      → let i = c.envelope.message_id in
        let s' = perform_all cs (delivered c (utc at) s).1 in
        IsValid s
        → (delivered c (utc at) s).0 ≡ ok true
        → All (λ k. looks_before at (cutoff_of k) ≡ true) cs
        → (claim uuid (utc t) limit ttl s').0 ≡ ok got
        → e.message_id ≡ i
        → All (λ (k : OutboxClaim P). k.envelope.message_id ≢ i) got
          × (add e s' ≡ (ok outbox_duplicate, s'))
          × ((item : Stored P) × (get i s'.items ≡ some item) × (item.delivered_at ≡ some at))
  unfolding add
  delivered_final c at s cs uuid t limit ttl got e v h before took named =
      let i = c.envelope.message_id in
      let s₁ = (delivered c (utc at) s).1 in
      let s' = perform_all cs s₁ in
      let (item, there, open_) = delivered_item c at s h in
      let v₁ : IsValid s₁ =
        unfold perform in perform_outbox-IsValid (Call.delivered c (utc at)) s v in
      let kept =
        finished_kept cs s₁ i (released (set_delivered at item)) v₁ there refl
          (looks_before-Spares at item cs open_ before) in
      let v' = perform_all-IsValid cs s₁ v₁ in
      (
        claim_other uuid t limit ttl s' i (released (set_delivered at item)) got v' kept refl took,
        ground (arith, kept, named),
        (released (set_delivered at item), kept, refl),
      )
