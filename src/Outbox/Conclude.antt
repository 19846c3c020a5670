-- ===== src/Outbox/Conclude.antt =====
-- What the loop of `OneRoundDispatcher.dispatch`, src/pytitect/outbox.py, does with one claim.
use pytitect.Prelude.{
  ℕ, suc, ◌+◌, String, Bool, true, false, not, ◌≡◌, some, ltb, ◌==◌, ℕ_eq, String_eq, arith, inl,
  inr, Bool-cases, pure, bind_ok, Result, ok, utc,
}
use pytitect.Prelude.Dict.{put}
use pytitect.Outbox.Types.{OutboxClaim, DeliveryResult, Stored, Floats, RetryPolicy}
use pytitect.Outbox.Store.{
  OutboxStore, valid, released, set_delivered, set_retried, set_failed, delivered, retry, failed,
}
use pytitect.Outbox.Moves.{settle-valid}
use pytitect.Outbox.Validity.{failed_utc}
use pytitect.Outbox.Delay.{delay_some}
use pytitect.Outbox.Dispatch.{
  in_memory, Counts, give_up, try_again, conclude, int, on_store, on_store_ok,
}

-- A failure that the handler reports has a reason.
abbrev pub is_reasoned : DeliveryResult → Bool
is_reasoned DeliveryResult.delivered = true
is_reasoned (DeliveryResult.retryable reason) = not (reason == "")
is_reasoned (DeliveryResult.permanent_failure reason) = not (reason == "")

-- How many claims have been settled.
abbrev pub total : Counts → ℕ
total counts = counts.delivered + counts.retried + counts.failed

-- The store with the claim's item changed and released.
abbrev pub settled :
    {P : Type 0} → (Stored P → Stored P) → OutboxClaim P → Stored P → OutboxStore P → OutboxStore P
settled change c item s = record s {
  items = put c.envelope.message_id (released (change item)) s.items;
}

failed_settles :
    {P : Type 0} (t : ℕ) (c : OutboxClaim P) (item : Stored P) (s : OutboxStore P) (reason : String)
    → valid s c ≡ some item
    → (reason == "") ≡ false
    → failed c reason (utc t) s ≡ (ok true, settled (set_failed reason t) c item s)
failed_settles t c item s reason h fine =
    rw (failed_utc, fine) (settle-valid (set_failed reason t) c s item h)

module _ {P W F : Type 0} (floats : Floats F) (policy : RetryPolicy F) (uuid : ℕ → String)
    (t : ℕ) where
  -- One claim more is counted, and its item is changed and released.
  abbrev pub Concluded :
      OutboxClaim P
      → Counts
      → Stored P
      → OutboxStore P
      → W
      → Result Counts × (OutboxStore P × W)
      → Type 0
  Concluded c counts item s w r =
      (counts' : Counts) × (change : Stored P → Stored P) × (r
        ≡ (ok counts', (settled change c item s, w)))
      × (total counts' ≡ suc (total counts))

  module _ (c : OutboxClaim P) (counts : Counts) (item : Stored P) (s : OutboxStore P) (w : W)
      (h : valid s c ≡ some item) where
    give_up-Concluded :
        (reason : String)
        → (reason == "") ≡ false
        → Concluded c counts item s w
            (give_up floats policy (in_memory uuid) (utc t) c reason counts (s, w))
    unfolding give_up
    give_up-Concluded reason fine = (
      record counts { failed = counts.failed + 1 },
      set_failed reason t,
      bind_ok (on_store ((in_memory uuid).failed c reason (utc t)))
          (λ done. pure (record counts { failed = counts.failed + int done }))
          (on_store_ok ((in_memory uuid).failed c reason (utc t)) w
            (failed_settles t c item s reason h fine)),
      omega arith,
    )

    try_again-Concluded :
        Concluded c counts item s w
          (try_again floats policy (in_memory uuid) (utc t) c counts (s, w))
    unfolding try_again retry
    try_again-Concluded =
        let (d, e) = delay_some floats policy c.envelope.attempt in
        (
          record counts { retried = counts.retried + 1 },
          set_retried (t + d),
          rw e (
              bind_ok (on_store ((in_memory uuid).retry c (utc (t + d))))
                (λ done. pure (record counts { retried = counts.retried + int done }))
                (on_store_ok ((in_memory uuid).retry c (utc (t + d))) w
                  (settle-valid (set_retried (t + d)) c s item h))),
          omega arith,
        )

    pub conclude-Concluded :
        (result : DeliveryResult)
        → is_reasoned result ≡ true
        → Concluded c counts item s w
            (conclude floats policy (in_memory uuid) (utc t) c counts result (s, w))
    unfolding conclude delivered
    conclude-Concluded DeliveryResult.delivered fine = (
      record counts { delivered = counts.delivered + 1 },
      set_delivered t,
      bind_ok (on_store ((in_memory uuid).delivered c (utc t)))
          (λ done. pure (record counts { delivered = counts.delivered + int done }))
          (on_store_ok ((in_memory uuid).delivered c (utc t)) w
            (settle-valid (set_delivered t) c s item h)),
      omega arith,
    )
    conclude-Concluded (DeliveryResult.permanent_failure reason) fine =
        give_up-Concluded reason (ground (arith, fine))
    conclude-Concluded (DeliveryResult.retryable reason) fine =
        elim (Bool-cases (ltb (c.envelope.attempt + 1) policy.max_attempts)) [
          | inl more ↦ rw more try_again-Concluded
          | inr last ↦ rw last (give_up-Concluded reason (ground (arith, fine)))
        ]
