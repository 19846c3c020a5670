-- ===== src/Outbox/Maintain.antt =====
-- `purge_delivered` and `archive_failed` of src/pytitect/outbox.py. The archive is any callable, with
-- a world of its own; a raise of it leaves the items where they are.
use pytitect.Prelude.{
  ℕ, String, Bool, false, ◌&&◌, ◌≡◌, refl, ◌⊎◌, inl, inr, if_either, Option, none, some, List, [],
  ◌∷◌, leb, if◌then◌else◌, length, String_eq, is_some, or_else, Action, Result, ok, err,
}
use pytitect.Prelude.Dict.{Dict}
use pytitect.Prelude.Sorting.{key_then}
use pytitect.Maintenance.{Plan, MaintenanceSummary, select, remaining, report}
use pytitect.Outbox.Types.{FailedOutboxEnvelope, failed_envelope, Stored}
use pytitect.Outbox.Store.{OutboxStore, id_leb}

-- `value is not None and value <= cutoff`
abbrev pub is_past : Option ℕ → ℕ → Bool
is_past none cutoff = false
is_past (some t) cutoff = leb t cutoff

module _ {P : Type 0} where
  -- The sort keys of selected items, which have a time.
  abbrev pub delivered_time : String × Stored P → ℕ
  delivered_time item = or_else item.1.delivered_at 0

  abbrev pub failed_time : String × Stored P → ℕ
  failed_time item = or_else item.1.failed_at 0

  abbrev pub is_purgeable : Plan → String × Stored P → Bool
  is_purgeable plan item = is_past item.1.delivered_at plan.cutoff

  abbrev pub is_archivable : Plan → String × Stored P → Bool
  is_archivable plan item = is_some item.1.failure_reason && is_past item.1.failed_at plan.cutoff

  unfoldable pub purgeable : Plan → OutboxStore P → Dict String (Stored P)
  purgeable plan s =
      select (key_then delivered_time id_leb) (is_purgeable plan) plan.batch_size s.items

  unfoldable pub archivable : Plan → OutboxStore P → Dict String (Stored P)
  archivable plan s =
      select (key_then failed_time id_leb) (is_archivable plan) plan.batch_size s.items

  unfoldable pub purge_delivered : Plan → Action (OutboxStore P) MaintenanceSummary
  unfolding purgeable
  purge_delivered plan s =
      let selected = purgeable plan s in
      (
        report plan.dry_run (length selected),
        record s { items = remaining plan.dry_run selected s.items },
      )

  -- `tuple(FailedOutboxEnvelope(...) for item in selected)`
  unfoldable pub failed_envelopes :
      List (String × Stored P) → Result (List (FailedOutboxEnvelope P))
  failed_envelopes [] = ok []
  failed_envelopes ((i, item) ∷ rest) =
      elim (failed_envelope item.envelope (or_else item.failure_reason "")
        (or_else item.failed_at 0)) [
          | err e ↦ err e
          | ok x ↦ elim (failed_envelopes rest) [ err e ↦ err e | ok xs ↦ ok (x ∷ xs) ]
        ]

  -- After the archive has returned, or raised.
  unfoldable pub pop_archived :
      {W : Type 0}
      → Plan
      → Dict String (Stored P)
      → OutboxStore P
      → Result (Unit {0}) × W
      → Result MaintenanceSummary × (OutboxStore P × W)
  pop_archived plan selected s (err e, w) = (err e, (s, w))
  pop_archived plan selected s (ok u, w) = (
    report plan.dry_run (length selected),
    (record s { items = remaining false selected s.items }, w),
  )

  module _ {W : Type 0} (archive : List (FailedOutboxEnvelope P) → Action W (Unit {0})) where
    unfoldable pub archive_envelopes :
        Plan
        → Dict String (Stored P)
        → Result (List (FailedOutboxEnvelope P))
        → Action (OutboxStore P × W) MaintenanceSummary
    unfolding pop_archived
    archive_envelopes plan selected (err e) (s, w) = (err e, (s, w))
    archive_envelopes plan selected (ok xs) (s, w) = pop_archived plan selected s (archive xs w)

    unfoldable pub archive_selected :
        Plan → Dict String (Stored P) → Action (OutboxStore P × W) MaintenanceSummary
    unfolding failed_envelopes archive_envelopes
    archive_selected plan [] sw = (report plan.dry_run 0, sw)
    archive_selected plan (item ∷ rest) sw =
        if plan.dry_run
        then (report plan.dry_run (length (item ∷ rest)), sw)
        else archive_envelopes plan (item ∷ rest) (failed_envelopes (item ∷ rest)) sw

    -- `archive_failed(plan, archive)`
    unfoldable pub archive_failed : Plan → Action (OutboxStore P × W) MaintenanceSummary
    unfolding archivable archive_selected
    archive_failed plan sw = archive_selected plan (archivable plan sw.0) sw

    pop_archived-store :
        (plan : Plan) (selected : Dict String (Stored P)) (s : OutboxStore P)
        (r : Result (Unit {0}) × W)
        → ((pop_archived plan selected s r).1.0 ≡ s)
          ⊎ ((pop_archived plan selected s r).1.0
              ≡ record s { items = remaining false selected s.items })
    unfolding pop_archived
    pop_archived-store plan selected s (err e, w) = inl refl
    pop_archived-store plan selected s (ok u, w) = inr refl

    archive_envelopes-store :
        (plan : Plan) (selected : Dict String (Stored P)) (s : OutboxStore P) (w : W)
        (r : Result (List (FailedOutboxEnvelope P)))
        → ((archive_envelopes plan selected r (s, w)).1.0 ≡ s)
          ⊎ ((archive_envelopes plan selected r (s, w)).1.0
              ≡ record s { items = remaining false selected s.items })
    unfolding archive_envelopes
    archive_envelopes-store plan selected s w (err e) = inl refl
    archive_envelopes-store plan selected s w (ok xs) =
        pop_archived-store plan selected s (archive xs w)

    archive_selected-store :
        (plan : Plan) (selected : Dict String (Stored P)) (s : OutboxStore P) (w : W)
        → ((archive_selected plan selected (s, w)).1.0 ≡ s)
          ⊎ ((archive_selected plan selected (s, w)).1.0
              ≡ record s { items = remaining false selected s.items })
    unfolding archive_selected
    archive_selected-store plan [] s w = inl refl
    archive_selected-store plan (item ∷ rest) s w =
        if_either
          (λ (r : Result MaintenanceSummary × (OutboxStore P × W)).
            (r.1.0 ≡ s) ⊎ (r.1.0 ≡ record s { items = remaining false (item ∷ rest) s.items }))
          plan.dry_run (inl refl)
          (archive_envelopes-store plan (item ∷ rest) s w (failed_envelopes (item ∷ rest)))

    -- An archive leaves the items, or takes out those that it selected.
    pub archive_failed-store :
        (plan : Plan) (s : OutboxStore P) (w : W)
        → ((archive_failed plan (s, w)).1.0 ≡ s)
          ⊎ ((archive_failed plan (s, w)).1.0
              ≡ record s { items = remaining false (archivable plan s) s.items })
    unfolding archive_failed
    archive_failed-store plan s w = (archive_selected-store plan (archivable plan s) s w)
