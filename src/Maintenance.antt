-- ===== src/Maintenance.antt =====
-- Finite retention plans and their summaries, src/pytitect/maintenance.py, and the one shape that
-- the `purge` methods of the in-memory stores share.
pub mod Selection
pub mod Effect
pub mod Oldest
use pytitect.Prelude.{
  ℕ, zero, ◌+◌, ◌≤◌, Bool, true, false, ◌&&◌, ◌||◌, not, List, Eq, ltb, leb, eqb, if◌then◌else◌,
  length, take, filter, Result, ok, err, value_error, ◌>>=◌, Datetime, instant, Action,
}
use pytitect.Prelude.Dict.{Dict, pop_all, keys}
use pytitect.Prelude.Sorting.{sorted}

pub record MaintenanceSummary : Type 0 where
  pub selected : ℕ
  pub affected : ℕ
  pub dry_run : Bool

-- `MaintenanceSummary(selected, affected, dry_run)`
unfoldable pub summary : ℕ → ℕ → Bool → Result MaintenanceSummary
summary selected affected dry_run =
    if ltb selected affected
    then err value_error
    else if dry_run && not (eqb affected 0)
    then err value_error
    else ok (record { selected = selected; affected = affected; dry_run = dry_run })

-- `_MaintenancePlan` and the plans that add nothing to it
pub record Plan : Type 0 where
  pub cutoff : ℕ
  pub batch_size : ℕ
  pub dry_run : Bool

plan_at : ℕ → Bool → Result ℕ → Result Plan
plan_at batch_size dry_run (err e) = err e
plan_at batch_size dry_run (ok t) =
    if eqb batch_size 0
    then err value_error
    else ok (record { cutoff = t; batch_size = batch_size; dry_run = dry_run })

-- `_MaintenancePlan(cutoff, batch_size, dry_run)`
unfoldable pub plan : Datetime → ℕ → Bool → Result Plan
unfolding plan_at
plan cutoff batch_size dry_run = plan_at batch_size dry_run (instant cutoff)

-- `PurgeIdempotencyPlan` and `PurgeReceiptsPlan`
pub record UncertainPlan : Type 0 where
  pub base : Plan
  pub open base use *
  pub include_uncertain : Bool

module _ {ℓ κ} {K : Type ℓ} {V : Type κ} ⦃e : Eq K⦄ where
  -- `sorted((item for item in items if p(item)), key=...)[:batch_size]`
  unfoldable pub select : (K × V → K × V → Bool) → (K × V → Bool) → ℕ → Dict K V → Dict K V
  select leq p batch_size d = take batch_size (sorted leq (filter p d))

  -- What is left once the selected keys are popped, unless the plan is a dry run.
  unfoldable pub remaining : Bool → Dict K V → Dict K V → Dict K V
  remaining dry_run selected d = if dry_run then d else pop_all (keys selected) d

-- `MaintenanceSummary(len(selected), 0 if plan.dry_run else len(selected), plan.dry_run)`
unfoldable pub report : Bool → ℕ → Result MaintenanceSummary
unfolding summary
report dry_run selected = summary selected (if dry_run then 0 else selected) dry_run
