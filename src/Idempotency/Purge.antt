-- ===== src/Idempotency/Purge.antt =====
-- `purge` of the in-memory idempotency store, under a retention plan.
use pytitect.Prelude.{
  ℕ, Bool, ◌&&◌, ◌||◌, not, leb, if◌then◌else◌, length, ◌==◌, ℕ_eq, String_eq, pair_eq, Action,
}
use pytitect.Prelude.Dict.{Dict, keys}
use pytitect.Prelude.Sorting.{str_leb, then_by, key_then}
use pytitect.Maintenance.{UncertainPlan, MaintenanceSummary, select, report}
use pytitect.Idempotency.Types.{scope_eq, Identity, EntryState, is_state, Entry, Store}
use pytitect.Idempotency.Reserve.{drop_all}

module _ {T : Type 0} where
  -- The test and the order of `purge`.
  abbrev pub is_purgeable : UncertainPlan → Identity × Entry T → Bool
  is_purgeable plan (i, entry) =
      leb entry.expires_at plan.cutoff
      && (not (is_state entry.state EntryState.uncertain) || plan.include_uncertain)

  abbrev pub expiry : Identity × Entry T → ℕ
  expiry (i, entry) = entry.expires_at

  abbrev pub identity_leb : Identity × Entry T → Identity × Entry T → Bool
  identity_leb ((a, k), x) ((b, j), y) =
      then_by (not (str_leb b.namespace a.namespace)) (a.namespace == b.namespace) (
        then_by (not (str_leb b.subject a.subject)) (a.subject == b.subject) (
          then_by (not (str_leb b.operation a.operation)) (a.operation == b.operation)
            (str_leb k j)))

  abbrev pub purgeable : UncertainPlan → Store T → Dict Identity (Entry T)
  purgeable plan s =
      select (key_then expiry identity_leb) (is_purgeable plan) plan.batch_size s.entries

  unfoldable pub purge : UncertainPlan → Action (Store T) MaintenanceSummary
  unfolding drop_all
  purge plan s =
      let selected = purgeable plan s in
      (
        report plan.dry_run (length selected),
        if plan.dry_run then s else drop_all (keys selected) s,
      )
