-- ===== src/Receipts/Store.antt =====
-- `InMemoryReceiptStore` and `ReceiptReconciler`, src/pytitect/receipts.py. Each method of the
-- store holds the lock where it reads and writes; `transition` tests its arguments before.
use pytitect.Prelude.{
  ℕ, String, Bool, true, false, ◌&&◌, ◌||◌, not, Option, none, some, List, [], ◌∷◌, leb, ltb,
  if◌then◌else◌, length, Eq, ◌==◌, ℕ_eq, String_eq, option_eq, is_some, Action, Result, ok, err,
  value_error, overflow_error, Datetime, utc, instant,
}
use pytitect.Prelude.Dict.{Dict, get, put, contains, elem}
use pytitect.Prelude.Sorting.{str_leb, key_then}
use pytitect.Maintenance.{UncertainPlan, MaintenanceSummary, select, remaining, report}
use pytitect.Receipts.Types.{
  ReceiptState, state_eq, completed, rejected, conflicted, uncertain, kind_eq, Receipt, receipt_eq,
  TransitionResult, receipt_transitioned, invalid_transition, post_init, transition,
}

pub record ReceiptStore (R M : Type 0) : Type 0 where
  pub capacity : ℕ
  pub receipts : Dict String (Receipt R M)

-- What `ReceiptReconciler.reconcile` answers.
pub data ReconciliationResult (R M : Type 0) : Type 0 where
  confirmed_completed confirmed_rejected confirmed_conflicted :
      Receipt R M → ReconciliationResult R M
  still_uncertain : Option (Receipt R M) → String → ReconciliationResult R M

-- The terminal states that a reconciliation may end in.
abbrev pub confirmed_states : List ReceiptState
confirmed_states = completed ∷ rejected ∷ conflicted ∷ []

-- The states that `purge` may remove.
abbrev pub terminal : Bool → List ReceiptState
terminal include_uncertain =
    if include_uncertain then uncertain ∷ confirmed_states else confirmed_states

module _ {R M : Type 0} where
  -- `InMemoryReceiptStore(capacity=...)`
  unfoldable pub new : ℕ → Result (ReceiptStore R M)
  new capacity =
      if capacity == 0 then err value_error else ok (record { capacity = capacity; receipts = [] })

  unfoldable pub load : String → ReceiptStore R M → Option (Receipt R M)
  load receipt_id s = get receipt_id s.receipts

  unfoldable pub add : Receipt R M → Action (ReceiptStore R M) Bool
  add receipt s =
      if contains receipt.receipt_id s.receipts
      then (ok false, s)
      else if leb s.capacity (length s.receipts)
      then (err overflow_error, s)
      else (ok true, record s { receipts = put receipt.receipt_id receipt s.receipts })

  abbrev pub is_purgeable : UncertainPlan → String × Receipt R M → Bool
  is_purgeable plan (i, r) =
      elem r.state (terminal plan.include_uncertain) && leb r.updated_at plan.cutoff

  abbrev pub touched_at : String × Receipt R M → ℕ
  touched_at (i, r) = r.updated_at

  abbrev pub id_leb : String × Receipt R M → String × Receipt R M → Bool
  id_leb (i, r) (j, q) = str_leb r.receipt_id q.receipt_id

  abbrev pub purgeable : UncertainPlan → ReceiptStore R M → Dict String (Receipt R M)
  purgeable plan s =
      select (key_then touched_at id_leb) (is_purgeable plan) plan.batch_size s.receipts

  -- A receipt stands under its own ID, so that to pop the selected receipts' IDs is to pop the keys.
  unfoldable pub purge : UncertainPlan → Action (ReceiptStore R M) MaintenanceSummary
  purge plan s =
      let selected = purgeable plan s in
      (
        report plan.dry_run (length selected),
        record s { receipts = remaining plan.dry_run selected s.receipts },
      )

module _ {R M : Type 0} ⦃er : Eq R⦄ ⦃em : Eq M⦄ where
  -- The store under the lock: replace the receipt if it is still the one given.
  unfoldable pub swap : Receipt R M → Receipt R M → Action (ReceiptStore R M) Bool
  swap receipt target s =
      if get receipt.receipt_id s.receipts == some receipt
      then (ok true, record s { receipts = put receipt.receipt_id target s.receipts })
      else (ok false, s)

  unfoldable pub swap_proposed :
      Result (TransitionResult R M) → Receipt R M → Receipt R M → Action (ReceiptStore R M) Bool
  unfolding swap
  swap_proposed (err e) receipt target s = (err e, s)
  swap_proposed (ok (invalid_transition from to reason)) receipt target s = (ok false, s)
  swap_proposed (ok (receipt_transitioned proposed)) receipt target s =
      if not (proposed == target) then (ok false, s) else swap receipt target s

  -- `InMemoryReceiptStore.transition`
  unfoldable pub store_transition :
      (M → ℕ) → Receipt R M → Receipt R M → Action (ReceiptStore R M) Bool
  unfolding swap_proposed
  store_transition len receipt target s =
      swap_proposed (transition len receipt target.state (utc target.updated_at) target.result)
        receipt target s

  -- `_valid_reconciliation`
  unfoldable pub valid_reconciliation : Receipt R M → Receipt R M → Bool
  valid_reconciliation receipt target =
      (receipt.state == uncertain)
      && elem target.state confirmed_states
      && (target.receipt_id == receipt.receipt_id)
      && (target.kind == receipt.kind)
      && (target.created_at == receipt.created_at)
      && leb receipt.updated_at target.updated_at
      && (target.metadata == receipt.metadata)
      && (not (target.state == completed) || is_some target.result)

  unfoldable pub reconcile_uncertain : Receipt R M → Receipt R M → Action (ReceiptStore R M) Bool
  unfolding valid_reconciliation swap
  reconcile_uncertain receipt target s =
      if not (valid_reconciliation receipt target) then (ok false, s) else swap receipt target s

  -- The three classes of a confirmation.
  abbrev pub confirmation : ReceiptState → Receipt R M → ReconciliationResult R M
  confirmation target r =
      if target == completed
      then confirmed_completed r
      else if target == rejected
      then confirmed_rejected r
      else confirmed_conflicted r

  abbrev pub confirm_swap :
      ReceiptState
      → String
      → Receipt R M
      → Result Bool × ReceiptStore R M
      → Result (ReconciliationResult R M) × ReceiptStore R M
  confirm_swap target receipt_id r (err e, s) = (err e, s)
  confirm_swap target receipt_id r (ok false, s) =
      (ok (still_uncertain (load receipt_id s) "receipt changed concurrently"), s)
  confirm_swap target receipt_id r (ok true, s) = (ok (confirmation target r), s)

  abbrev pub reconcile_to :
      ReceiptState
      → String
      → Receipt R M
      → Result (Receipt R M)
      → Action (ReceiptStore R M) (ReconciliationResult R M)
  reconcile_to target receipt_id current (err e) s = (err e, s)
  reconcile_to target receipt_id current (ok reconciled) s =
      confirm_swap target receipt_id reconciled (reconcile_uncertain current reconciled s)

  unfoldable pub reconcile_current :
      (M → ℕ)
      → Option (Receipt R M)
      → String
      → ReceiptState
      → ℕ
      → Option R
      → Action (ReceiptStore R M) (ReconciliationResult R M)
  unfolding reconcile_uncertain load
  reconcile_current len none receipt_id target t result s =
      (ok (still_uncertain none "receipt is absent or no longer uncertain"), s)
  reconcile_current len (some current) receipt_id target t result s =
      if not (current.state == uncertain)
      then (ok (still_uncertain (some current) "receipt is absent or no longer uncertain"), s)
      else if ltb t current.updated_at
      then (ok (still_uncertain (some current) "reconciliation timestamp moved backwards"), s)
      else if (target == completed) && not (is_some result)
      then (err value_error, s)
      else reconcile_to target receipt_id current
          (post_init len (record current { state = target; updated_at = t; result = result })) s

  abbrev pub reconcile_at :
      (M → ℕ)
      → Result ℕ
      → String
      → ReceiptState
      → Option R
      → Action (ReceiptStore R M) (ReconciliationResult R M)
  reconcile_at len (err e) receipt_id target result s = (err e, s)
  reconcile_at len (ok t) receipt_id target result s =
      if not (elem target confirmed_states)
      then (err value_error, s)
      else reconcile_current len (load receipt_id s) receipt_id target t result s

  -- `ReceiptReconciler(store).reconcile(receipt_id, target, at=..., result=...)`, where nothing
  -- runs between its calls of the in-memory store
  unfoldable pub reconcile :
      (M → ℕ)
      → String
      → ReceiptState
      → Datetime
      → Option R
      → Action (ReceiptStore R M) (ReconciliationResult R M)
  unfolding reconcile_current
  reconcile len receipt_id target at result s =
      reconcile_at len (instant at) receipt_id target result s
