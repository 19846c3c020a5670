-- ===== src/Receipts/Reconciliation.antt =====
-- What `ReceiptReconciler.reconcile` does on the in-memory store.
use pytitect.Prelude.{
  if◌then◌else◌, sym, ap, ◌∙◌, ℕ, String, true, false, ◌≡◌, ◌≢◌, ◌≤◌, refl, Option, none, some, Eq,
  ◌==◌, arith, ◌&&◌, ==_refl, ltb, String_eq, option_eq, not, ok, utc, is_some,
}
use pytitect.Prelude.Dict.{get, put, elem, get-put}
use pytitect.Receipts.Types.{
  ReceiptState, state_eq, state_beq_iff, kind_eq, kind_beq_iff, uncertain, completed, Receipt,
  receipt_eq, post_init,
}
use pytitect.Receipts.Store.{
  ReceiptStore, confirmation, swap, valid_reconciliation, reconcile_uncertain, reconcile_current,
  reconcile, load, confirmed_states,
}
use pytitect.Receipts.Transitions.{IsReceipt}
use pytitect.Receipts.Calls.{IsValid}

module _ {R M : Type 0} ⦃er : Eq R⦄ ⦃em : Eq M⦄ (len : M → ℕ) where
  reconciled_valid :
      (a : Receipt R M) (target : ReceiptState) (t : ℕ) (result : Option R)
      → a.state ≡ uncertain
      → elem target confirmed_states ≡ true
      → a.updated_at ≤ t
      → (target ≡ completed → result ≢ none)
      → valid_reconciliation a (record a { state = target; updated_at = t; result = result }) ≡ true
  unfolding valid_reconciliation
  reconciled_valid a target t result is_uncertain confirmed later has_result = ground (
    arith,
    state_beq_iff target completed,
    state_beq_iff a.state uncertain,
    kind_beq_iff a.kind a.kind,
    String_eq.beq_iff a.receipt_id a.receipt_id,
    em.beq_iff a.metadata a.metadata,
    is_uncertain,
    confirmed,
    later,
    has_result,
  )

  reconciled_swap :
      (a target : Receipt R M) (s : ReceiptStore R M)
      → valid_reconciliation a target ≡ true
      → get a.receipt_id s.receipts ≡ some a
      → reconcile_uncertain a target s
        ≡ (ok true, record s { receipts = put a.receipt_id target s.receipts })
  unfolding reconcile_uncertain swap
  reconciled_swap a target s valid h =
      rw (valid, h, ==_refl {A = Option (Receipt R M)} (some a)) refl

  reconciled_post_init :
      (a : Receipt R M) (target : ReceiptState) (t : ℕ) (result : Option R)
      → IsReceipt len a
      → a.updated_at ≤ t
      → let settled = record a { state = target; updated_at = t; result = result } in
        post_init len settled ≡ ok settled
  unfolding post_init
  reconciled_post_init a target t result w later = ground (arith, w.ordered, w.small, later)

  reconciled_current :
      (target : ReceiptState) (t : ℕ) (result : Option R) (s : ReceiptStore R M) (a : Receipt R M)
      → IsReceipt len a
      → get a.receipt_id s.receipts ≡ some a
      → a.state ≡ uncertain
      → elem target confirmed_states ≡ true
      → a.updated_at ≤ t
      → (target ≡ completed → result ≢ none)
      → let settled = record a { state = target; updated_at = t; result = result } in
        reconcile_current len (some a) a.receipt_id target t result s ≡ (
          ok (confirmation target settled),
          record s { receipts = put a.receipt_id settled s.receipts },
        )
  unfolding reconcile_current
  reconciled_current target t result s a w h is_uncertain confirmed later has_result =
      let settled : Receipt R M = record a { state = target; updated_at = t; result = result } in
      let valid : valid_reconciliation a settled ≡ true =
        reconciled_valid a target t result is_uncertain confirmed later has_result in
      let open_ : (a.state == uncertain) ≡ true =
        (state_beq_iff a.state uncertain).1 is_uncertain in
      let in_order : ltb t a.updated_at ≡ false = ground (arith, later) in
      let complete : ((target == completed) && not (is_some result)) ≡ false =
        ground (arith, state_beq_iff target completed, has_result) in
      rw
        (
          open_,
          in_order,
          complete,
          reconciled_post_init a target t result w later,
          reconciled_swap a settled s valid h,
        )
        refl

  reconciled :
      (target : ReceiptState) (t : ℕ) (result : Option R) (s : ReceiptStore R M) (a : Receipt R M)
      → IsReceipt len a
      → get a.receipt_id s.receipts ≡ some a
      → a.state ≡ uncertain
      → elem target confirmed_states ≡ true
      → a.updated_at ≤ t
      → (target ≡ completed → result ≢ none)
      → let settled = record a { state = target; updated_at = t; result = result } in
        reconcile len a.receipt_id target (utc t) result s ≡ (
          ok (confirmation target settled),
          record s { receipts = put a.receipt_id settled s.receipts },
        )
  unfolding reconcile load
  reconciled target t result s a w h is_uncertain confirmed later has_result =
      rw
        (
          confirmed,
          h,
          reconciled_current target t result s a w h is_uncertain confirmed later has_result,
        )
        refl

  -- An uncertain receipt of a well-formed store, reconciled at an instant not before its last
  -- update to a confirmed state, with a result if that is `completed`: the answer is the
  -- confirmation of that state with the new receipt, which the store holds from then on, and no
  -- other receipt of the store changes.
  pub reconcile_settles :
      (receipt_id : String) (target : ReceiptState) (t : ℕ) (result : Option R)
      (s : ReceiptStore R M) (a : Receipt R M) (j : String)
      → IsValid s
      → IsReceipt len a
      → get receipt_id s.receipts ≡ some a
      → a.state ≡ uncertain
      → elem target confirmed_states ≡ true
      → a.updated_at ≤ t
      → (target ≡ completed → result ≢ none)
      → let settled = record a { state = target; updated_at = t; result = result } in
        let r = reconcile len receipt_id target (utc t) result s in
        (r.0 ≡ ok (confirmation target settled))
        × (get j r.1.receipts ≡ (if receipt_id == j then some settled else get j s.receipts))
  reconcile_settles receipt_id target t result s a j v w h is_uncertain confirmed later has_result =
      let settled : Receipt R M = record a { state = target; updated_at = t; result = result } in
      let same : a.receipt_id ≡ receipt_id = v.keyed receipt_id a h in
      let own : get a.receipt_id s.receipts ≡ some a = ap (λ i. get i s.receipts) same ∙ h in
      rw (sym same, reconciled target t result s a w own is_uncertain confirmed later has_result)
        (refl, get-put s.receipts a.receipt_id j settled)
