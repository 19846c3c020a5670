-- ===== src/Receipts/Calls.antt =====
-- The methods of the receipt store that change it, as data, and the store's well-formedness.
use pytitect.Prelude.{
  Result, ◌⊎◌, ℕ, ◌≤◌, String, Bool, ◌≡◌, some, List, [], ◌∷◌, Eq, ◌==◌, arith, length, leb,
  String_eq, option_eq, option_beq_iff, inl, inr, Bool-cases,
}
use pytitect.Prelude.Dict.{get, contains, get-put, IsUnique, put-IsUnique, length-put}
use pytitect.Prelude.Sorting.{key_then}
use pytitect.Maintenance.{UncertainPlan}
use pytitect.Maintenance.Effect.{remaining-IsUnique, length-remaining-le, remaining_or_gone}
use pytitect.Receipts.Types.{Receipt, receipt_eq}
use pytitect.Receipts.Store.{
  ReceiptStore, swap, swap_proposed, store_transition, valid_reconciliation, reconcile_uncertain,
  purgeable, is_purgeable, touched_at, id_leb,
}
use pytitect.Receipts.Store
use pytitect.Receipts.Transitions.{Moves, store_transition-cases, reconcile_uncertain-cases}

pub data Call (R M : Type 0) : Type 0 where
  add : Receipt R M → Call R M
  transition : Receipt R M → Receipt R M → Call R M
  reconcile : Receipt R M → Receipt R M → Call R M
  purge : UncertainPlan → Call R M

-- At most `capacity` receipts, each under its own ID.
pub record IsValid {R M : Type 0} (s : ReceiptStore R M) : Type 0 where
  pub fits : length s.receipts ≤ s.capacity
  pub unique : IsUnique s.receipts
  pub keyed : (i : String) (r : Receipt R M) → get i s.receipts ≡ some r → r.receipt_id ≡ i

module _ {R M : Type 0} ⦃er : Eq R⦄ ⦃em : Eq M⦄ (len : M → ℕ) where
  -- The store after a call, whether it returned or raised.
  unfoldable pub perform : Call R M → ReceiptStore R M → ReceiptStore R M
  perform (add r) s = (Store.add r s).1
  perform (transition r target) s = (store_transition len r target s).1
  perform (reconcile r target) s = (reconcile_uncertain r target s).1
  perform (purge plan) s = (Store.purge plan s).1

  unfoldable pub perform_all : List (Call R M) → ReceiptStore R M → ReceiptStore R M
  unfolding perform
  perform_all [] s = s
  perform_all (c ∷ cs) s = perform_all cs (perform c s)

  add-IsValid : (r : Receipt R M) (s : ReceiptStore R M) → IsValid s → IsValid (Store.add r s).1
  unfolding Store.add
  add-IsValid r s v = elim (Bool-cases (contains r.receipt_id s.receipts)) [
    | inl there ↦ rw there v
    | inr absent ↦ elim (Bool-cases (leb s.capacity (length s.receipts))) [
      | inl full ↦ rw (absent, full) v
      | inr room ↦
          rw (absent, room)
            (record {
              fits = ground (arith, length-put s.receipts r.receipt_id r);
              unique = put-IsUnique s.receipts r.receipt_id r v.unique;
              keyed = λ i q h. ground (
                arith,
                get-put s.receipts r.receipt_id i r,
                String_eq.beq_iff r.receipt_id i,
                v.keyed i q,
              );
            })
    ]
  ]

  swap-IsValid :
      (r target : Receipt R M) (s : ReceiptStore R M)
      → target.receipt_id ≡ r.receipt_id
      → IsValid s
      → IsValid (swap r target s).1
  unfolding swap
  swap-IsValid r target s same v = elim (Bool-cases (get r.receipt_id s.receipts == some r)) [
    | inr stale ↦ rw stale v
    | inl current ↦ rw current (record {
      fits = ground (
        arith,
        length-put s.receipts r.receipt_id target,
        v.fits,
        option_beq_iff (get r.receipt_id s.receipts) (some r),
      );
      unique = put-IsUnique s.receipts r.receipt_id target v.unique;
      keyed = λ i q h. ground (
        arith,
        get-put s.receipts r.receipt_id i target,
        String_eq.beq_iff r.receipt_id i,
        v.keyed i q,
      );
    })
  ]

  purge-IsValid :
      (plan : UncertainPlan) (s : ReceiptStore R M) → IsValid s → IsValid (Store.purge plan s).1
  unfolding Store.purge
  purge-IsValid plan s v =
      let leq = key_then touched_at id_leb in
      record {
        fits = omega (
          arith,
          length-remaining-le leq (is_purgeable plan) plan.batch_size s.receipts plan.dry_run,
          v.fits,
        );
        unique =
            remaining-IsUnique leq (is_purgeable plan) plan.batch_size s.receipts plan.dry_run
              v.unique;
        keyed = λ i q h. v.keyed i q (
            remaining_or_gone leq (is_purgeable plan) plan.batch_size s.receipts plan.dry_run i q
              h);
      }

  moved-IsValid :
      (r target : Receipt R M) (s : ReceiptStore R M) (m : Result Bool × ReceiptStore R M)
      → (m.1 ≡ s) ⊎ (Moves r target × (m ≡ swap r target s))
      → IsValid s
      → IsValid m.1
  moved-IsValid r target s m (inl same) v = rw same v
  moved-IsValid r target s m (inr (moves, h)) v = rw h (swap-IsValid r target s moves.receipt_id v)

  -- Every call, whether it returns or raises, keeps the receipt store well formed: at most
  -- `capacity` receipts, each under its own ID.
  pub perform_receipt-IsValid :
      (c : Call R M) (s : ReceiptStore R M) → IsValid s → IsValid (perform c s)
  unfolding perform
  perform_receipt-IsValid (add r) s v = add-IsValid r s v
  perform_receipt-IsValid (transition r target) s v =
      moved-IsValid r target s (store_transition len r target s)
        (store_transition-cases len r target s) v
  perform_receipt-IsValid (reconcile r target) s v =
      moved-IsValid r target s (reconcile_uncertain r target s)
        (reconcile_uncertain-cases r target s) v
  perform_receipt-IsValid (purge plan) s v = purge-IsValid plan s v
