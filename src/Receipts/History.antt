-- ===== src/Receipts/History.antt =====
-- What sequences of calls do to one receipt.
use pytitect.Prelude.{
  ℕ, String, Bool, true, false, ◌≡◌, ◌≢◌, ap, ◌⊎◌, inl, inr, refl, Option, none, some, List, [],
  ◌∷◌, Eq, ◌==◌, arith, Result, leb, ◌&&◌, String_eq, option_eq, option_beq_iff, Bool-cases,
  Option-cases, All,
}
use pytitect.Prelude.Dict.{get, elem, get-put}
use pytitect.Prelude.Sorting.{key_then}
use pytitect.Maintenance.Effect.{remaining_kept, remaining_or_gone}
use pytitect.Maintenance.{UncertainPlan, remaining}
use pytitect.Receipts.Types.{ReceiptState, state_eq, Receipt, receipt_eq, transitions}
use pytitect.Receipts.Store.{
  ReceiptStore, swap, store_transition, reconcile_uncertain, terminal, confirmed_states, purgeable,
  is_purgeable, touched_at, id_leb,
}
use pytitect.Receipts.Store
use pytitect.Receipts.Transitions.{
  Moves, store_transition-cases, reconcile_uncertain-cases, is_move,
}
use pytitect.Receipts.Calls.{
  Call, add, transition, reconcile, purge, perform, perform_all, IsValid, perform_receipt-IsValid,
}

-- What a call may make of a receipt: nothing new, an allowed move, or, if it is in a terminal
-- state, its removal.
abbrev pub IsNext : {R M : Type 0} → Receipt R M → Option (Receipt R M) → Type 0
IsNext a (some b) = (b ≡ a) ⊎ Moves a b
IsNext a none = elem a.state (terminal true) ≡ true

was_terminal :
    (a : ReceiptState) (include_uncertain old : Bool)
    → (elem a (terminal include_uncertain) && old) ≡ true
    → elem a (terminal true) ≡ true
was_terminal a true old h = ground (arith, h)
was_terminal a false old h = ground (arith, h)

confirmed_final : (a b : ReceiptState) → elem a confirmed_states ≡ true → is_move a b ≡ true → ⊥
unfolding transitions
confirmed_final ReceiptState.accepted b h m = ground arith
confirmed_final ReceiptState.processing b h m = ground arith
confirmed_final ReceiptState.completed b h m = ground arith
confirmed_final ReceiptState.rejected b h m = ground arith
confirmed_final ReceiptState.conflicted b h m = ground arith
confirmed_final ReceiptState.uncertain b h m = ground arith

module _ {R M : Type 0} ⦃er : Eq R⦄ ⦃em : Eq M⦄ (len : M → ℕ) where
  swap-IsNext :
      (r target a : Receipt R M) (s : ReceiptStore R M) (i : String)
      → IsValid s
      → Moves r target
      → get i s.receipts ≡ some a
      → IsNext a (get i (swap r target s).1.receipts)
  unfolding swap
  swap-IsNext r target a s i v moves h = elim (Bool-cases (get r.receipt_id s.receipts == some r)) [
    | inr stale ↦ rw (stale, h) (inl refl)
    | inl current ↦ elim (Bool-cases (r.receipt_id == i)) [
      | inr other_id ↦
          rw (current, get-put s.receipts r.receipt_id i target, other_id, h) (inl refl)
      | inl same_id ↦
          let same : a ≡ r = ground (
            arith,
            option_beq_iff (get r.receipt_id s.receipts) (some r),
            String_eq.beq_iff r.receipt_id i,
            h,
            current,
            same_id,
          ) in
          rw (current, get-put s.receipts r.receipt_id i target, same_id, same) (inr moves)
    ]
  ]

  moved-IsNext :
      (r target a : Receipt R M) (s : ReceiptStore R M) (i : String)
      (m : Result Bool × ReceiptStore R M)
      → IsValid s
      → (m.1 ≡ s) ⊎ (Moves r target × (m ≡ swap r target s))
      → get i s.receipts ≡ some a
      → IsNext a (get i m.1.receipts)
  moved-IsNext r target a s i m v (inl same) h = rw (same, h) (inl refl)
  moved-IsNext r target a s i m v (inr (moves, e)) h = rw e (swap-IsNext r target a s i v moves h)

  add-IsNext :
      (r a : Receipt R M) (s : ReceiptStore R M) (i : String)
      → get i s.receipts ≡ some a
      → IsNext a (get i (Store.add r s).1.receipts)
  unfolding Store.add
  add-IsNext r a s i h =
      ground (arith, get-put s.receipts r.receipt_id i r, String_eq.beq_iff r.receipt_id i, h)

  purge-IsNext :
      (plan : UncertainPlan) (a : Receipt R M) (s : ReceiptStore R M) (i : String)
      → IsValid s
      → get i s.receipts ≡ some a
      → IsNext a (get i (Store.purge plan s).1.receipts)
  unfolding Store.purge
  purge-IsNext plan a s i v h =
      let leq = key_then touched_at id_leb in
      let test = is_purgeable plan in
      let left = remaining plan.dry_run (purgeable plan s) s.receipts in
      elim (Option-cases (get i left)) [
        | inr (b, there) ↦
            let same : b ≡ a = ground (
              arith,
              remaining_or_gone leq test plan.batch_size s.receipts plan.dry_run i b there,
              h,
            ) in
            rw there (inl same)
        | inl gone ↦ elim (Bool-cases (is_purgeable plan (i, a))) [
          | inl taken ↦
              rw gone
                (was_terminal a.state plan.include_uncertain (leb a.updated_at plan.cutoff) taken)
          | inr kept ↦
              let stays : get i left ≡ get i s.receipts =
                remaining_kept leq test plan.batch_size s.receipts plan.dry_run i v.unique
                  (rw h kept) in
              rw (stays, h) (inl refl)
        ]
      ]

  -- A call on a well-formed store makes of a receipt that it holds nothing new, or a receipt of the
  -- same ID, kind, creation time and metadata, no older, in a state that the table allows (or, for
  -- an uncertain one, a confirmed state); or the receipt is gone, and then its state was terminal.
  pub calls_move :
      (c : Call R M) (s : ReceiptStore R M) (i : String) (a : Receipt R M)
      → IsValid s
      → get i s.receipts ≡ some a
      → IsNext a (get i (perform len c s).receipts)
  unfolding perform
  calls_move (add r) s i a v h = add-IsNext r a s i h
  calls_move (transition r target) s i a v h =
      moved-IsNext r target a s i (store_transition len r target s) v
        (store_transition-cases len r target s) h
  calls_move (reconcile r target) s i a v h =
      moved-IsNext r target a s i (reconcile_uncertain r target s) v
        (reconcile_uncertain-cases r target s) h
  calls_move (purge plan) s i a v h = purge-IsNext plan a s i v h

  -- Any call but a purge.
  abbrev pub IsUpdate : Call R M → Type 0
  IsUpdate (purge plan) = ⊥
  IsUpdate (add r) = Unit {0}
  IsUpdate (transition r target) = Unit {0}
  IsUpdate (reconcile r target) = Unit {0}

  add-keeps :
      (r a : Receipt R M) (s : ReceiptStore R M) (i : String)
      → get i s.receipts ≡ some a
      → get i (Store.add r s).1.receipts ≡ some a
  unfolding Store.add
  add-keeps r a s i h =
      ground (arith, get-put s.receipts r.receipt_id i r, String_eq.beq_iff r.receipt_id i, h)

  confirmed_stays :
      (a : Receipt R M) (o : Option (Receipt R M))
      → elem a.state confirmed_states ≡ true
      → IsNext a o
      → o ≢ none
      → o ≡ some a
  confirmed_stays a (some b) final (inl same) there = ap some same
  confirmed_stays a (some b) final (inr moves) there =
      absurd (confirmed_final a.state b.state final moves.allowed)
  confirmed_stays a none final next there = absurd (there refl)

  swap-present :
      (r target a : Receipt R M) (s : ReceiptStore R M) (i : String)
      → get i s.receipts ≡ some a
      → get i (swap r target s).1.receipts ≢ none
  unfolding swap
  swap-present r target a s i h = ground (arith, get-put s.receipts r.receipt_id i target)

  moved_confirmed :
      (r target a : Receipt R M) (s : ReceiptStore R M) (i : String)
      (m : Result Bool × ReceiptStore R M)
      → IsValid s
      → (m.1 ≡ s) ⊎ (Moves r target × (m ≡ swap r target s))
      → get i s.receipts ≡ some a
      → elem a.state confirmed_states ≡ true
      → get i m.1.receipts ≡ some a
  moved_confirmed r target a s i m v (inl same) h final = rw same h
  moved_confirmed r target a s i m v (inr (moves, e)) h final = rw e (
      confirmed_stays a (get i (swap r target s).1.receipts) final
        (swap-IsNext r target a s i v moves h) (swap-present r target a s i h))

  confirmed_step :
      (c : Call R M) (s : ReceiptStore R M) (i : String) (a : Receipt R M)
      → IsUpdate c
      → IsValid s
      → get i s.receipts ≡ some a
      → elem a.state confirmed_states ≡ true
      → get i (perform len c s).receipts ≡ some a
  unfolding perform
  confirmed_step (add r) s i a u v h final = add-keeps r a s i h
  confirmed_step (transition r target) s i a u v h final =
      moved_confirmed r target a s i (store_transition len r target s) v
        (store_transition-cases len r target s) h final
  confirmed_step (reconcile r target) s i a u v h final =
      moved_confirmed r target a s i (reconcile_uncertain r target s) v
        (reconcile_uncertain-cases r target s) h final
  confirmed_step (purge plan) s i a u v h final = absurd u

  -- Of a well-formed store: a receipt that is completed, rejected or conflicted stays as it is,
  -- through any sequence of additions, transitions and reconciliations.
  pub confirmed_kept :
      (cs : List (Call R M)) (s : ReceiptStore R M) (i : String) (a : Receipt R M)
      → All IsUpdate cs
      → IsValid s
      → get i s.receipts ≡ some a
      → elem a.state confirmed_states ≡ true
      → get i (perform_all len cs s).receipts ≡ some a
  unfolding perform_all
  confirmed_kept [] s i a u v h final = h
  confirmed_kept (c ∷ cs) s i a u v h final =
      confirmed_kept cs (perform len c s) i a u.1 (perform_receipt-IsValid len c s v)
        (confirmed_step c s i a u.0 v h final) final
