-- ===== src/Receipts/Tests.antt =====
-- Tests of the receipt modules: receipts with a number as result and one as metadata.
use pytitect.Prelude.{
  ℕ, ◌≤◌, String, ◌≡◌, ◌≢◌, ◌↔◌, refl, true, Option, some, none, List, [], ◌∷◌, arith, ok,
  String_eq, ℕ_eq, utc,
}
use pytitect.Prelude.Dict.{get, elem}
use pytitect.Receipts.Types.{
  processing, completed, uncertain, mutation, Receipt, receipt_transitioned, transition,
  transitions, state_eq,
}
use pytitect.Receipts.Store.{ReceiptStore}
use pytitect.Receipts.Transitions.{IsReceipt, transition_iff}
use pytitect.Receipts.Calls.{Call, perform, perform_all, IsValid}
use pytitect.Receipts.History.{IsNext, calls_move, confirmed_kept}

-- Metadata that stands for a mapping of so many items.
abbrev len : ℕ → ℕ
len n = n

abbrev lost : Receipt ℕ ℕ
lost = record {
  receipt_id = "r1";
  kind = mutation;
  state = uncertain;
  created_at = 10;
  updated_at = 20;
  result = none;
  metadata = 0;
}

abbrev running : Receipt ℕ ℕ
running = record lost { state = processing }

abbrev settled : Receipt ℕ ℕ
settled = record lost { state = completed; updated_at = 30; result = some 5 }

lost-IsReceipt : IsReceipt len lost
lost-IsReceipt = record { ordered = omega arith; small = omega arith }

running-IsReceipt : IsReceipt len running
running-IsReceipt = record { ordered = omega arith; small = omega arith }

abbrev holding : Receipt ℕ ℕ → ReceiptStore ℕ ℕ
holding r = record { capacity = 2; receipts = ("r1", r) ∷ [] }

holding-keyed :
    (a : Receipt ℕ ℕ)
    → a.receipt_id ≡ "r1"
    → (i : String) (r : Receipt ℕ ℕ) → get i (holding a).receipts ≡ some r
    → r.receipt_id ≡ i
unfolding get
holding-keyed a named i r h = ground (arith, String_eq.beq_iff "r1" i)

lost-IsValid : IsValid (holding lost)
unfolding get
lost-IsValid = record { fits = omega arith; unique = (refl, tt); keyed = holding-keyed lost refl }

settled-IsValid : IsValid (holding settled)
unfolding get
settled-IsValid = record {
  fits = omega arith;
  unique = (refl, tt);
  keyed = holding-keyed settled refl;
}

holds : (r : Receipt ℕ ℕ) → get "r1" (holding r).receipts ≡ some r
unfolding get
holds r = refl

transition_iff_example :
    (transition len running completed (utc 30) (some 5) ≡ ok (receipt_transitioned settled)) ↔ (
      (20 ≤ 30)
      × (elem completed (transitions processing) ≡ true)
      × (completed ≡ completed → ◌≢◌ {A = Option ℕ} (some 5) none)
      × (settled ≡ record running { state = completed; updated_at = 30; result = some 5 }))
transition_iff_example = transition_iff len running settled completed 30 (some 5) running-IsReceipt

calls_move_example :
    IsNext lost (get "r1" (perform len (Call.reconcile lost settled) (holding lost)).receipts)
calls_move_example =
    calls_move len (Call.reconcile lost settled) (holding lost) "r1" lost lost-IsValid (holds lost)

abbrev calls : List (Call ℕ ℕ)
calls = Call.transition settled running ∷ Call.reconcile lost settled ∷ []

confirmed_kept_example : get "r1" (perform_all len calls (holding settled)).receipts ≡ some settled
confirmed_kept_example =
    confirmed_kept len calls (holding settled) "r1" settled (tt, (tt, tt)) settled-IsValid
      (holds settled) refl
