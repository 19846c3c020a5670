-- ===== src/Receipts/Harness.antt =====
-- `ReceiptStoreHarness.exercise` of src/pytitect/receipts.py, run on the in-memory store.
use pytitect.Prelude.{
  ℕ, zero, suc, ◌+◌, ◌≤◌, String, ◌||◌, not, ◌≡◌, some, none, [], ◌∷◌, Eq, ◌==◌, String_eq,
  option_eq, arith, Action, Result, ok, err, assertion_error, ◌>>=◌, ◌>>◌, raise_if, raise, pure,
  lift, gets, utc,
}
use pytitect.Prelude.Dict.{Dict, get, put}
use pytitect.Receipts.Types.{
  ReceiptState, accepted, processing, completed, uncertain, mutation, Receipt, receipt_eq,
  TransitionResult, receipt_transitioned, invalid_transition, transition,
}
use pytitect.Receipts.Store.{ReceiptStore, load, add, store_transition, reconcile_uncertain, new}

module _ {R M : Type 0} ⦃er : Eq R⦄ ⦃em : Eq M⦄ (len : M → ℕ) (empty : M) where
  -- `MutationReceipt(receipt_id, state, now, now)`, with the empty metadata
  abbrev pub fresh : String → ReceiptState → ℕ → Receipt R M
  fresh receipt_id state now = record {
    receipt_id = receipt_id;
    kind = mutation;
    state = state;
    created_at = now;
    updated_at = now;
    result = none;
    metadata = empty;
  }

  abbrev pub expect_transitioned : TransitionResult R M → Action (ReceiptStore R M) (Receipt R M)
  expect_transitioned (receipt_transitioned r) = pure r
  expect_transitioned (invalid_transition from to reason) = raise assertion_error

  -- The first half, on an accepted receipt.
  unfoldable pub exercise_accepted : ℕ → Action (ReceiptStore R M) (Unit {0})
  exercise_accepted now = do
    let first = fresh "accepted" accepted now
    added ← add first
    again ← add first
    raise_if (not added || again) assertion_error
    loaded ← gets (load "accepted")
    raise_if (not (loaded == some first)) assertion_error
    result ← lift (transition len first processing (utc (now + 1000000)) none)
    target ← expect_transitioned result
    moved ← store_transition len first target
    raise_if (not moved) assertion_error
    stale ← store_transition len first target
    raise_if stale assertion_error

  -- The second half, on an uncertain one.
  unfoldable pub exercise_uncertain : R → ℕ → Action (ReceiptStore R M) (Unit {0})
  exercise_uncertain value now = do
    let lost = fresh "uncertain" uncertain now
    let settled = record lost { state = completed; updated_at = now + 1000000; result = some value }
    added ← add lost
    raise_if (not added) assertion_error
    reconciled ← reconcile_uncertain lost settled
    raise_if (not reconciled) assertion_error
    stale ← reconcile_uncertain lost settled
    raise_if stale assertion_error
    loaded ← gets (load "uncertain")
    raise_if (not (loaded == some settled)) assertion_error

  unfoldable pub exercise : R → ℕ → Action (ReceiptStore R M) (Unit {0})
  unfolding exercise_accepted exercise_uncertain
  exercise value now = do exercise_accepted now; exercise_uncertain value now

  -- `ReceiptStoreHarness(factory).exercise(value=value, now=now)`
  unfoldable pub exercise_factory : Result (ReceiptStore R M) → R → ℕ → Result (Unit {0})
  unfolding exercise
  exercise_factory (err e) value now = err e
  exercise_factory (ok s) value now = (exercise value now s).0

  abbrev moved : ℕ → Receipt R M
  moved now = record (fresh "accepted" accepted now) {
    state = processing;
    updated_at = now + 1000000;
  }

  abbrev settled : R → ℕ → Receipt R M
  settled value now = record (fresh "uncertain" uncertain now) {
    state = completed;
    updated_at = now + 1000000;
    result = some value;
  }

  abbrev holding : ℕ → Dict String (Receipt R M) → ReceiptStore R M
  holding c receipts = record { capacity = c; receipts = receipts }

  accepted_run :
      (c now : ℕ)
      → 2 ≤ c
      → len empty ≤ 64
      → exercise_accepted now (holding c []) ≡ (ok tt, holding c (("accepted", moved now) ∷ []))
  unfolding exercise_accepted add load transition store_transition get put
  accepted_run c now room small = ground (arith, em.beq_iff empty empty)

  uncertain_run :
      (c now : ℕ) (value : R)
      → 2 ≤ c
      → exercise_uncertain value now (holding c (("accepted", moved now) ∷ []))
        ≡ (ok tt, holding c (("accepted", moved now) ∷ ("uncertain", settled value now) ∷ []))
  unfolding exercise_uncertain add load reconcile_uncertain get put
  uncertain_run c now value room = ground (arith, em.beq_iff empty empty, er.beq_iff value value)

  -- The in-memory store meets the contract that the harness states, for every value and time, with
  -- room for two receipts and an empty metadata that is within the limit.
  pub receipt_exercise_passes :
      (capacity now : ℕ) (value : R)
      → 2 ≤ capacity
      → len empty ≤ 64
      → exercise_factory (new capacity) value now ≡ ok tt
  unfolding exercise_factory new
  receipt_exercise_passes zero now value room small = absurd (omega arith)
  receipt_exercise_passes (suc c) now value room small =
      ground (arith, accepted_run (suc c) now room small, uncertain_run (suc c) now value room)
