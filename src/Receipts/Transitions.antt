-- ===== src/Receipts/Transitions.antt =====
-- What a transition of a receipt may do, and what the store's calls may do to a receipt.
use pytitect.Prelude.{
  ◌||◌, ◌&&◌, Result, ℕ, ◌≤◌, Bool, true, ◌≡◌, ◌≢◌, ◌↔◌, ◌⊎◌, inl, inr, refl, Option, none, Eq,
  ◌==◌, arith, ok, err, utc, String_eq, option_eq, Bool-cases,
}
use pytitect.Prelude.Dict.{elem}
use pytitect.Receipts.Types.{
  ReceiptState, kind_eq, kind_beq_iff, state_eq, state_beq_iff, completed, uncertain, Receipt,
  receipt_eq, receipt_beq_iff, TransitionResult, receipt_transitioned, invalid_transition,
  transitions, transition, transition_at, post_init,
}
use pytitect.Receipts.Store.{
  ReceiptStore, swap, swap_proposed, store_transition, valid_reconciliation, reconcile_uncertain,
  confirmed_states,
}

-- What `Receipt.__post_init__` grants.
pub record IsReceipt {R M : Type 0} (len : M → ℕ) (r : Receipt R M) : Type 0 where
  pub ordered : r.created_at ≤ r.updated_at
  pub small : len r.metadata ≤ 64

-- For a receipt that could be made: a transition at a UTC instant succeeds exactly if the instant
-- is not before the last update, the table allows the target, and a completion has a result; the
-- new receipt then differs from the old in its state, its update time and its result only.
pub transition_iff :
    {R M : Type 0} (len : M → ℕ) (r q : Receipt R M) (target : ReceiptState) (t : ℕ)
    (result : Option R)
    → IsReceipt len r
    → (transition len r target (utc t) result ≡ ok (receipt_transitioned q)) ↔ (
        (r.updated_at ≤ t)
        × (elem target (transitions r.state) ≡ true)
        × (target ≡ completed → result ≢ none)
        × (q ≡ record r { state = target; updated_at = t; result = result }))
unfolding transition post_init
transition_iff len r q target t result v = (
  λ h. ground (arith, state_beq_iff target completed, v.ordered, v.small, h),
  λ h. ground (arith, state_beq_iff target completed, v.ordered, v.small, h),
)

-- The table, and the one way out of `uncertain` that needs a reconciliation.
abbrev pub is_move : ReceiptState → ReceiptState → Bool
is_move a b = elem b (transitions a) || ((a == uncertain) && elem b confirmed_states)

-- What may change of a receipt, and how.
pub record Moves {R M : Type 0} (a b : Receipt R M) : Type 0 where
  pub receipt_id : b.receipt_id ≡ a.receipt_id
  pub kind : b.kind ≡ a.kind
  pub created_at : b.created_at ≡ a.created_at
  pub metadata : b.metadata ≡ a.metadata
  pub later : a.updated_at ≤ b.updated_at
  pub allowed : is_move a.state b.state ≡ true

module _ {R M : Type 0} ⦃er : Eq R⦄ ⦃em : Eq M⦄ where
  transition_at-Moves :
      (len : M → ℕ) (r q target : Receipt R M)
      → transition_at len r target.state target.updated_at target.result
        ≡ ok (receipt_transitioned q)
      → q ≡ target
      → Moves r target
  unfolding transition_at post_init
  transition_at-Moves len r q target h same = record {
    receipt_id = ground (arith, h, same);
    kind = ground (arith, h, same);
    created_at = ground (arith, h, same);
    metadata = ground (arith, h, same);
    later = ground (arith, h, same);
    allowed = ground (arith, h, same);
  }

  -- A transition or a reconciliation of the store leaves the store alone, or is an allowed move
  -- that the store makes if it holds the receipt still.
  swap_proposed-cases :
      (len : M → ℕ) (p : Result (TransitionResult R M)) (r target : Receipt R M)
      (s : ReceiptStore R M)
      → transition_at len r target.state target.updated_at target.result ≡ p
      → ((swap_proposed p r target s).1 ≡ s)
        ⊎ (Moves r target × (swap_proposed p r target s ≡ swap r target s))
  unfolding swap_proposed
  swap_proposed-cases len (err e) r target s h = inl refl
  swap_proposed-cases len (ok (invalid_transition from to reason)) r target s h = inl refl
  swap_proposed-cases len (ok (receipt_transitioned q)) r target s h =
      elim (Bool-cases (q == target)) [
        | inl same ↦
            inr (
              transition_at-Moves len r q target h ((receipt_beq_iff q target).0 same),
              rw same refl,
            )
        | inr differs ↦ inl (rw differs refl)
      ]

  pub store_transition-cases :
      (len : M → ℕ) (r target : Receipt R M) (s : ReceiptStore R M)
      → ((store_transition len r target s).1 ≡ s)
        ⊎ (Moves r target × (store_transition len r target s ≡ swap r target s))
  unfolding store_transition transition
  store_transition-cases len r target s =
      swap_proposed-cases len (transition_at len r target.state target.updated_at target.result) r
        target s refl

  pub valid_reconciliation-Moves :
      (r target : Receipt R M) → valid_reconciliation r target ≡ true → Moves r target
  unfolding valid_reconciliation
  valid_reconciliation-Moves r target h = record {
    receipt_id = ground (arith, String_eq.beq_iff target.receipt_id r.receipt_id, h);
    kind = ground (arith, kind_beq_iff target.kind r.kind, h);
    created_at = ground (arith, h);
    metadata = ground (arith, em.beq_iff target.metadata r.metadata, h);
    later = ground (arith, h);
    allowed = ground (arith, h);
  }

  pub reconcile_uncertain-cases :
      (r target : Receipt R M) (s : ReceiptStore R M)
      → ((reconcile_uncertain r target s).1 ≡ s)
        ⊎ (Moves r target × (reconcile_uncertain r target s ≡ swap r target s))
  unfolding reconcile_uncertain
  reconcile_uncertain-cases r target s = elim (Bool-cases (valid_reconciliation r target)) [
    | inl valid ↦ inr (valid_reconciliation-Moves r target valid, rw valid refl)
    | inr bad ↦ inl (rw bad refl)
  ]
