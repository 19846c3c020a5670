-- ===== src/Receipts/Types.antt =====
-- Receipts and their states, src/pytitect/receipts.py.
use pytitect.Prelude.{
  ℕ, String, Bool, true, ◌&&◌, ◌≡◌, ◌↔◌, refl, sym, ap, ◌∙◌, Option, List, [], ◌∷◌, ltb,
  if◌then◌else◌, Eq, ◌==◌, ℕ_eq, String_eq, option_eq, option_beq_iff, is_some, not, arith, Result,
  ok, err, value_error, Datetime, instant,
}
use pytitect.Prelude.Dict.{elem}

pub data ReceiptState : Type 0 where
  accepted processing completed rejected conflicted uncertain : ReceiptState

abbrev pub value : ReceiptState → String
value accepted = "accepted"
value processing = "processing"
value completed = "completed"
value rejected = "rejected"
value conflicted = "conflicted"
value uncertain = "uncertain"

pub data ReceiptKind : Type 0 where
  mutation command run operation terminal_boundary : ReceiptKind

abbrev pub kind_value : ReceiptKind → String
kind_value mutation = "mutation"
kind_value command = "command"
kind_value run = "run"
kind_value operation = "operation"
kind_value terminal_boundary = "terminal_boundary"

abbrev of_value : String → ReceiptState
of_value v =
    if v == "accepted"
    then accepted
    else if v == "processing"
    then processing
    else if v == "completed"
    then completed
    else if v == "rejected"
    then rejected
    else if v == "conflicted"
    then conflicted
    else uncertain

of_value-value : (s : ReceiptState) → of_value (value s) ≡ s
of_value-value accepted = refl
of_value-value processing = refl
of_value-value completed = refl
of_value-value rejected = refl
of_value-value conflicted = refl
of_value-value uncertain = refl

abbrev of_kind_value : String → ReceiptKind
of_kind_value v =
    if v == "mutation"
    then mutation
    else if v == "command"
    then command
    else if v == "run"
    then run
    else if v == "operation"
    then operation
    else terminal_boundary

of_kind_value-kind_value : (k : ReceiptKind) → of_kind_value (kind_value k) ≡ k
of_kind_value-kind_value mutation = refl
of_kind_value-kind_value command = refl
of_kind_value-kind_value run = refl
of_kind_value-kind_value operation = refl
of_kind_value-kind_value terminal_boundary = refl

-- Members of a `StrEnum` are equal if their values are.
pub state_beq_iff : (a b : ReceiptState) → ((value a == value b) ≡ true) ↔ (a ≡ b)
state_beq_iff a b = (
  λ h.
      sym (of_value-value a)
      ∙ ap of_value ((String_eq.beq_iff (value a) (value b)).0 h)
      ∙ of_value-value b,
  λ h. (String_eq.beq_iff (value a) (value b)).1 (ap value h),
)

instance abbrev pub state_eq : Eq ReceiptState
state_eq = record { beq = λ a b. value a == value b; beq_iff = state_beq_iff }

pub kind_beq_iff : (a b : ReceiptKind) → ((kind_value a == kind_value b) ≡ true) ↔ (a ≡ b)
kind_beq_iff a b = (
  λ h.
      sym (of_kind_value-kind_value a)
      ∙ ap of_kind_value ((String_eq.beq_iff (kind_value a) (kind_value b)).0 h)
      ∙ of_kind_value-kind_value b,
  λ h. (String_eq.beq_iff (kind_value a) (kind_value b)).1 (ap kind_value h),
)

instance abbrev pub kind_eq : Eq ReceiptKind
kind_eq = record { beq = λ a b. kind_value a == kind_value b; beq_iff = kind_beq_iff }

-- `_TRANSITIONS`
unfoldable pub transitions : ReceiptState → List ReceiptState
transitions accepted = processing ∷ rejected ∷ conflicted ∷ uncertain ∷ []
transitions processing = completed ∷ rejected ∷ conflicted ∷ uncertain ∷ []
transitions completed = []
transitions rejected = []
transitions conflicted = []
transitions uncertain = []

-- `R` is the result's type and `M` the metadata's, a `Mapping` with its `==` and `len`. A receipt
-- is of one of the five classes named for its kind, of which `kind` is then the name.
pub record Receipt (R M : Type 0) : Type 0 where
  pub receipt_id : String
  pub kind : ReceiptKind
  pub state : ReceiptState
  pub created_at : ℕ
  pub updated_at : ℕ
  pub result : Option R
  pub metadata : M

pub data TransitionResult (R M : Type 0) : Type 0 where
  receipt_transitioned : Receipt R M → TransitionResult R M
  invalid_transition : ReceiptState → ReceiptState → String → TransitionResult R M

module _ {R M : Type 0} ⦃er : Eq R⦄ ⦃em : Eq M⦄ where
  abbrev pub receipt_beq : Receipt R M → Receipt R M → Bool
  receipt_beq a b =
      (a.receipt_id == b.receipt_id)
      && (a.kind == b.kind)
      && (a.state == b.state)
      && (a.created_at == b.created_at)
      && (a.updated_at == b.updated_at)
      && (a.result == b.result)
      && (a.metadata == b.metadata)

  pub receipt_beq_iff : (a b : Receipt R M) → (receipt_beq a b ≡ true) ↔ (a ≡ b)
  receipt_beq_iff a b = ground (
    arith,
    String_eq.beq_iff a.receipt_id b.receipt_id,
    kind_beq_iff a.kind b.kind,
    state_beq_iff a.state b.state,
    option_beq_iff a.result b.result,
    em.beq_iff a.metadata b.metadata,
  )

  instance abbrev pub receipt_eq : Eq (Receipt R M)
  receipt_eq = record { beq = receipt_beq; beq_iff = receipt_beq_iff }

module _ {R M : Type 0} (len : M → ℕ) where
  -- `Receipt.__post_init__`, once the two timestamps are known to be UTC
  unfoldable pub post_init : Receipt R M → Result (Receipt R M)
  post_init r =
      if ltb r.updated_at r.created_at
      then err value_error
      else if ltb 64 (len r.metadata)
      then err value_error
      else ok r

  abbrev transitioned : Result (Receipt R M) → Result (TransitionResult R M)
  transitioned (ok r) = ok (receipt_transitioned r)
  transitioned (err e) = err e

  unfoldable pub transition_at :
      Receipt R M → ReceiptState → ℕ → Option R → Result (TransitionResult R M)
  unfolding post_init transitions
  transition_at r target t result =
      if ltb t r.updated_at
      then ok (invalid_transition r.state target "transition timestamp moved backwards")
      else if not (elem target (transitions r.state))
      then ok (invalid_transition r.state target "state transition is not allowed")
      else if (target == completed) && not (is_some result)
      then ok (invalid_transition r.state target "completed receipts require a result")
      else transitioned (post_init (record r { state = target; updated_at = t; result = result }))

  abbrev at_instant : (ℕ → Result (TransitionResult R M)) → Result ℕ → Result (TransitionResult R M)
  at_instant f (ok t) = f t
  at_instant f (err e) = err e

  -- `Receipt.transition`
  unfoldable pub transition :
      Receipt R M → ReceiptState → Datetime → Option R → Result (TransitionResult R M)
  unfolding transition_at
  transition r target at result = at_instant (λ t. transition_at r target t result) (instant at)
