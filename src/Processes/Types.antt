-- ===== src/Processes/Types.antt =====
-- Keys, states, decisions and timers of src/pytitect/processes.py. `J` stands for a JSON value.
use pytitect.Prelude.{
  ℕ, String, Bool, true, false, ◌&&◌, ◌||◌, ◌≡◌, ◌↔◌, List, [], ◌∷◌, if◌then◌else◌, Eq, ◌==◌,
  String_eq, arith, Result, ok, err, value_error,
}
use pytitect.Prelude.Dict.{elem}

pub record ProcessKey : Type 0 where
  pub name : String
  pub instance_id : String

abbrev pub process_beq : ProcessKey → ProcessKey → Bool
process_beq a b = (a.name == b.name) && (a.instance_id == b.instance_id)

pub process_beq_iff : (a b : ProcessKey) → (process_beq a b ≡ true) ↔ (a ≡ b)
process_beq_iff a b =
    ground (arith, String_eq.beq_iff a.name b.name, String_eq.beq_iff a.instance_id b.instance_id)

instance abbrev pub process_eq : Eq ProcessKey
process_eq = record { beq = process_beq; beq_iff = process_beq_iff }

pub data ProcessStatus : Type 0 where
  running compensating completed compensated failed : ProcessStatus

pub data ProcessEffectKind : Type 0 where
  integration_event command task compensation : ProcessEffectKind

pub record ProcessEffect (J : Type 0) : Type 0 where
  pub effect_id : String
  pub kind : ProcessEffectKind
  pub name : String
  pub payload : J

pub record TimerSchedule (J : Type 0) : Type 0 where
  pub timer_id : String
  pub due_at : ℕ
  pub effect : ProcessEffect J

pub record ProcessState (J : Type 0) : Type 0 where
  pub key : ProcessKey
  pub version : ℕ
  pub status : ProcessStatus
  pub state : J
  pub updated_at : ℕ

pub record ProcessDecision (J : Type 0) : Type 0 where
  pub state : J
  pub status : ProcessStatus
  pub effects : List (ProcessEffect J)
  pub schedule : List (TimerSchedule J)
  pub cancel_timers : List String

module _ {J : Type 0} where
  abbrev pub effect_ids : List (ProcessEffect J) → List String
  effect_ids [] = []
  effect_ids (x ∷ xs) = x.effect_id ∷ effect_ids xs

  abbrev pub timer_ids : List (TimerSchedule J) → List String
  timer_ids [] = []
  timer_ids (x ∷ xs) = x.timer_id ∷ timer_ids xs

-- `len(ids) != len(set(ids))`
abbrev pub has_duplicate : List String → Bool
has_duplicate [] = false
has_duplicate (x ∷ xs) = elem x xs || has_duplicate xs

-- `set(ids).intersection(others)` is not empty
abbrev pub meets : List String → List String → Bool
meets [] others = false
meets (x ∷ xs) others = elem x others || meets xs others

-- The checks of `ProcessDecision(...)`
unfoldable pub process_decision : {J : Type 0} → ProcessDecision J → Result (ProcessDecision J)
process_decision decision =
    if has_duplicate (effect_ids decision.effects) || has_duplicate (timer_ids decision.schedule)
    then err value_error
    else if meets (timer_ids decision.schedule) decision.cancel_timers
    then err value_error
    else ok decision

pub data ProcessApplyResult (J : Type 0) : Type 0 where
  process_applied : ProcessState J → ℕ → ℕ → ℕ → ProcessApplyResult J
  stale_process_version : ℕ → ℕ → ProcessApplyResult J

pub record ProcessTimer (J : Type 0) : Type 0 where
  pub process : ProcessKey
  pub timer_id : String
  pub due_at : ℕ
  pub effect : ProcessEffect J
  pub fencing_token : ℕ

pub record ProcessTimerClaim (J : Type 0) : Type 0 where
  pub timer : ProcessTimer J
  pub claim_id : String
  pub claimed_until : ℕ
