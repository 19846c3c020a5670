-- ===== src/Processes/Runtime.antt =====
-- `ProcessManagerRegistry` and `ProcessManagerRuntime` of src/pytitect/processes.py, over the in-memory
-- store. A decider is the consumer's; it may raise.
use pytitect.Prelude.{
  String, Option, none, some, List, [], ◌∷◌, if◌then◌else◌, String_eq, Action, Result, ok, err,
  value_error, lookup_error, ◌>>=◌, lift, gets, Datetime,
}
use pytitect.Prelude.Dict.{Dict, get, put, contains}
use pytitect.Processes.Types.{
  ProcessKey, process_eq, ProcessState, ProcessDecision, ProcessApplyResult,
}
use pytitect.Processes.Store.{ProcessStore, version_of, apply}

-- `ProcessDecider`
abbrev pub Decider : Type 0 → Type 0
Decider J = Option (ProcessState J) → J → Result (ProcessDecision J)

abbrev pub found : {A : Type 0} → Option A → Result A
found none = err lookup_error
found (some x) = ok x

module _ {J : Type 0} where
  -- The loop of `ProcessManagerRegistry(bindings)`
  unfoldable pub registry :
      List (String × Decider J) → Dict String (Decider J) → Result (Dict String (Decider J))
  registry [] values = ok values
  registry ((name, decide) ∷ bindings) values =
      let rest = registry bindings (put name decide values) in
      if contains name values then err value_error else rest

  -- `require`
  abbrev pub require : Dict String (Decider J) → String → Result (Decider J)
  require values name = found (get name values)

  -- `handle(key, input_value)`, where the clock answers `now`
  unfoldable pub handle :
      Dict String (Decider J)
      → Datetime
      → ProcessKey
      → J
      → Action (ProcessStore J) (ProcessApplyResult J)
  unfolding apply get
  handle values now key input_value = do
    current ← gets (λ s. get key s.states)
    decide ← lift (require values key.name)
    decision ← lift (decide current input_value)
    apply key (version_of current) decision now
