-- ===== src/Processes/Tests.antt =====
-- Tests of the process managers: a process that is started, with a timer and an effect.
use pytitect.Prelude.{ℕ, String, ◌≡◌, refl, [], ◌∷◌, ok, utc, pos, ℕ_eq}
use pytitect.Prelude.Dict.{get, put}
use pytitect.Prelude.Sorting.{sorted}
use pytitect.Processes.Types.{
  ProcessKey, running, completed, task, ProcessEffect, ProcessDecision, process_decision,
}
use pytitect.Processes.Store.{ProcessStore, apply}
use pytitect.Processes.Timers.{claim_timers}

abbrev order : ProcessKey
order = record { name = "order"; instance_id = "7" }

abbrev mail : String → ProcessEffect ℕ
mail effect_id = record { effect_id = effect_id; kind = task; name = "mail"; payload = 1 }

abbrev start : ProcessDecision ℕ
start = record {
  state = 5;
  status = running;
  effects = mail "e1" ∷ [];
  schedule = record { timer_id = "t1"; due_at = 9; effect = mail "e2" } ∷ [];
  cancel_timers = [];
}

start_made : process_decision start ≡ ok start
unfolding process_decision
start_made = refl

abbrev empty : ProcessStore ℕ
empty = record { capacity = 4; states = []; timers = []; effects = [] }

abbrev started : ProcessStore ℕ
started = (apply order 0 start (utc 3) empty).1

abbrev stop : ProcessDecision ℕ
stop = record {
  state = 6;
  status = completed;
  effects = [];
  schedule = [];
  cancel_timers = "t1" ∷ [];
}

-- A timer that is cancelled is not claimed.
cancelled_unclaimed :
    (claim_timers (λ n. "c1") (utc 20) 5 (pos 10) (apply order 1 stop (utc 4) started).1).0 ≡ ok []
unfolding apply get put claim_timers sorted
cancelled_unclaimed = refl
