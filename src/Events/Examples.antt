-- ===== src/Events/Examples.antt =====
-- A run of `append_task_event` (src/mutiai/services/events.py) on a log of two tasks.
use muti_ai.Prelude.{
  ℕ, ◌+◌, String, ◌≡◌, refl, none, List, [], ◌∷◌, arith, String-discrete, ◌==◌, string_eq,
  Bool-cases, inl, inr, sym, ap, ◌∙◌, false,
}
use muti_ai.Models.Json.{Json}
use muti_ai.Models.Task.{ProductEvent}
use muti_ai.Models.Samples.{task}
use muti_ai.Database.{Session, Draws}
use muti_ai.Events.{TaskEvent, append_task_event}
use muti_ai.Events.Sequence.{sequences, up_to, IsGapless, append_task_event-IsGapless}

abbrev draws : Draws
draws = record { utc_now = λ k. 1000 + k; new_id = λ k. "id" }

abbrev event : (task_id : String) (sequence : ℕ) → ProductEvent
event task_id sequence = record {
  event_id = "e";
  event_type = "task.created";
  schema_version = "1.0";
  aggregate_type = "task";
  aggregate_id = task_id;
  task_id = task_id;
  assignment_id = none;
  runtime_execution_id = none;
  sequence = sequence;
  occurred_at = 1;
  source = "product";
  correlation_id = task_id;
  payload = Json.null;
}

abbrev log : List ProductEvent
log = event "t" 1 ∷ event "other" 1 ∷ event "t" 2 ∷ []

abbrev database : Session
database = record {
  tasks = task ∷ [];
  assignments = [];
  executions = [];
  events = log;
  approvals = [];
  policies = [];
  capacities = [];
  plans = [];
  plan_steps = [];
  dependencies = [];
}

abbrev completed : TaskEvent
completed = record {
  event_type = "task.completed";
  aggregate_type = "task";
  aggregate_id = "t";
  source = "product";
  payload = Json.null;
  assignment_id = none;
  runtime_execution_id = none;
}

names_apart : ((event "other" 1).task_id == "t") ≡ false
unfolding String-discrete
names_apart = refl

log-IsGapless : IsGapless log
unfolding sequences up_to
log-IsGapless = record {
  numbered = λ t. elim (Bool-cases ("t" == t)) [
    | inl this ↦
        let same : "t" ≡ t = ground arith in
        let apart : ("other" == t) ≡ false = ap (λ x. "other" == x) (sym same) ∙ names_apart in
        rw (this, apart) refl
    | inr apart ↦
        rw apart
          (elim (Bool-cases ("other" == t)) [ inl that ↦ rw that refl | inr other ↦ rw other refl ])
  ];
}

append_task_event-IsGapless_example :
    IsGapless (append_task_event draws task completed database).events
append_task_event-IsGapless_example =
    append_task_event-IsGapless draws task completed database log-IsGapless
