-- ===== src/Events.antt =====
-- src/mutiai/services/events.py: the append-only log of product events.
pub mod Sequence
mod Examples
use muti_ai.Prelude.{
  ℕ, ◌+◌, max, String, Option, none, some, List, [], ◌∷◌, ◌++◌, if◌then◌else◌, ◌==◌, string_eq,
  get_or,
}
use muti_ai.Models.Json.{Json}
use muti_ai.Models.Task.{Task, ProductEvent}
use muti_ai.Database.{Session, Draws}

-- The keyword arguments of `append_task_event`.
pub record TaskEvent : Type 0 where
  pub event_type : String
  pub aggregate_type : String
  pub aggregate_id : String
  pub source : String
  pub payload : Json
  pub assignment_id : Option String
  pub runtime_execution_id : Option String

-- `max` of two results of SQL's aggregate `max`, which is null over no rows.
abbrev pub larger : ℕ → Option ℕ → Option ℕ
larger n none = some n
larger n (some m) = some (max n m)

-- `select(func.max(ProductEvent.sequence)).where(ProductEvent.task_id == task_id)`
unfoldable pub latest_sequence : String → List ProductEvent → Option ℕ
latest_sequence task_id [] = none
latest_sequence task_id (e ∷ es) =
    if e.task_id == task_id
    then larger e.sequence (latest_sequence task_id es)
    else latest_sequence task_id es

unfoldable pub new_event : Draws → List ProductEvent → Task → TaskEvent → ProductEvent
new_event draws events task e = record {
  event_id = draws.new_id 0;
  event_type = e.event_type;
  schema_version = "1.0";
  aggregate_type = e.aggregate_type;
  aggregate_id = e.aggregate_id;
  task_id = task.task_id;
  assignment_id = e.assignment_id;
  runtime_execution_id = e.runtime_execution_id;
  sequence = get_or (latest_sequence task.task_id events) 0 + 1;
  occurred_at = draws.utc_now 0;
  source = e.source;
  correlation_id = task.task_id;
  payload = e.payload;
}

unfoldable pub append_task_event : Draws → Task → TaskEvent → Session → Session
append_task_event draws task e s = record s {
  events = s.events ++ new_event draws s.events task e ∷ [];
}
