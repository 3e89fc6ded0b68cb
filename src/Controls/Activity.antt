-- ===== src/Controls/Activity.antt =====
-- src/mutiai/services/runtime_controls.py: the executions that count as active (`active_execution_count`).
use muti_ai.Prelude.{
  ℕ, String, Bool, false, not, ◌&&◌, ◌||◌, Option, none, some, List, ◌==◌, string_eq, option_eq,
  is_none, find?, filter, length,
}
use muti_ai.Models.Task.{
  Task, Assignment, RuntimeExecution, RuntimeExecutionStatus, execution_status_eq,
}
use muti_ai.Models.Control.{capacity_status_eq}
use muti_ai.Database.{Session}

-- `join(Assignment).join(Task)`: the owner of the Task that the execution works for.
unfoldable pub owner_in : List Assignment → List Task → RuntimeExecution → Option String
owner_in assignments tasks e = elim (find? (λ a. a.assignment_id == e.assignment_id) assignments) [
  | none ↦ none
  | some a ↦ elim (find? (λ t. t.task_id == a.task_id) tasks) [
    | none ↦ none
    | some t ↦ some t.owner_user_id
  ]
]

unfoldable pub owner_of : Session → RuntimeExecution → Option String
unfolding owner_in
owner_of s e = owner_in s.assignments s.tasks e

unfoldable pub belongs : Session → (owner provider : String) → RuntimeExecution → Bool
belongs s owner provider e = owner_of s e == some owner && e.provider == provider

abbrev pub excluded : Option String → RuntimeExecution → Bool
excluded none e = false
excluded (some execution_id) e = e.execution_id == execution_id

unfoldable pub is_active : RuntimeExecution → Bool
is_active e =
    e.status == RuntimeExecutionStatus.running
    || (e.status == RuntimeExecutionStatus.waiting && is_none e.wait_reason)

unfoldable pub active_execution_count :
    Session → (owner provider : String) (excluding_execution_id : Option String) → ℕ
active_execution_count s owner provider excluding = length (
    filter (λ e. belongs s owner provider e && (is_active e && not (excluded excluding e)))
      s.executions)
