-- ===== src/Controls/Saving.antt =====
-- src/mutiai/services/runtime_controls.py: writes to the rows of a policy and an execution.
use muti_ai.Prelude.{String, Bool, ◌==◌, string_eq, option_eq, set_first}
use muti_ai.Models.Task.{RuntimeExecution, execution_status_eq}
use muti_ai.Models.Control.{RuntimeControlPolicy, capacity_status_eq}
use muti_ai.Database.{Session}
use muti_ai.Controls.Policies.{policy_of}

-- Assignments to the fields of a policy or an execution object are writes to its row.
abbrev pub save_policy : (owner provider : String) → RuntimeControlPolicy → Session → Session
save_policy owner provider p s = record s {
  policies = set_first (policy_of owner provider) p s.policies;
}

abbrev pub same_execution : RuntimeExecution → RuntimeExecution → Bool
same_execution x e = e.runtime_execution_id == x.runtime_execution_id

abbrev pub save_execution : RuntimeExecution → Session → Session
save_execution x s = record s { executions = set_first (same_execution x) x s.executions }
