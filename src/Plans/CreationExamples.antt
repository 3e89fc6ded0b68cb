-- ===== src/Plans/CreationExamples.antt =====
-- A run of `create_task_execution_plan` (src/mutiai/services/task_plans.py) on an empty database.
use muti_ai.Prelude.{
  if◌then◌else◌, ◌==◌, nat_eq, none, some, ◌+◌, ◌≡◌, refl, true, false, List, [], ◌∷◌, ok,
  String-discrete, ℕ_discrete,
}
use text.Mathlib.TextLemmas.{append_cancel_left}
use muti_ai.Models.Json.{Json}
use muti_ai.Models.Samples.{task}
use muti_ai.Models.Plan.{TaskExecutionPlan}
use muti_ai.Database.{Session, Draws}
use muti_ai.Organizations.Samples.{team}
use muti_ai.Plans.Spec.{step_keys, StepKind-discrete}
use muti_ai.Plans.Shape.{ExecutionShape, check_step}
use muti_ai.Plans.Identity.{Identities, deterministic_plan_step_id}
use muti_ai.Plans.Create.{
  SpecVersionStatus, OrganizationSpecVersion, new_plan, create_task_execution_plan,
}
use muti_ai.Plans.Stored.{stored_steps}
use muti_ai.Plans.Roundtrip.{TellsApart}
use muti_ai.Plans.Creation.{IsFresh, create_task_execution_plan-stored_steps}
use muti_ai.Plans.Replay.{create_task_execution_plan-replay}
use muti_ai.Plans.Examples.{plan, plan-IsSound}

abbrev ids : Identities
ids = record {
  uuid5 = λ name. name;
  sha256 = λ text. text;
  dumps = λ value. "{}";
  model_dump = λ spec. Json.null;
  decimal = λ n. if n == 1 then "1" else "2";
}

abbrev draws : Draws
draws = record { utc_now = λ n. 100 + n; new_id = λ n. "id" }

abbrev database : Session
database = record {
  tasks = task ∷ [];
  assignments = [];
  executions = [];
  events = [];
  approvals = [];
  policies = [];
  capacities = [];
  plans = [];
  plan_steps = [];
  dependencies = [];
}

abbrev versions : List OrganizationSpecVersion
versions =
    record {
      spec_version_id = "v";
      organization_id = "o";
      owner_user_id = "u";
      version_number = 1;
      status = SpecVersionStatus.published;
      spec_payload = team;
      source_request = none;
      created_at = 1;
      confirmed_at = some 1;
      published_at = some 1;
    }
    ∷ []

abbrev made : TaskExecutionPlan
made = new_plan ids draws task plan "lead" 1 ExecutionShape.parallel

made_new :
    (create_task_execution_plan ids draws versions task plan "lead" 1 database).0 ≡ ok (made, true)
unfolding create_task_execution_plan String-discrete check_step StepKind-discrete ℕ_discrete
made_new = refl

ids-TellsApart : TellsApart ids made.plan_id (step_keys plan.steps)
unfolding deterministic_plan_step_id
ids-TellsApart a b ka kb same =
    append_cancel_left ":" a b
      (append_cancel_left made.plan_id _ _ (append_cancel_left "mutiai:plan-step:" _ _ same))

database-IsFresh : IsFresh ids made.plan_id (step_keys plan.steps) database
database-IsFresh = record { steps = tt; edges_of = λ k here. tt }

create_task_execution_plan-stored_steps_example :
    stored_steps made.plan_id
      (create_task_execution_plan ids draws versions task plan "lead" 1 database).1
    ≡ plan.steps
unfolding new_plan
create_task_execution_plan-stored_steps_example =
    create_task_execution_plan-stored_steps ids draws versions task plan "lead" 1 database made
      ids-TellsApart plan-IsSound database-IsFresh made_new

create_task_execution_plan-replay_example :
    create_task_execution_plan ids draws versions task plan "lead" 1
      (create_task_execution_plan ids draws versions task plan "lead" 1 database).1
    ≡ (
      ok (made, false),
      (create_task_execution_plan ids draws versions task plan "lead" 1 database).1,
    )
create_task_execution_plan-replay_example =
    create_task_execution_plan-replay ids draws draws versions task plan "lead" 1 database made
      plan-IsSound made_new
