-- ===== src/Scheduler/Finalize.antt =====
-- `finalize_step` (src/mutiai/services/linear_scheduler.py).
use muti_ai.Prelude.{
  String, true, false, Option, none, some, List, [], ◌∷◌, Result, ok, err, if◌then◌else◌, ◌==◌,
  string_eq, find?, or_text,
}
use Prim.Native.String.{◌++◌ as append}
use muti_ai.Models.Json.{Json, Fields, strs}
use muti_ai.Models.Task.{
  Task, TaskStatus, task_status_eq, Assignment, AssignmentStatus, RuntimeExecution,
}
use muti_ai.Models.Plan.{
  TaskExecutionPlan, TaskExecutionPlanStatus, PlanStep, PlanStepStatus, step_status_eq,
}
use muti_ai.Plans.Spec.{StepKind}
use muti_ai.Database.{Session, Draws, later}
use muti_ai.Events.{append_task_event}
use muti_ai.Scheduler.Delivery.{
  ReviewDecision, LeadReviewResult, DeliveryStatus, AssignmentDelivery, review_json, StepOutcome,
  FinalizeError, PublishError, Deliveries,
}
use muti_ai.Scheduler.Payloads.{str_field}
use muti_ai.Scheduler.Ending.{save_assignment, step_event, complete_step, fail_step}
use muti_ai.Scheduler.Rows.{task_row, step_row, assignment_row, current_plan, save_step, save_plan}

abbrev reviewed_plan : Draws → LeadReviewResult → TaskExecutionPlan → TaskExecutionPlan
reviewed_plan draws review plan = elim review.decision [
  | ReviewDecision.accepted ↦ record plan {
    status = TaskExecutionPlanStatus.completed;
    completed_at = some (draws.utc_now 0);
  }
  | ReviewDecision.needs_revision ↦ record plan {
    status = TaskExecutionPlanStatus.needs_revision;
    completed_at = none;
  }
]

abbrev or_else : Option String → Option String → Option String
or_else none d = d
or_else (some s) d = if s == "" then d else some s

-- `execution.runtime_event_id or execution.turn_id or …`
abbrev pub delivery_id : RuntimeExecution → String
delivery_id x =
    or_text (or_else x.runtime_event_id (or_else x.turn_id x.runtime_job_id)) x.execution_id

module _ (runtime_provider : String) (c : Deliveries) where
  unfoldable pub finalize_review :
      Draws
      → Task
      → TaskExecutionPlan
      → PlanStep
      → Assignment
      → Result String LeadReviewResult
      → Session
      → Result FinalizeError StepOutcome × Session
  unfolding complete_step fail_step
  finalize_review draws task plan step a (err e) s =
      (err FinalizeError.invalid_review, fail_step draws task plan step a "invalid_lead_review" e s)
  finalize_review draws task plan step a (ok review) s = (
    ok (record { done = true; review = some review }),
    append_task_event (later 5 draws) task
        (step_event "lead.review_completed" "assignment" a.assignment_id
          (append "runtime." runtime_provider) a (review_json review))
        (save_plan (reviewed_plan (later 4 draws) review plan) (
          complete_step draws task step a (Fields.field "review" (review_json review) Fields.end)
            s)),
  )

  unfoldable pub block_step :
      Draws
      → Task
      → TaskExecutionPlan
      → PlanStep
      → Assignment
      → AssignmentDelivery
      → Session
      → Result FinalizeError StepOutcome × Session
  block_step draws task plan step a delivery s = (
    ok (record {
      done = true;
      review = some (record {
        decision = ReviewDecision.needs_revision;
        final_summary = delivery.summary;
        issues = append "Plan step '" (append step.step_key "' is blocked.") ∷ [];
      });
    }),
    append_task_event (later 1 draws) task
        (step_event "assignment.status_changed" "assignment" a.assignment_id "langgraph" a (
          Json.obj
            (str_field "status" "failed" (str_field "reason" "plan_step_blocked" Fields.end))))
        (append_task_event draws task
          (step_event "plan.step_blocked" "plan_step" step.plan_step_id
            (append "runtime." runtime_provider) a
            (Json.obj (
              str_field "plan_step_id" step.plan_step_id (
                str_field "step_key" step.step_key (
                  str_field "summary" delivery.summary
                    (str_field "status" "blocked" Fields.end))))))
          (save_assignment (record a { status = AssignmentStatus.failed })
            (save_plan (record plan { status = TaskExecutionPlanStatus.needs_revision })
              (save_step (record step { status = PlanStepStatus.blocked }) s)))),
  )

  -- `_fail_step_after_artifact_rollback`, in a session of its own.
  unfoldable pub fail_step_after_artifact_rollback :
      Draws
      → (task_id plan_step_id assignment_id reason error : String) → Session
      → Result FinalizeError StepOutcome × Session
  unfolding fail_step current_plan
  fail_step_after_artifact_rollback draws task_id plan_step_id assignment_id reason error s =
      elim (task_row task_id s.tasks) [
        | none ↦ (err FinalizeError.records_unavailable, s)
        | some task ↦ elim (step_row plan_step_id s.plan_steps) [
          | none ↦ (err FinalizeError.records_unavailable, s)
          | some step ↦ elim (assignment_row assignment_id s.assignments) [
            | none ↦ (err FinalizeError.records_unavailable, s)
            | some a ↦ elim (current_plan task_id s.plans) [
              | none ↦ (err FinalizeError.records_unavailable, s)
              | some plan ↦ (
                err FinalizeError.invalid_artifact,
                fail_step draws task plan step a reason error s,
              )
            ]
          ]
        ]
      ]

  -- The end of `finalize_step` after `publish_assignment_delivery`.
  unfoldable pub finalize_published :
      Draws
      → Task
      → PlanStep
      → Assignment
      → AssignmentDelivery
      → Result PublishError (List String) × Session
      → Result FinalizeError StepOutcome × Session
  unfolding complete_step fail_step_after_artifact_rollback
  finalize_published draws task step a delivery (err (PublishError.other e), s) =
      (err (FinalizeError.escaped e), s)
  finalize_published draws task step a delivery (err (PublishError.refused e), s) =
      fail_step_after_artifact_rollback draws task.task_id step.plan_step_id a.assignment_id
        (c.lower e.code) e.message s
  finalize_published draws task step a delivery (ok artifact_ids, s) = (
    ok (record { done = false; review = none }),
    complete_step draws task step a
        (str_field "delivery_summary" delivery.summary
          (Fields.field "artifact_ids" (strs artifact_ids) Fields.end))
        s,
  )

  -- A delivery that can be read, by its status.
  unfoldable pub finalize_status :
      Draws
      → Task
      → TaskExecutionPlan
      → PlanStep
      → Assignment
      → AssignmentDelivery
      → DeliveryStatus
      → Session
      → Result FinalizeError StepOutcome × Session
  unfolding block_step finalize_published
  finalize_status draws task plan step a delivery DeliveryStatus.blocked s =
      block_step draws task plan step a delivery s
  finalize_status draws task plan step a delivery DeliveryStatus.completed s =
      elim (find? (λ x. x.assignment_id == a.assignment_id) s.executions) [
        | none ↦ (err FinalizeError.execution_unavailable, s)
        | some execution ↦
            finalize_published draws task step a delivery
              (c.publish_assignment_delivery s task a delivery (delivery_id execution))
      ]

  unfoldable pub finalize_delivery :
      Draws
      → Task
      → TaskExecutionPlan
      → PlanStep
      → Assignment
      → Result String AssignmentDelivery
      → Session
      → Result FinalizeError StepOutcome × Session
  unfolding fail_step finalize_status
  finalize_delivery draws task plan step a (err e) s = (
    err FinalizeError.invalid_delivery,
    fail_step draws task plan step a "invalid_assignment_delivery" e s,
  )
  finalize_delivery draws task plan step a (ok delivery) s =
      finalize_status draws task plan step a delivery delivery.status s

  -- The answer for a step that is completed already.
  unfoldable pub completed_outcome :
      StepKind → Result String LeadReviewResult → Result FinalizeError StepOutcome
  completed_outcome StepKind.specialist review = ok (record { done = false; review = none })
  completed_outcome StepKind.lead_review (ok review) =
      ok (record { done = true; review = some review })
  completed_outcome StepKind.lead_review (err e) = err FinalizeError.review_unreadable

  unfoldable pub finalize_open :
      Draws
      → Task
      → TaskExecutionPlan
      → PlanStep
      → Assignment
      → (summary : String) → StepKind
      → Session
      → Result FinalizeError StepOutcome × Session
  unfolding finalize_review finalize_delivery
  finalize_open draws task plan step a summary StepKind.lead_review s =
      finalize_review draws task plan step a (c.validate_review summary) s
  finalize_open draws task plan step a summary StepKind.specialist s =
      finalize_delivery draws task plan step a (c.validate_delivery summary) s

  unfoldable pub finalize_found :
      Draws
      → Task
      → Assignment
      → PlanStep
      → TaskExecutionPlan
      → (summary : String) → Session
      → Result FinalizeError StepOutcome × Session
  unfolding finalize_open completed_outcome
  finalize_found draws task a step plan summary s =
      if task.status == TaskStatus.cancelled
      then (ok (record { done = true; review = none }), s)
      else if step.status == PlanStepStatus.completed
      then (completed_outcome step.step_kind (c.validate_review summary), s)
      else finalize_open draws task plan step a summary step.step_kind s

  -- `summary` is `result["summary"]`, and `assignment_id` is `work["assignment_id"]`.
  unfoldable pub finalize_step :
      Draws
      → (task_id assignment_id summary : String) → Session
      → Result FinalizeError StepOutcome × Session
  unfolding finalize_found current_plan
  finalize_step draws task_id assignment_id summary s = elim (task_row task_id s.tasks) [
    | none ↦ (err FinalizeError.records_unavailable, s)
    | some task ↦ elim (assignment_row assignment_id s.assignments) [
      | none ↦ (err FinalizeError.records_unavailable, s)
      | some a ↦ elim a.plan_step_id [
        | none ↦ (err FinalizeError.records_unavailable, s)
        | some plan_step_id ↦ elim (step_row plan_step_id s.plan_steps) [
          | none ↦ (err FinalizeError.step_unavailable, s)
          | some step ↦ elim (current_plan task_id s.plans) [
            | none ↦ (err FinalizeError.step_unavailable, s)
            | some plan ↦ finalize_found draws task a step plan summary s
          ]
        ]
      ]
    ]
  ]
