-- ===== src/Scheduler/Ended.antt =====
-- Every answer of `finalize_step` (src/mutiai/services/linear_scheduler.py) leaves the step ended.
use muti_ai.Prelude.{
  String, ◌≡◌, ◌⊎◌, ◌∙◌, sym, ap, subst, refl, true, false, some, List, arith, Result, ok, err,
  ◌==◌, string_eq, find?, update_where, find?-fits, Result-cases, Bool-cases, inl, inr,
}
use muti_ai.Keys.{find?-update_key}
use muti_ai.Models.Task.{Task, TaskStatus, task_status_eq, Assignment, RuntimeExecution}
use muti_ai.Models.Plan.{
  TaskExecutionPlan, PlanStep, PlanStepStatus, PlanStepStatus-discrete, step_status_eq,
}
use muti_ai.Plans.Spec.{StepKind}
use muti_ai.Database.{Session, Draws}
use muti_ai.Events.{append_task_event}
use muti_ai.Scheduler.Delivery.{
  StepOutcome, FinalizeError, LeadReviewResult, DeliveryStatus, AssignmentDelivery, PublishError,
  Deliveries,
}
use muti_ai.Scheduler.Rows.{task_row, step_row, assignment_row, current_plan}
use muti_ai.Scheduler.Cancel.{is_terminal}
use muti_ai.Scheduler.Ending.{complete_step, fail_step}
use muti_ai.Scheduler.Finalize.{
  finalize_review, block_step, fail_step_after_artifact_rollback, finalize_published, delivery_id,
  finalize_status, finalize_delivery, finalize_open, finalize_found, finalize_step,
}

-- The step has ended.
abbrev pub Ended : (id : String) → List PlanStep → Type 0
Ended id rows = (x : PlanStep) × (step_row id rows ≡ some x) × (is_terminal x.status ≡ true)

Ended-write :
    (step : PlanStep) (rows : List PlanStep) (b : PlanStep)
    → step_row step.plan_step_id rows ≡ some b
    → is_terminal step.status ≡ true
    → Ended step.plan_step_id
        (update_where (λ x. x.plan_step_id == step.plan_step_id) (λ _. step) rows)
Ended-write step rows b found over =
    (step, find?-update_key (λ x. x.plan_step_id) step b rows found, over)

-- The Artifacts keep the rows that a failure is written to.
pub record IsRecorded (c : Deliveries) : Type 0 where
  pub steps :
      (s : Session) (task : Task) (a : Assignment) (delivery : AssignmentDelivery) (id : String)
      → (c.publish_assignment_delivery s task a delivery id).1.plan_steps ≡ s.plan_steps
  pub tasks :
      (s : Session) (task : Task) (a : Assignment) (delivery : AssignmentDelivery) (id : String)
      → (c.publish_assignment_delivery s task a delivery id).1.tasks ≡ s.tasks
  pub assignments :
      (s : Session) (task : Task) (a : Assignment) (delivery : AssignmentDelivery) (id : String)
      → (c.publish_assignment_delivery s task a delivery id).1.assignments ≡ s.assignments
  pub plans :
      (s : Session) (task : Task) (a : Assignment) (delivery : AssignmentDelivery) (id : String)
      → (c.publish_assignment_delivery s task a delivery id).1.plans ≡ s.plans

-- The step has ended, or the Artifacts raised what the scheduler does not catch, which is
-- then the error, and no step is written.
abbrev pub Outcome :
    Deliveries
    → (id : String) → Task
    → Assignment
    → Session
    → Result FinalizeError StepOutcome × Session
    → Type 0
Outcome c id task a s r =
    Ended id r.1.plan_steps
    ⊎ ((delivery : AssignmentDelivery) × (source_delivery_id : String) × (e : String)
        × ((c.publish_assignment_delivery s task a delivery source_delivery_id).0
            ≡ err (PublishError.other e))
        × (r.0 ≡ err (FinalizeError.escaped e))
        × (r.1.plan_steps ≡ s.plan_steps))

module _ (runtime_provider : String) (c : Deliveries) where
  finalize_review-Ended :
      (draws : Draws) (task : Task) (plan : TaskExecutionPlan) (step : PlanStep) (a : Assignment)
      (r : Result String LeadReviewResult) (s : Session)
      → step_row step.plan_step_id s.plan_steps ≡ some step
      → Ended step.plan_step_id
          (finalize_review runtime_provider c draws task plan step a r s).1.plan_steps
  unfolding finalize_review complete_step fail_step append_task_event PlanStepStatus-discrete
  finalize_review-Ended draws task plan step a (err e) s found =
      Ended-write (record step { status = PlanStepStatus.failed }) s.plan_steps step found refl
  finalize_review-Ended draws task plan step a (ok review) s found =
      Ended-write
        (record step { status = PlanStepStatus.completed; completed_at = some (draws.utc_now 0) })
        s.plan_steps step found refl

  row_id : (a b : String) → (a == b) ≡ true → a ≡ b
  row_id a b h = ground arith

  -- The rows that a call works on, as the session has them.
  record IsFound (task : Task) (plan : TaskExecutionPlan) (step : PlanStep) (a : Assignment)
      (s : Session) : Type 0 where
    task_found : task_row task.task_id s.tasks ≡ some task
    plan_found : current_plan task.task_id s.plans ≡ some plan
    step_found : step_row step.plan_step_id s.plan_steps ≡ some step
    assignment_found : assignment_row a.assignment_id s.assignments ≡ some a

  fail_step_after-Ended :
      (draws : Draws) (task : Task) (plan : TaskExecutionPlan) (step : PlanStep) (a : Assignment)
      (reason error : String) (s : Session)
      → IsFound task plan step a s
      → Ended step.plan_step_id
          (fail_step_after_artifact_rollback runtime_provider c draws task.task_id step.plan_step_id
            a.assignment_id reason error s).1.plan_steps
  unfolding fail_step_after_artifact_rollback fail_step append_task_event PlanStepStatus-discrete
  fail_step_after-Ended draws task plan step a reason error s f =
      rw (f.task_found, fail_step_after_artifact_rollback)
        (rw f.step_found (
          rw f.assignment_found (
            rw f.plan_found (
              Ended-write (record step { status = PlanStepStatus.failed }) s.plan_steps step
                f.step_found refl))))

  finalize_published-Outcome :
      (draws : Draws) (task : Task) (plan : TaskExecutionPlan) (step : PlanStep) (a : Assignment)
      (delivery : AssignmentDelivery) (r : Result PublishError (List String) × Session)
      → IsFound task plan step a r.1
      → Ended step.plan_step_id
          (finalize_published runtime_provider c draws task step a delivery r).1.plan_steps
        ⊎ ((e : String) × (r.0 ≡ err (PublishError.other e))
            × ((finalize_published runtime_provider c draws task step a delivery r).0
                ≡ err (FinalizeError.escaped e))
            × ((finalize_published runtime_provider c draws task step a delivery r).1.plan_steps
                ≡ r.1.plan_steps))
  unfolding finalize_published complete_step append_task_event PlanStepStatus-discrete
  finalize_published-Outcome draws task plan step a delivery (err (PublishError.other e), s) f =
      inr (e, refl, refl, refl)
  finalize_published-Outcome draws task plan step a delivery (err (PublishError.refused e), s) f =
      inl (fail_step_after-Ended draws task plan step a (c.lower e.code) e.message s f)
  finalize_published-Outcome draws task plan step a delivery (ok ids, s) f = inl (
      Ended-write
        (record step { status = PlanStepStatus.completed; completed_at = some (draws.utc_now 0) })
        s.plan_steps step f.step_found refl)

  module _ (recorded : IsRecorded c) where
    finalize_status-Outcome :
        (draws : Draws) (task : Task) (plan : TaskExecutionPlan) (step : PlanStep) (a : Assignment)
        (delivery : AssignmentDelivery) (status : DeliveryStatus) (s : Session)
        (execution : RuntimeExecution)
        → IsFound task plan step a s
        → find? (λ x. x.assignment_id == a.assignment_id) s.executions ≡ some execution
        → Outcome c step.plan_step_id task a s
            (finalize_status runtime_provider c draws task plan step a delivery status s)
    unfolding finalize_status block_step append_task_event PlanStepStatus-discrete
    finalize_status-Outcome draws task plan step a delivery DeliveryStatus.blocked s execution f x =
        inl (
          Ended-write (record step { status = PlanStepStatus.blocked }) s.plan_steps step
            f.step_found refl)
    finalize_status-Outcome draws task plan step a delivery DeliveryStatus.completed s execution f
          x =
        let id = delivery_id execution in
        rw (x, finalize_status)
          (elim (finalize_published-Outcome draws task plan step a delivery
            (c.publish_assignment_delivery s task a delivery id)
            (record {
              task_found =
                  ap (task_row task.task_id) (recorded.tasks s task a delivery id) ∙ f.task_found;
              plan_found =
                  ap (current_plan task.task_id) (recorded.plans s task a delivery id)
                  ∙ f.plan_found;
              step_found =
                  ap (step_row step.plan_step_id) (recorded.steps s task a delivery id)
                  ∙ f.step_found;
              assignment_found =
                  ap (assignment_row a.assignment_id) (recorded.assignments s task a delivery id)
                  ∙ f.assignment_found;
            })) [
              | inl ended ↦ inl ended
              | inr (e, raised, answer, kept) ↦
                  inr (delivery, id, e, raised, answer, kept ∙ recorded.steps s task a delivery id)
            ])

    finalize_open-Outcome :
        (draws : Draws) (task : Task) (plan : TaskExecutionPlan) (step : PlanStep) (a : Assignment)
        (summary : String) (kind : StepKind) (s : Session) (execution : RuntimeExecution)
        → IsFound task plan step a s
        → find? (λ x. x.assignment_id == a.assignment_id) s.executions ≡ some execution
        → Outcome c step.plan_step_id task a s
            (finalize_open runtime_provider c draws task plan step a summary kind s)
    unfolding finalize_open finalize_delivery fail_step append_task_event PlanStepStatus-discrete
    finalize_open-Outcome draws task plan step a summary StepKind.lead_review s execution f x =
        inl
          (finalize_review-Ended draws task plan step a (c.validate_review summary) s f.step_found)
    finalize_open-Outcome draws task plan step a summary StepKind.specialist s execution f x =
        elim (Result-cases (c.validate_delivery summary)) [
          | inl (delivery, read) ↦
              rw (read, finalize_delivery)
                (finalize_status-Outcome draws task plan step a delivery delivery.status s execution
                  f x)
          | inr (e, unread) ↦
              rw (unread, finalize_delivery)
                (inl (
                  Ended-write (record step { status = PlanStepStatus.failed }) s.plan_steps step
                    f.step_found refl))
        ]

    finalize_found-Outcome :
        (draws : Draws) (task : Task) (plan : TaskExecutionPlan) (step : PlanStep) (a : Assignment)
        (summary : String) (s : Session) (execution : RuntimeExecution)
        → IsFound task plan step a s
        → find? (λ x. x.assignment_id == a.assignment_id) s.executions ≡ some execution
        → (task.status == TaskStatus.cancelled) ≡ false
        → Outcome c step.plan_step_id task a s
            (finalize_found runtime_provider c draws task a step plan summary s)
    unfolding finalize_found
    finalize_found-Outcome draws task plan step a summary s execution f x alive =
        rw (alive, finalize_found)
          (elim (Bool-cases (step.status == PlanStepStatus.completed)) [
            | inl done ↦ rw done (inl (step, f.step_found, ground arith))
            | inr open_ ↦ rw open_ (
                finalize_open-Outcome draws task plan step a summary step.step_kind s execution f x)
          ])

    -- Where the Artifacts keep the rows of tasks, plans, steps and Assignments, the task is not
    -- cancelled, and the task, its current plan, the Assignment, its step and its Runtime
    -- execution are there, finalize_step leaves the step ended (completed, blocked, failed or
    -- cancelled) for every delivery that the Artifacts accept or refuse; the only other outcome
    -- is that an exception which is not an ArtifactError leaves them, and then it passes through
    -- and no step is written.
    pub finalize_step-Outcome :
        (draws : Draws) (task_id assignment_id plan_step_id summary : String) (s : Session)
        (task : Task) (a : Assignment) (step : PlanStep) (plan : TaskExecutionPlan)
        (execution : RuntimeExecution)
        → task_row task_id s.tasks ≡ some task
        → assignment_row assignment_id s.assignments ≡ some a
        → a.plan_step_id ≡ some plan_step_id
        → step_row plan_step_id s.plan_steps ≡ some step
        → current_plan task_id s.plans ≡ some plan
        → find? (λ x. x.assignment_id == assignment_id) s.executions ≡ some execution
        → (task.status == TaskStatus.cancelled) ≡ false
        → Outcome c plan_step_id task a s
            (finalize_step runtime_provider c draws task_id assignment_id summary s)
    unfolding finalize_step
    finalize_step-Outcome draws task_id assignment_id plan_step_id summary s task a step plan
          execution t_found a_found of_step s_found p_found x alive =
        let t_id : task_id ≡ task.task_id =
          sym (row_id _ _ (find?-fits (λ t. t.task_id == task_id) s.tasks task t_found)) in
        let s_id : plan_step_id ≡ step.plan_step_id = sym (
          row_id _ _
            (find?-fits (λ t. t.plan_step_id == plan_step_id) s.plan_steps step s_found)) in
        let a_id : assignment_id ≡ a.assignment_id = sym (
          row_id _ _
            (find?-fits (λ t. t.assignment_id == assignment_id) s.assignments a a_found)) in
        let ended =
          finalize_found-Outcome draws task plan step a summary s execution
            (record {
              task_found = subst (λ k. task_row k s.tasks ≡ some task) t_id t_found;
              plan_found = subst (λ k. current_plan k s.plans ≡ some plan) t_id p_found;
              step_found = subst (λ k. step_row k s.plan_steps ≡ some step) s_id s_found;
              assignment_found = subst (λ k. assignment_row k s.assignments ≡ some a) a_id a_found;
            })
            (subst (λ k. find? (λ x. x.assignment_id == k) s.executions ≡ some execution) a_id x)
            alive in
        let same : finalize_step runtime_provider c draws task_id assignment_id summary s
            ≡ finalize_found runtime_provider c draws task a step plan summary s =
          ground (arith, t_found, a_found, of_step, s_found, p_found) in
        subst
          (λ k.
            Outcome c k task a s
              (finalize_step runtime_provider c draws task_id assignment_id summary s))
          (sym s_id) (subst (Outcome c step.plan_step_id task a s) (sym same) ended)
