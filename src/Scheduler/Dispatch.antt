-- ===== src/Scheduler/Dispatch.antt =====
-- When `prepare_step` (src/mutiai/services/linear_scheduler.py) creates an Assignment.
use muti_ai.Prelude.{
  String, ◌≡◌, ◌⊎◌, ◌∙◌, sym, ap, refl, some, List, [], ◌∷◌, ◌++◌, ◌!=◌, Bool-cases, Option-cases,
  inl, inr, Result, ok, err,
}
use muti_ai.Models.Task.{Task, task_status_eq, Assignment}
use muti_ai.Models.Plan.{TaskExecutionPlan, PlanStep, PlanStepStatus, step_status_eq}
use muti_ai.Database.{Session, Draws, later}
use muti_ai.Events.{append_task_event}
use muti_ai.Scheduler.Types.{SchedulerError, Transaction, Collaborators, IsApart}
use muti_ai.Scheduler.Rows.{task_row, current_plan, steps_of}
use muti_ai.Scheduler.Assign.{
  activate_plan, make_ready, new_assignment, submit, assign_instructed, assign_bound, assign_housed,
  create_assignment,
}
use muti_ai.Scheduler.Prepare.{
  NextStep, next_step, is_over, finish_dispatch, perform, prepare_under, prepare_step,
}
use muti_ai.Scheduler.Ready.{
  IsReady, next_step-IsReady, next_step-activate_plan, assignments-activate_plan,
}

make_ready-id :
    (draws : Draws) (task : Task) (plan : TaskExecutionPlan) (step : PlanStep) (s : Session)
    → ((make_ready draws task plan step s).0.plan_step_id ≡ step.plan_step_id)
      × ((make_ready draws task plan step s).1.assignments ≡ s.assignments)
unfolding make_ready append_task_event
make_ready-id draws task plan step s = elim (Bool-cases (step.status != PlanStepStatus.ready)) [
  | inl early ↦ rw (early, make_ready) (refl, refl)
  | inr ready_ ↦ rw (ready_, make_ready) (refl, refl)
]

-- The only Assignment that is written is one of the step.
abbrev pub Wrote : PlanStep → (old new : List Assignment) → Type 0
Wrote step old new =
    (a : Assignment) × (new ≡ old ++ a ∷ []) × (a.plan_step_id ≡ some step.plan_step_id)

module _ {Binding : Type 0} (c : Collaborators Binding) (apart : IsApart c) where
  -- The outcome for the Assignments of a session in which they were `old`.
  abbrev Outcome :
      PlanStep → List Assignment → Result SchedulerError Assignment × Transaction → Type 0
  Outcome step old r =
      ((finish_dispatch c step r).1.assignments ≡ old)
      ⊎ Wrote step old (finish_dispatch c step r).1.assignments

  assign_instructed-Outcome :
      (draws : Draws) (task : Task) (step step' : PlanStep) (workspace_id : String) (s : Session)
      (r : Result SchedulerError String) (old : List Assignment)
      → step'.plan_step_id ≡ step.plan_step_id
      → s.assignments ≡ old
      → Outcome step old (assign_instructed c draws task step' workspace_id s r)
  unfolding assign_instructed finish_dispatch submit append_task_event new_assignment
  assign_instructed-Outcome draws task step step' workspace_id s (err e) old this same = inl same
  assign_instructed-Outcome draws task step step' workspace_id s (ok instructions) old this same =
      inr (
        new_assignment c draws task step' instructions,
        ap (λ l. l ++ new_assignment c draws task step' instructions ∷ []) same,
        ap some this,
      )

  assign_bound-Outcome :
      (draws : Draws) (task : Task) (plan : TaskExecutionPlan) (step step' : PlanStep)
      (workspace_id : String) (r : Result SchedulerError (List Binding) × Session)
      (old : List Assignment)
      → step'.plan_step_id ≡ step.plan_step_id
      → r.1.assignments ≡ old
      → Outcome step old (assign_bound c draws task plan step' workspace_id r)
  unfolding assign_bound finish_dispatch
  assign_bound-Outcome draws task plan step step' workspace_id (err e, s) old this same = inl same
  assign_bound-Outcome draws task plan step step' workspace_id (ok bindings, s) old this same =
      assign_instructed-Outcome draws task step step' workspace_id s
        (c.build_instructions s task plan step' bindings) old this same

  assign_housed-Outcome :
      (draws : Draws) (task : Task) (plan : TaskExecutionPlan) (step step' : PlanStep)
      (r : Result SchedulerError String × Session) (old : List Assignment)
      → step'.plan_step_id ≡ step.plan_step_id
      → r.1.assignments ≡ old
      → Outcome step old (assign_housed c draws task plan step' r)
  unfolding assign_housed finish_dispatch
  assign_housed-Outcome draws task plan step step' (err e, s) old this same = inl same
  assign_housed-Outcome draws task plan step step' (ok workspace_id, s) old this same =
      assign_bound-Outcome draws task plan step step' workspace_id
        (c.materialize_step_inputs s task step' workspace_id) old this
        (apart.inputs s task step' workspace_id ∙ same)

  create_assignment-Outcome :
      (draws : Draws) (task : Task) (plan : TaskExecutionPlan) (step : PlanStep) (t : Transaction)
      → t.pending.assignments ≡ t.committed.assignments
      → Outcome step t.committed.assignments (create_assignment c draws task plan step t)
  unfolding create_assignment
  create_assignment-Outcome draws task plan step t same =
      let (this, kept) = make_ready-id draws task plan step t.pending in
      let (step', readied) = make_ready draws task plan step t.pending in
      assign_housed-Outcome (later 2 draws) task plan step step'
        (c.ensure_role_workspace (record { committed = t.committed; pending = readied }) task
          step'.role_key)
        t.committed.assignments this
        (elim (apart.workspace (record { committed = t.committed; pending = readied }) task
          step'.role_key) [ inl rolled_back ↦ rolled_back | inr made ↦ made ∙ kept ∙ same ])

  perform-Outcome :
      (draws : Draws) (task : Task) (plan : TaskExecutionPlan) (t : Transaction)
      (steps : List PlanStep) (s : Session) (n : NextStep)
      → next_step steps s ≡ n
      → t.pending.assignments ≡ t.committed.assignments
      → ((perform c draws task plan t n).1.assignments ≡ t.committed.assignments)
        ⊎ ((step : PlanStep) × IsReady steps s step
            × Wrote step t.committed.assignments (perform c draws task plan t n).1.assignments)
  unfolding perform
  perform-Outcome draws task plan t steps s NextStep.idle came same = inl refl
  perform-Outcome draws task plan t steps s (NextStep.resume a step) came same = inl refl
  perform-Outcome draws task plan t steps s (NextStep.dispatch step) came same =
      elim (create_assignment-Outcome draws task plan step t same) [
        | inl kept ↦ inl kept
        | inr wrote ↦ inr (step, next_step-IsReady steps s step came, wrote)
      ]

  -- If the components that it calls write no Assignments, prepare_step writes at most one, for
  -- the first step of the current plan that is not completed, and only when this step has not
  -- stopped, has no Assignment yet, and all its dependencies are completed; so it is on every
  -- error path too.
  pub prepare_step-IsReady :
      (draws : Draws) (task_id : String) (s : Session)
      → ((prepare_step c draws task_id s).1.assignments ≡ s.assignments)
        ⊎ ((plan : TaskExecutionPlan) × (step : PlanStep) × (current_plan task_id s.plans
              ≡ some plan)
            × IsReady (steps_of plan.plan_id s.plan_steps) s step
            × Wrote step s.assignments (prepare_step c draws task_id s).1.assignments)
  unfolding prepare_step
  prepare_step-IsReady draws task_id s = elim (Option-cases (task_row task_id s.tasks)) [
    | inr unknown ↦ rw (unknown, prepare_step) (inl refl)
    | inl (task, known) ↦
        rw (known, prepare_step)
          (elim (Bool-cases (is_over task.status)) [
            | inl over ↦ rw over (inl refl)
            | inr open_ ↦ rw open_ (elim (Option-cases (current_plan task_id s.plans)) [
              | inr planless ↦ rw planless (inl refl)
              | inl (plan, current) ↦ rw current (elim (prepare_under-Outcome task plan) [
                | inl kept ↦ inl kept
                | inr (step, ready_, wrote) ↦ inr (plan, step, refl, ready_, wrote)
              ])
            ])
          ])
  ]
    where
      prepare_under-Outcome :
          (task : Task) (plan : TaskExecutionPlan)
          → ((prepare_under c draws task plan s).1.assignments ≡ s.assignments)
            ⊎ ((step : PlanStep) × IsReady (steps_of plan.plan_id s.plan_steps) s step
                × Wrote step s.assignments (prepare_under c draws task plan s).1.assignments)
      prepare_under-Outcome task plan =
          let (plan', activated) = activate_plan draws task plan s in
          unfold prepare_under in
          perform-Outcome (later 2 draws) task plan' (record { committed = s; pending = activated })
            (steps_of plan.plan_id s.plan_steps) s
            (next_step (steps_of plan.plan_id s.plan_steps) activated)
            (sym (next_step-activate_plan draws task plan (steps_of plan.plan_id s.plan_steps) s))
            (assignments-activate_plan draws task plan s)
