-- ===== src/Plans/Guards.antt =====
-- The calls of `create_task_execution_plan` (src/mutiai/services/task_plans.py) that create a plan.
use muti_ai.Prelude.{
  ℕ, String, ◌≡◌, ◌∙◌, sym, ap, refl, Bool, true, none, List, arith, ltb, ◌==◌, ◌||◌, string_eq,
  nat_eq, find?, Bool-cases, Option-cases, Result-cases, inl, inr, Result, ok,
}
use Prim.Native.String.{count}
use muti_ai.Models.Task.{Task}
use muti_ai.Models.Plan.{TaskExecutionPlan}
use muti_ai.Database.{Session, Draws}
use muti_ai.Plans.Identity.{Identities}
use muti_ai.Plans.Spec.{TaskExecutionPlanSpec}
use muti_ai.Plans.Shape.{ExecutionShape, validate_supported_plan_shape}
use muti_ai.Plans.Create.{
  OrganizationSpecVersion, CreationError, existing_plan, new_plan, store_plan, replay_or_store,
  create_task_execution_plan,
}

-- An answer has one plan.
pub same_answer :
    {p q : TaskExecutionPlan} (r : Result CreationError (TaskExecutionPlan × Bool))
    → r ≡ ok (p, true)
    → r ≡ ok (q, true)
    → p ≡ q
same_answer r e h = cc

module _ (ids : Identities) where
  -- The checks of a call that creates a plan pass for every session.
  pub create-replay_or_store :
      (draws : Draws) (versions : List OrganizationSpecVersion) (task : Task)
      (spec : TaskExecutionPlanSpec) (source : String) (plan_version : ℕ) (s : Session)
      (plan : TaskExecutionPlan)
      → (create_task_execution_plan ids draws versions task spec source plan_version s).0
        ≡ ok (plan, true)
      → (shape : ExecutionShape) × ((draws' : Draws) (s' : Session)
          → create_task_execution_plan ids draws' versions task spec source plan_version s'
            ≡ replay_or_store ids draws' task spec source plan_version shape s')
  unfolding create_task_execution_plan
  create-replay_or_store draws versions task spec source plan_version s plan h =
      elim (Bool-cases (source == "" || ltb 50 (count source))) [
        | inl bad ↦ absurd (ground arith)
        | inr fine ↦ elim (Bool-cases (ltb plan_version 1)) [
          | inl bad ↦ absurd (ground arith)
          | inr positive ↦
              elim (Option-cases
                (find? (λ v. v.spec_version_id == task.organization_spec_version_id) versions)) [
                  | inr absent ↦ absurd (ground arith)
                  | inl (version, found) ↦
                      elim (Result-cases
                        (validate_supported_plan_shape spec version.spec_payload)) [
                          | inr (e, refused) ↦ absurd (ground arith)
                          | inl (shape, shaped) ↦ (
                            shape,
                            λ draws' s'.
                                rw (fine, positive, found, create_task_execution_plan)
                                  (rw shaped refl),
                          )
                        ]
                ]
        ]
      ]

  -- A plan is created only where there is none of its version.
  pub replay_or_store-store_plan :
      (draws : Draws) (task : Task) (spec : TaskExecutionPlanSpec) (source : String)
      (plan_version : ℕ) (shape : ExecutionShape) (s : Session) (plan : TaskExecutionPlan)
      → (replay_or_store ids draws task spec source plan_version shape s).0 ≡ ok (plan, true)
      → (existing_plan task.task_id plan_version s.plans ≡ none)
        × (replay_or_store ids draws task spec source plan_version shape s
            ≡ store_plan ids draws task spec
                (new_plan ids draws task spec source plan_version shape)
                shape
                s)
  unfolding replay_or_store
  replay_or_store-store_plan draws task spec source plan_version shape s plan h =
      elim (Option-cases (existing_plan task.task_id plan_version s.plans)) [
        | inl (existing, there) ↦ absurd (ground arith)
        | inr new_ ↦ (new_, rw (new_, replay_or_store) refl)
      ]

  -- The plan that is created is the one that a new row starts.
  pub create-store_plan :
      (draws : Draws) (versions : List OrganizationSpecVersion) (task : Task)
      (spec : TaskExecutionPlanSpec) (source : String) (plan_version : ℕ) (s : Session)
      (plan : TaskExecutionPlan)
      → (create_task_execution_plan ids draws versions task spec source plan_version s).0
        ≡ ok (plan, true)
      → (shape : ExecutionShape) × (existing_plan task.task_id plan_version s.plans ≡ none)
        × (create_task_execution_plan ids draws versions task spec source plan_version s
            ≡ store_plan ids draws task spec
                (new_plan ids draws task spec source plan_version shape)
                shape
                s)
  create-store_plan draws versions task spec source plan_version s plan h =
      let (shape, passes) =
        create-replay_or_store draws versions task spec source plan_version s plan h in
      let (new_, stores) =
        replay_or_store-store_plan draws task spec source plan_version shape s plan
          (sym (ap (λ r. r.0) (passes draws s)) ∙ h) in
      (shape, new_, passes draws s ∙ stores)
