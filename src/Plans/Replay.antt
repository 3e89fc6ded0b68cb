-- ===== src/Plans/Replay.antt =====
-- A second call of `create_task_execution_plan` (src/mutiai/services/task_plans.py).
use muti_ai.Prelude.{
  ℕ, String, ◌≡◌, ◌∙◌, sym, ap, refl, true, false, none, some, List, [], ◌∷◌, ◌++◌, arith, ◌==◌,
  ◌!=◌, string_eq, nat_eq, ok,
}
use muti_ai.Models.Task.{Task}
use muti_ai.Models.Plan.{TaskExecutionPlan}
use muti_ai.Database.{Session, Draws}
use muti_ai.Plans.Identity.{Identities, plan_definition_hash}
use muti_ai.Plans.Spec.{TaskExecutionPlanSpec}
use muti_ai.Plans.Sound.{IsSound}
use muti_ai.Plans.Shape.{ExecutionShape}
use muti_ai.Plans.Create.{
  OrganizationSpecVersion, existing_plan, new_plan, store_plan, replay_or_store,
  create_task_execution_plan,
}
use muti_ai.Plans.Guards.{same_answer, create-replay_or_store, replay_or_store-store_plan}
use muti_ai.Plans.Creation.{known_edges, store_plan-rows}

existing_plan-append :
    (task_id : String) (plan_version : ℕ) (plans : List TaskExecutionPlan) (p : TaskExecutionPlan)
    → existing_plan task_id plan_version plans ≡ none
    → (p.task_id == task_id) ≡ true
    → (p.plan_version == plan_version) ≡ true
    → existing_plan task_id plan_version (plans ++ p ∷ []) ≡ some p
unfolding existing_plan
existing_plan-append task_id plan_version [] p h t v = ground arith
existing_plan-append task_id plan_version (q ∷ plans) p h t v =
    ground (arith, existing_plan-append task_id plan_version plans p)

module _ (ids : Identities) where
  existing_plan-store_plan :
      (draws : Draws) (task : Task) (spec : TaskExecutionPlanSpec) (source : String)
      (plan_version : ℕ) (shape : ExecutionShape) (s : Session)
      → IsSound spec
      → existing_plan task.task_id plan_version s.plans ≡ none
      → existing_plan task.task_id plan_version
          (store_plan ids draws task spec
            (new_plan ids draws task spec source plan_version shape)
            shape
            s).1.plans
        ≡ some (new_plan ids draws task spec source plan_version shape)
  unfolding new_plan
  existing_plan-store_plan draws task spec source plan_version shape s sound new_ =
      let (rows, answer, plans, deps) =
        store_plan-rows ids draws task spec (new_plan ids draws task spec source plan_version shape)
          shape s (known_edges spec sound) in
      ap (existing_plan task.task_id plan_version) plans
      ∙ existing_plan-append task.task_id plan_version s.plans
          (new_plan ids draws task spec source plan_version shape) new_ (ground arith)
          (ground arith)

  replays :
      (draws draws' : Draws) (task : Task) (spec : TaskExecutionPlanSpec) (source : String)
      (plan_version : ℕ) (shape shape' : ExecutionShape) (s : Session)
      → existing_plan task.task_id plan_version s.plans
        ≡ some (new_plan ids draws task spec source plan_version shape)
      → replay_or_store ids draws' task spec source plan_version shape' s
        ≡ (ok (new_plan ids draws task spec source plan_version shape, false), s)
  unfolding replay_or_store new_plan
  replays draws draws' task spec source plan_version shape shape' s there =
      let hash : (plan_definition_hash ids spec != plan_definition_hash ids spec) ≡ false =
        ground arith in
      let version : (task.organization_spec_version_id != task.organization_spec_version_id)
          ≡ false =
        ground arith in
      let origin : (source != source) ≡ false = ground arith in
      rw (there, replay_or_store) (rw (hash, version, origin) refl)

  -- After a call has created a sound plan, the same call, at any later time, returns the same
  -- plan as not created and leaves the database as it is.
  pub create_task_execution_plan-replay :
      (draws draws' : Draws) (versions : List OrganizationSpecVersion) (task : Task)
      (spec : TaskExecutionPlanSpec) (source : String) (plan_version : ℕ) (s : Session)
      (plan : TaskExecutionPlan)
      → IsSound spec
      → (create_task_execution_plan ids draws versions task spec source plan_version s).0
        ≡ ok (plan, true)
      → create_task_execution_plan ids draws' versions task spec source plan_version
          (create_task_execution_plan ids draws versions task spec source plan_version s).1
        ≡ (
          ok (plan, false),
          (create_task_execution_plan ids draws versions task spec source plan_version s).1,
        )
  create_task_execution_plan-replay draws draws' versions task spec source plan_version s plan sound
        h =
      let (shape, passes) =
        create-replay_or_store ids draws versions task spec source plan_version s plan h in
      let after = create_task_execution_plan ids draws versions task spec source plan_version s in
      let (new_, stores) =
        replay_or_store-store_plan ids draws task spec source plan_version shape s plan
          (sym (ap (λ r. r.0) (passes draws s)) ∙ h) in
      let stored : after
          ≡ store_plan ids draws task spec (new_plan ids draws task spec source plan_version shape)
              shape s =
        passes draws s ∙ stores in
      let (rows, answer, plans, deps) =
        store_plan-rows ids draws task spec (new_plan ids draws task spec source plan_version shape)
          shape s (known_edges spec sound) in
      let this = same_answer _ answer (sym (ap (λ r. r.0) stored) ∙ h) in
      passes draws' after.1
      ∙ replays draws draws' task spec source plan_version shape shape after.1 (
          ap (λ r. existing_plan task.task_id plan_version r.1.plans) stored
          ∙ existing_plan-store_plan draws task spec source plan_version shape s sound new_)
      ∙ ap (λ p. (ok (p, false), after.1)) this
