-- ===== src/Plans/Creation.antt =====
-- What `create_task_execution_plan` (src/mutiai/services/task_plans.py) stores.
use muti_ai.Prelude.{
  ℕ, suc, ◌+◌, String, ◌≡◌, ◌∙◌, sym, ap, subst, refl, true, false, some, List, [], ◌∷◌, ◌++◌,
  arith, ◌==◌, string_eq, nat_eq, elem, length, map, is_empty, is_some, All, All-map, All-both,
  Bool-cases, inl, inr, ok,
}
use muti_ai.Keys.{found-elem}
use muti_ai.Models.Task.{Task}
use muti_ai.Models.Plan.{TaskExecutionPlan, PlanStep}
use muti_ai.Database.{Session, Draws, later}
use muti_ai.Events.{append_task_event}
use muti_ai.Scheduler.Rows.{step_row, steps_of}
use muti_ai.Plans.Identity.{Identities, deterministic_plan_step_id}
use muti_ai.Plans.Spec.{PlanStepSpec, TaskExecutionPlanSpec, step_of, step_keys}
use muti_ai.Plans.Sound.{IsSound}
use muti_ai.Plans.Shape.{ExecutionShape}
use muti_ai.Plans.Create.{
  OrganizationSpecVersion, edges, new_plan, new_steps, announce, finish_plan, store_plan,
  create_task_execution_plan,
}
use muti_ai.Plans.Guards.{same_answer, create-store_plan}
use muti_ai.Plans.Stored.{
  dependency_keys, spec_of, stored_steps, dependency_keys-append, Own, targets-edges,
}
use muti_ai.Plans.Roundtrip.{
  TellsApart, new_dependencies, add_dependencies-ok, steps_of-append, step_row-new_steps,
  dependency_keys-new, map-spec_of,
}

All-own_edges {κ} :
    (P : String → Type κ) (k : String) (ds : List String) (es : List (String × String))
    → All P ds
    → All (λ e. P e.1) es
    → All (λ e. P e.1) (map (λ d. (k, d)) ds ++ es)
All-own_edges P k [] es h rest = rest
All-own_edges P k (d ∷ ds) es h rest = (h.0, All-own_edges P k ds es h.1 rest)

All-edges {κ} :
    (P : String → Type κ) (specs : List PlanStepSpec)
    → All (λ s. All P s.depends_on) specs
    → All (λ e. P e.1) (edges specs)
unfolding edges
All-edges P [] h = tt
All-edges P (x ∷ specs) h =
    All-own_edges P x.step_key x.depends_on (edges specs) h.0 (All-edges P specs h.1)

-- The dependencies of a sound plan are steps.
pub known_edges :
    (spec : TaskExecutionPlanSpec)
    → IsSound spec
    → All (λ e. elem e.1 (step_keys spec.steps) ≡ true) (edges spec.steps)
known_edges spec sound =
    All-edges (λ k. elem k (step_keys spec.steps) ≡ true) spec.steps
      (All-map (λ x. All (λ k. is_some (step_of k spec.steps) ≡ true) x.depends_on) _ spec.steps
        (λ x h.
          All-map (λ k. is_some (step_of k spec.steps) ≡ true) _ x.depends_on
            (λ k e. sym (found-elem (λ x. x.step_key) k spec.steps) ∙ e) h)
        sound.closed)

-- The keys of the steps are among them.
own_keys : (specs : List PlanStepSpec) → All (λ x. elem x.step_key (step_keys specs) ≡ true) specs
own_keys [] = tt
own_keys (x ∷ specs) = (
  ground arith,
  All-map (λ y. elem y.step_key (step_keys specs) ≡ true) _ specs (λ y h. ground arith)
      (own_keys specs),
)

All-edge_keys {κ} :
    (P : String → Type κ) (specs : List PlanStepSpec)
    → All (λ s. P s.step_key) specs
    → All (λ e. P e.0) (edges specs)
unfolding edges
All-edge_keys P [] h = tt
All-edge_keys P (x ∷ specs) h = each (All-edge_keys P specs h.1) x.depends_on
  where
    each :
        All (λ e. P e.0) (edges specs)
        → (ds : List String) → All (λ e. P e.0) (map (λ d. (x.step_key, d)) ds ++ edges specs)
    each rest [] = rest
    each rest (d ∷ ds) = (h.0, each rest ds)

-- The tables hold no steps of the plan and no dependencies of steps with the ids of these keys.
pub record IsFresh (ids : Identities) (plan_id : String) (keys : List String) (s : Session)
    : Type 0 where
  pub steps : All (λ x. (x.plan_id == plan_id) ≡ false) s.plan_steps
  pub edges_of :
      (k : String)
      → elem k keys ≡ true
      → All
          (λ d. (d.plan_step_id == deterministic_plan_step_id ids plan_id k) ≡ false)
          s.dependencies

module _ (ids : Identities) where
  announce-rows :
      (draws : Draws) (task : Task) (plan_id : String) (specs : List PlanStepSpec) (s : Session)
      → ((announce ids draws task plan_id specs s).plan_steps ≡ s.plan_steps)
        × ((announce ids draws task plan_id specs s).dependencies ≡ s.dependencies)
        × ((announce ids draws task plan_id specs s).plans ≡ s.plans)
  unfolding announce append_task_event
  announce-rows draws task plan_id [] s = (refl, refl, refl)
  announce-rows draws task plan_id (x ∷ specs) s = elim (Bool-cases (is_empty x.depends_on)) [
    | inl root ↦ rw root (announce-rows (later 1 draws) task plan_id specs _)
    | inr waits ↦ rw waits (announce-rows draws task plan_id specs s)
  ]

  -- The rows after a plan with known dependencies is stored.
  pub store_plan-rows :
      (draws : Draws) (task : Task) (spec : TaskExecutionPlanSpec) (plan : TaskExecutionPlan)
      (shape : ExecutionShape) (s : Session)
      → All (λ e. elem e.1 (step_keys spec.steps) ≡ true) (edges spec.steps)
      → ((store_plan ids draws task spec plan shape s).1.plan_steps
          ≡ s.plan_steps ++ new_steps ids (later 1 draws) plan.plan_id 0 spec.steps)
        × ((store_plan ids draws task spec plan shape s).0 ≡ ok (plan, true))
        × ((store_plan ids draws task spec plan shape s).1.plans ≡ s.plans ++ plan ∷ [])
        × ((d : Draws) × ((store_plan ids draws task spec plan shape s).1.dependencies
              ≡ s.dependencies ++ new_dependencies ids plan.plan_id d (edges spec.steps)))
  unfolding store_plan finish_plan append_task_event
  store_plan-rows draws task spec plan shape s known =
      let drawn = suc (length spec.steps + length spec.steps) in
      let added =
        add_dependencies-ok ids plan.plan_id (later drawn draws) (step_keys spec.steps)
          (edges spec.steps)
          (record s {
            plans = s.plans ++ plan ∷ [];
            plan_steps = s.plan_steps ++ new_steps ids (later 1 draws) plan.plan_id 0 spec.steps;
          })
          known in
      rw (added, store_plan)
        (let (rows, deps, plans) =
            announce-rows (later 1 (later (drawn + length (edges spec.steps)) draws)) task
              plan.plan_id spec.steps _ in
          (rows, refl, plans, (later drawn draws, deps)))

  -- The steps that the rows keep.
  stored_steps-rows :
      (plan_id : String) (spec : TaskExecutionPlanSpec) (s t : Session) (draws d : Draws)
      → TellsApart ids plan_id (step_keys spec.steps)
      → IsSound spec
      → IsFresh ids plan_id (step_keys spec.steps) s
      → t.plan_steps ≡ s.plan_steps ++ new_steps ids draws plan_id 0 spec.steps
      → t.dependencies ≡ s.dependencies ++ new_dependencies ids plan_id d (edges spec.steps)
      → stored_steps plan_id t ≡ spec.steps
  stored_steps-rows plan_id spec s t draws d apart sound fresh rows deps =
      let keys = step_keys spec.steps in
      let own = own_keys spec.steps in
      let news = new_steps ids draws plan_id 0 spec.steps in
      let listed : steps_of plan_id t.plan_steps ≡ news =
        ap (steps_of plan_id) rows
        ∙ steps_of-append ids plan_id draws spec.steps s.plan_steps fresh.steps in
      let known : All
          (λ e.
            (x : PlanStep) × (step_row (deterministic_plan_step_id ids plan_id e.1) news ≡ some x)
            × (x.step_key ≡ e.1))
          (edges spec.steps) =
        All-edges
          (λ k.
            (x : PlanStep) × (step_row (deterministic_plan_step_id ids plan_id k) news ≡ some x)
            × (x.step_key ≡ k))
          spec.steps
          (All-map (λ x. All (λ k. is_some (step_of k spec.steps) ≡ true) x.depends_on) _ spec.steps
            (λ x h.
              All-map (λ k. is_some (step_of k spec.steps) ≡ true) _ x.depends_on
                (λ k e.
                  let here : elem k keys ≡ true =
                    sym (found-elem (λ x. x.step_key) k spec.steps) ∙ e in
                  step_row-new_steps ids plan_id keys apart draws 0 spec.steps k own here here)
                h)
            sound.closed) in
      ap (λ l. map (spec_of l t.dependencies) l) listed
      ∙ map-spec_of ids plan_id keys apart draws 0 spec.steps news t.dependencies (
          All-map (λ x. (elem x.step_key keys ≡ true) × Own (edges spec.steps) x)
            (λ x.
              dependency_keys (deterministic_plan_step_id ids plan_id x.step_key) news
                t.dependencies
              ≡ x.depends_on)
            spec.steps
            (λ x (here, targets_).
              ap (dependency_keys (deterministic_plan_step_id ids plan_id x.step_key) news) deps
              ∙ dependency_keys-append (deterministic_plan_step_id ids plan_id x.step_key) news
                  s.dependencies (new_dependencies ids plan_id d (edges spec.steps))
                  (fresh.edges_of x.step_key here)
              ∙ dependency_keys-new ids plan_id keys apart d news (edges spec.steps) x.step_key
                  (All-edge_keys (λ k. elem k keys ≡ true) spec.steps own) here known
              ∙ targets_)
            (All-both (λ x. elem x.step_key keys ≡ true) (Own (edges spec.steps)) spec.steps own
              (targets-edges spec.steps sound.keys)))

  -- Where a sound plan is created, the ids of its steps with different keys are different, and the
  -- tables hold no steps of the plan and no dependencies of its steps before, the steps that are
  -- read back from the stored rows in their sequence, with the keys of their dependencies, are the
  -- steps of the specification.
  pub create_task_execution_plan-stored_steps :
      (draws : Draws) (versions : List OrganizationSpecVersion) (task : Task)
      (spec : TaskExecutionPlanSpec) (source : String) (plan_version : ℕ) (s : Session)
      (plan : TaskExecutionPlan)
      → TellsApart ids plan.plan_id (step_keys spec.steps)
      → IsSound spec
      → IsFresh ids plan.plan_id (step_keys spec.steps) s
      → (create_task_execution_plan ids draws versions task spec source plan_version s).0
        ≡ ok (plan, true)
      → stored_steps plan.plan_id
          (create_task_execution_plan ids draws versions task spec source plan_version s).1
        ≡ spec.steps
  create_task_execution_plan-stored_steps draws versions task spec source plan_version s plan apart
        sound fresh h =
      let (shape, new_, stores) =
        create-store_plan ids draws versions task spec source plan_version s plan h in
      let made = new_plan ids draws task spec source plan_version shape in
      let known = known_edges spec sound in
      let (rows, answer, plans, (d, deps)) = store_plan-rows draws task spec made shape s known in
      let this : made ≡ plan = same_answer _ answer (sym (ap (λ r. r.0) stores) ∙ h) in
      ap (λ r. stored_steps plan.plan_id r.1) stores
      ∙ subst
          (λ p. stored_steps p.plan_id (store_plan ids draws task spec made shape s).1 ≡ spec.steps)
          this
          (stored_steps-rows made.plan_id spec s (store_plan ids draws task spec made shape s).1
            (later 1 draws) d
            (subst (λ p. TellsApart ids p.plan_id (step_keys spec.steps)) (sym this) apart) sound
            (subst (λ p. IsFresh ids p.plan_id (step_keys spec.steps) s) (sym this) fresh) rows
            deps)
