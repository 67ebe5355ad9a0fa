-- ===== src/Workflow.antt =====
-- The workflows of `EnterpriseJobService` in shared/infrastructure/jobs/enterprise-job.service.ts. The
-- entry of a step in an execution is found by the identifier of the step, so the entries are a map.
-- Results, time stamps and retry counts are only stored and are left out.
pub mod Order
pub mod Settled
use finvoice.Prelude.{
  ap, Bool, true, false, not, ◌&&◌, Option, none, some, List, [], ◌∷◌, map, all, ◌==◌,
}
use finvoice.Text.{given_text, Text}
use finvoice.Dict.{Dict, lookup, insert}
use finvoice.Outcome.{Result, ok, err, Method, call}
use finvoice.Runtime.{le}
use finvoice.Outcome.{Exception}

pub data StepType : Type 0 where
  job condition parallel loop wait webhook : StepType

pub data StepStatus : Type 0 where
  pending running completed failed skipped : StepStatus

pub data WorkflowStatus : Type 0 where
  pending running completed failed : WorkflowStatus

-- Without dependencies is the same as with none; `on_failure` is whether that is given. A step of the
-- types `parallel` and `loop` holds steps of its own, which nothing reads.
pub record WorkflowStep : Type 0 where
  pub id : Text
  pub type : StepType
  pub job_name : Option Text
  pub dependencies : List Text
  pub on_failure : Bool

pub record WorkflowExecution : Type 0 where
  pub status : WorkflowStatus
  pub steps : Dict StepStatus
  pub failure : Option Exception

-- `depStep?.status === 'completed'`
abbrev pub is_completed : Option StepStatus → Bool
is_completed (some StepStatus.completed) = true
is_completed _ = false

abbrev pub initial_steps : List WorkflowStep → Dict StepStatus
initial_steps [] = []
initial_steps (step ∷ steps) = (step.id, StepStatus.pending) ∷ initial_steps steps

-- `every(depId => …)`
abbrev pub dependencies_met : Dict StepStatus → List Text → Bool
dependencies_met entries [] = true
dependencies_met entries (id ∷ ids) =
    is_completed (lookup id entries) && dependencies_met entries ids

module _ {W : Type 0} (add_job : Text → Method W (Unit {0})) where
  -- The switch on the type. A condition is evaluated by JavaScript, which throws nothing here, and its
  -- value is only stored.
  unfoldable pub perform : WorkflowStep → Method W (Unit {0})
  perform step = elim step.type [
    | job ↦ elim (given_text step.job_name) [ none ↦ call (ok tt) | some name ↦ add_job name ]
    | condition ↦ call (ok tt)
    | parallel ↦ call (ok tt)
    | loop ↦ call (ok tt)
    | wait ↦ call (ok tt)
    | webhook ↦ call (ok tt)
  ]

  -- The loop of `executeWorkflowSteps`.
  unfoldable pub run_steps :
      List WorkflowStep → Dict StepStatus → W → Result (Unit {0}) × (Dict StepStatus × W)
  run_steps [] entries w = (ok tt, (entries, w))
  run_steps (step ∷ steps) entries w = elim (dependencies_met entries step.dependencies) [
    | false ↦ run_steps steps (insert step.id StepStatus.skipped entries) w
    | true ↦
        let started = insert step.id StepStatus.running entries in
        let (result, w') = perform step w in
        elim result [
          | ok _ ↦ run_steps steps (insert step.id StepStatus.completed started) w'
          | err e ↦ elim step.on_failure [
            | true ↦ run_steps steps (insert step.id StepStatus.failed started) w'
            | false ↦ (err e, (insert step.id StepStatus.failed started, w'))
          ]
        ]
  ]

  -- `executeWorkflow`, up to the end of the steps.
  unfoldable pub execute_workflow_steps : List WorkflowStep → W → WorkflowExecution × W
  execute_workflow_steps steps w =
      let (result, (entries, w')) = run_steps steps (initial_steps steps) w in
      (
        elim result [
          | ok _ ↦ record { status = WorkflowStatus.completed; steps = entries; failure = none }
          | err e ↦ record { status = WorkflowStatus.failed; steps = entries; failure = some e }
        ],
        w',
      )
