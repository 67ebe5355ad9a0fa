-- ===== src/Tests/Workflow.antt =====
-- A workflow at concrete inputs. The queue refuses the jobs named `b`.
use finvoice.Prelude.{◌≡◌, refl, true, false, some, List, [], ◌∷◌, ℕ, if◌then◌else◌, ◌+◌, All}
use finvoice.Text.{Text, text, text_eq}
use finvoice.Dict.{lookup, insert}
use finvoice.Outcome.{ok, err, error, Method}
use finvoice.Workflow.{
  WorkflowStep, StepType, StepStatus, perform, run_steps, execute_workflow_steps,
}
use finvoice.Workflow.Settled.{is_settled, execute_workflow_steps-settled}

abbrev add_job : Text → Method ℕ (Unit {0})
add_job name w = if text_eq name (text "b") then (err (error "refused" []), w) else (ok tt, w + 1)

abbrev steps : List WorkflowStep
steps =
    record {
      id = text "s1";
      type = StepType.job;
      job_name = some (text "a");
      dependencies = [];
      on_failure = false;
    }
    ∷ record {
      id = text "s2";
      type = StepType.job;
      job_name = some (text "b");
      dependencies = text "s1" ∷ [];
      on_failure = true;
    }
    ∷ record {
      id = text "s3";
      type = StepType.job;
      job_name = some (text "c");
      dependencies = text "s2" ∷ [];
      on_failure = false;
    }
    ∷ []

run_all :
    (execute_workflow_steps add_job steps 0).0.steps
    ≡ (text "s1", StepStatus.completed)
      ∷ (text "s2", StepStatus.failed)
      ∷ (text "s3", StepStatus.skipped)
      ∷ []
unfolding execute_workflow_steps run_steps perform insert lookup
run_all = refl

execute_workflow_steps-settled_example :
    All
      (λ step.
        is_settled step (lookup step.id (execute_workflow_steps add_job steps 0).0.steps) ≡ true)
      steps
execute_workflow_steps-settled_example =
    execute_workflow_steps-settled add_job steps 0 ((refl, (refl, tt)), ((refl, tt), (tt, tt)))
      (unfold execute_workflow_steps run_steps perform insert lookup in refl)
