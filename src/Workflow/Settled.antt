-- ===== src/Workflow/Settled.antt =====
-- What the workflows of shared/infrastructure/jobs/enterprise-job.service.ts leave of their steps.
use finvoice.Prelude.{
  ◌∙◌, ◌≡◌, refl, ap, sym, subst, Bool, true, false, Option, some, List, [], ◌∷◌, if◌then◌else◌,
  arith, Bool-cases, inl, inr, All,
}
use finvoice.Text.{Text}
use finvoice.Dict.{Dict, lookup, insert}
use finvoice.Outcome.{ok, Method, Result-cases}
use finvoice.Dict.{lookup-insert, insert-insert}
use finvoice.Text.Laws.{text_eq_refl}
use finvoice.Workflow.{
  WorkflowStep, StepStatus, WorkflowStatus, initial_steps, dependencies_met, perform, run_steps,
  execute_workflow_steps,
}
use finvoice.Workflow.Order.{HasDistinctIds, left, lookup-left}

-- A step that is done with: completed, skipped, or failed with a handler.
abbrev pub is_settled : WorkflowStep → Option StepStatus → Bool
is_settled step (some StepStatus.completed) = true
is_settled step (some StepStatus.skipped) = true
is_settled step (some StepStatus.failed) = step.on_failure
is_settled step _ = false

module _ {W : Type 0} (add_job : Text → Method W (Unit {0})) where
  step_ok :
      (step : WorkflowStep) (steps : List WorkflowStep) (entries : Dict StepStatus) (w : W)
      → (run_steps add_job (step ∷ steps) entries w).0 ≡ ok tt
      → (v : StepStatus) × (w' : W) × (run_steps add_job (step ∷ steps) entries w
          ≡ run_steps add_job steps (insert step.id v entries) w')
        × (is_settled step (some v) ≡ true)
  unfolding run_steps
  step_ok step steps entries w h =
      let twice = insert-insert step.id StepStatus.running in
      elim (Bool-cases (dependencies_met entries step.dependencies)) [
        | inr unmet ↦ (StepStatus.skipped, w, ground (arith, unmet), refl)
        | inl met ↦
            let w1 = (perform add_job step w).1 in
            elim (Result-cases (perform add_job step w).0) [
              | inl (_, good) ↦ (
                StepStatus.completed,
                w1,
                ground (arith, met, good, twice StepStatus.completed entries),
                refl,
              )
              | inr (e, bad) ↦ elim (Bool-cases step.on_failure) [
                | inl handled ↦ (
                  StepStatus.failed,
                  w1,
                  ground (arith, met, bad, handled, twice StepStatus.failed entries),
                  handled,
                )
                | inr thrown ↦ absurd (ground (arith, met, bad, thrown, h))
              ]
            ]
      ]

  run_steps-settled :
      (steps : List WorkflowStep) (entries : Dict StepStatus) (w : W)
      → HasDistinctIds steps
      → (run_steps add_job steps entries w).0 ≡ ok tt
      → All (λ step. is_settled step (lookup step.id (left add_job steps entries w)) ≡ true) steps
  run_steps-settled [] entries w d h = tt
  run_steps-settled (step ∷ steps) entries w (new, d) h =
      let (v, w', on, settled) = step_ok step steps entries w h in
      let m = insert step.id v entries in
      let here : lookup step.id (left add_job steps m w') ≡ some v =
        lookup-left add_job step.id steps m w' new
        ∙ lookup-insert step.id step.id v entries
        ∙ ap (λ b. if b then some v else lookup step.id entries) (text_eq_refl step.id) in
      subst
        (λ l.
          (is_settled step (lookup step.id l) ≡ true)
          × All (λ s. is_settled s (lookup s.id l) ≡ true) steps)
        (sym (ap (λ r. r.1.0) on))
        (
          ap (is_settled step) here ∙ settled,
          run_steps-settled steps m w' d (sym (ap (λ r. r.0) on) ∙ h),
        )

  -- Where an execution of steps with distinct identifiers ends as completed, no step is left pending or
  -- running: each is completed, skipped, or failed with a handler.
  pub execute_workflow_steps-settled :
      (steps : List WorkflowStep) (w : W)
      → HasDistinctIds steps
      → (execute_workflow_steps add_job steps w).0.status ≡ WorkflowStatus.completed
      → All
          (λ step.
            is_settled step (lookup step.id (execute_workflow_steps add_job steps w).0.steps)
            ≡ true)
          steps
  unfolding execute_workflow_steps
  execute_workflow_steps-settled steps w distinct ended =
      let execution = (execute_workflow_steps add_job steps w).0 in
      elim (Result-cases (run_steps add_job steps (initial_steps steps) w).0) [
        | inr (e, bad) ↦ absurd (ground (arith, bad, ended))
        | inl (_, good) ↦
            let same : left add_job steps (initial_steps steps) w ≡ execution.steps =
              ground (arith, good) in
            subst (λ l. All (λ step. is_settled step (lookup step.id l) ≡ true) steps) same
              (run_steps-settled steps (initial_steps steps) w distinct (ground (arith, good)))
      ]
