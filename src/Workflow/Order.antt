-- ===== src/Workflow/Order.antt =====
-- The order of the steps in the workflows of shared/infrastructure/jobs/enterprise-job.service.ts.
use finvoice.Prelude.{
  ◌∙◌, Bool-cases, inl, inr, ◌⊎◌, ◌≡◌, refl, true, false, some, List, [], ◌∷◌, arith, All,
}
use finvoice.Outcome.{Result-cases, Method}
use finvoice.Text.{Text, text_eq}
use finvoice.Dict.{insert-insert, Dict, lookup, insert, lookup-insert}
use finvoice.Workflow.{WorkflowStep, StepStatus, is_completed, dependencies_met, perform, run_steps}

-- No step has the identifier.
abbrev pub NotAmong : Text → List WorkflowStep → Type 0
NotAmong k steps = All (λ step. text_eq step.id k ≡ false) steps

-- The steps are still to come, and have identifiers of their own.
abbrev pub AreOpen : Dict StepStatus → List WorkflowStep → Type 0
AreOpen entries [] = Unit
AreOpen entries (step ∷ steps) =
    (lookup step.id entries ≡ some StepStatus.pending)
    × NotAmong step.id steps
    × AreOpen entries steps

-- A completed step has completed dependencies.
abbrev pub InOrder : Dict StepStatus → WorkflowStep → Type 0
InOrder entries step =
    is_completed (lookup step.id entries) ≡ true → dependencies_met entries step.dependencies ≡ true

-- No two steps have the same identifier.
abbrev pub HasDistinctIds : List WorkflowStep → Type 0
HasDistinctIds [] = Unit
HasDistinctIds (step ∷ steps) = NotAmong step.id steps × HasDistinctIds steps

module _ {W : Type 0} (add_job : Text → Method W (Unit {0})) where
  -- What the loop leaves of the entries.
  abbrev pub left : List WorkflowStep → Dict StepStatus → W → Dict StepStatus
  left steps entries w = (run_steps add_job steps entries w).1.0

  -- The entries with which the loop goes on, or ends.
  step_cases :
      (step : WorkflowStep) (steps : List WorkflowStep) (entries : Dict StepStatus) (w : W)
      → (v : StepStatus) × (w' : W) × ((left (step ∷ steps) entries w
            ≡ left steps (insert step.id v entries) w')
          ⊎ (left (step ∷ steps) entries w ≡ insert step.id v entries))
        × ((v ≡ StepStatus.completed) → dependencies_met entries step.dependencies ≡ true)
  unfolding run_steps
  step_cases step steps entries w = elim (Bool-cases (dependencies_met entries step.dependencies)) [
    | inr unmet ↦ (StepStatus.skipped, w, inl (ground (arith, unmet)), λ h. cc)
    | inl met ↦
        let w1 = (perform add_job step w).1 in
        elim (Result-cases (perform add_job step w).0) [
          | inl (_, good) ↦ (
            StepStatus.completed,
            w1,
            inl (
                ground (
                  arith,
                  met,
                  good,
                  insert-insert step.id StepStatus.running StepStatus.completed entries,
                )),
            λ h. met,
          )
          | inr (e, bad) ↦ elim (Bool-cases step.on_failure) [
            | inl handled ↦ (
              StepStatus.failed,
              w1,
              inl (
                  ground (
                    arith,
                    met,
                    bad,
                    handled,
                    insert-insert step.id StepStatus.running StepStatus.failed entries,
                  )),
              λ h. met,
            )
            | inr thrown ↦ (
              StepStatus.failed,
              w1,
              inr (
                  ground (
                    arith,
                    met,
                    bad,
                    thrown,
                    insert-insert step.id StepStatus.running StepStatus.failed entries,
                  )),
              λ h. met,
            )
          ]
        ]
  ]

  -- The loop leaves the entries of other steps alone.
  pub lookup-left :
      (k : Text) (steps : List WorkflowStep) (entries : Dict StepStatus) (w : W)
      → NotAmong k steps
      → lookup k (left steps entries w) ≡ lookup k entries
  lookup-left k [] entries w h = unfold run_steps in refl
  lookup-left k (step ∷ steps) entries w (h, hs) =
      let (v, w', next, _) = step_cases step steps entries w in
      let same : lookup k (insert step.id v entries) ≡ lookup k entries =
        rw (lookup-insert step.id k v entries, h) refl in
      elim next [
        | inl on ↦ rw on (lookup-left k steps (insert step.id v entries) w' hs ∙ same)
        | inr ended ↦ rw ended same
      ]
