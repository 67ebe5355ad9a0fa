-- ===== src/Expense/Report/Journey.antt =====
-- How a report moves from draft to paid or rejected.
use finvoice.Prelude.{true, ◌≡◌, refl, Option, none, some, List, [], ◌∷◌, arith}
use finvoice.Text.{Text}
use finvoice.Text.Laws.{trim-IsClean}
use finvoice.Outcome.{ok}
use finvoice.Runtime.{Runtime, IsOrdered, Clock, Date}
use finvoice.Expense.Receipt.{OcrData}
use finvoice.Expense.Report.{
  ExpenseStatus, draft, submitted, under_review, approved, rejected, paid, ExpenseCategory, Report,
  create, attach_receipt, submit, start_review, approve, reject, mark_as_paid, clear_events,
}
use finvoice.Expense.Report.Ocr.{take_amount, take_currency, take_date, update_from_ocr}
use finvoice.Expense.Report.Details.{
  set_title, set_description, set_amount, set_category, set_expense_date, set_project_id, set_notes,
  update_details,
}
use finvoice.Expense.Report.Workflow.{
  Call, attach, read_ocr, submit_it, review, approve_it, reject_it, pay, clear_it, update,
  step_report,
}
use finvoice.Expense.Report.Laws.{positive, IsConsistent, step_report-IsConsistent}

infix 40 ◌⟶◌
pub data ◌⟶◌ : ExpenseStatus → ExpenseStatus → Type 0 where
  -- attaching a receipt or updating a draft, and reading OCR data in any status
  stay : {s : ExpenseStatus} → s ⟶ s
  submitting : draft ⟶ submitted
  reviewing : submitted ⟶ under_review
  approving : under_review ⟶ approved
  rejecting : under_review ⟶ rejected
  paying : approved ⟶ paid

-- The workflow's own fields, which an edit leaves alone.
pub record Keeps {N : Type 0} (s t : Report N) : Type 0 where
  pub status : t.status ≡ s.status
  pub approved_amount : t.approved_amount ≡ s.approved_amount

module _ {N : Type 0} ⦃r : Runtime N⦄ where
  Keeps-refl : (s : Report N) → Keeps s s
  Keeps-refl s = record { status = refl; approved_amount = refl }

  Keeps-trans : (s t u : Report N) → Keeps s t → Keeps t u → Keeps s u
  Keeps-trans s t u h k = ground arith

  take_amount-Keeps : (o : Option (OcrData N)) (s : Report N) → Keeps s (take_amount o s)
  unfolding take_amount
  take_amount-Keeps none s = Keeps-refl s
  take_amount-Keeps (some ocr) s = ground arith

  take_currency-Keeps : (o : Option (OcrData N)) (s : Report N) → Keeps s (take_currency o s)
  unfolding take_currency
  take_currency-Keeps none s = Keeps-refl s
  take_currency-Keeps (some ocr) s = ground arith

  take_date-Keeps :
      (o : Option (OcrData N)) (now : Date) (s : Report N) → Keeps s (take_date o now s)
  unfolding take_date
  take_date-Keeps none now s = Keeps-refl s
  take_date-Keeps (some ocr) now s = ground arith

  pub update_from_ocr-Keeps :
      (o : Option (OcrData N)) (clock : Clock) (s : Report N)
      → Keeps s (update_from_ocr o clock s).1
  unfolding update_from_ocr
  update_from_ocr-Keeps o clock s =
      let a = take_amount o s in
      let b = take_currency o a in
      ground (arith, take_amount-Keeps o s, take_currency-Keeps o a, take_date-Keeps o (clock 0) b)

  set_title-Keeps : (o : Option Text) (s : Report N) → Keeps s (set_title o s)
  unfolding set_title
  set_title-Keeps none s = Keeps-refl s
  set_title-Keeps (some t) s = ground arith

  set_description-Keeps : (o : Option Text) (s : Report N) → Keeps s (set_description o s)
  unfolding set_description
  set_description-Keeps none s = Keeps-refl s
  set_description-Keeps (some t) s = ground arith

  set_amount-Keeps : (o : Option N) (s : Report N) → Keeps s (set_amount o s)
  unfolding set_amount
  set_amount-Keeps none s = Keeps-refl s
  set_amount-Keeps (some a) s = ground arith

  set_category-Keeps : (o : Option ExpenseCategory) (s : Report N) → Keeps s (set_category o s)
  unfolding set_category
  set_category-Keeps none s = Keeps-refl s
  set_category-Keeps (some c) s = ground arith

  set_expense_date-Keeps :
      (o : Option Date) (now : Date) (s : Report N) → Keeps s (set_expense_date o now s)
  unfolding set_expense_date
  set_expense_date-Keeps none now s = Keeps-refl s
  set_expense_date-Keeps (some d) now s = ground arith

  set_project_id-Keeps : (o : Option Text) (s : Report N) → Keeps s (set_project_id o s)
  unfolding set_project_id
  set_project_id-Keeps none s = Keeps-refl s
  set_project_id-Keeps (some t) s = ground arith

  set_notes-Keeps : (o : Option Text) (s : Report N) → Keeps s (set_notes o s)
  unfolding set_notes
  set_notes-Keeps none s = Keeps-refl s
  set_notes-Keeps (some t) s = ground arith

  pub update_details-Keeps :
      (title description : Option Text) (amount : Option N) (category : Option ExpenseCategory)
      (date : Option Date) (project notes : Option Text) (clock : Clock) (s : Report N)
      → Keeps s (update_details title description amount category date project notes clock s).1
  unfolding update_details
  update_details-Keeps title description amount category date project notes clock s =
      let s1 = set_title title s in
      let s2 = set_description description s1 in
      let s3 = set_amount amount s2 in
      let s4 = set_category category s3 in
      let s5 = set_expense_date date (clock 0) s4 in
      let s6 = set_project_id project s5 in
      ground (
        arith,
        set_title-Keeps title s,
        set_description-Keeps description s1,
        set_amount-Keeps amount s2,
        set_category-Keeps category s3,
        set_expense_date-Keeps date (clock 0) s4,
        set_project_id-Keeps project s5,
        set_notes-Keeps notes s6,
      )

  -- A method that returns follows an edge of the diagram.
  pub step_report-⟶ :
      (c : Call N) (clock : Clock) (s : Report N)
      → (step_report c clock s).0 ≡ ok tt
      → s.status ⟶ (step_report c clock s).1.status
  unfolding step_report clear_events attach_receipt submit start_review approve reject mark_as_paid
  step_report-⟶ (attach name url size mime ocr) clock s h = grind (arith, stay)
  step_report-⟶ (read_ocr ocr) clock s h = rw (update_from_ocr-Keeps ocr clock s).status stay
  step_report-⟶ submit_it clock s h = grind (arith, submitting)
  step_report-⟶ (review who) clock s h = grind (arith, reviewing)
  step_report-⟶ (approve_it who amount notes) clock s h = grind (arith, approving)
  step_report-⟶ (reject_it who why) clock s h = grind (arith, rejecting)
  step_report-⟶ pay clock s h = grind (arith, paying)
  step_report-⟶ clear_it clock s h = stay
  step_report-⟶ (update title description amount category date project notes) clock s h =
      rw (update_details-Keeps title description amount category date project notes clock s).status
        stay

  -- A sequence of calls: a caller that catches an exception goes on with the report.
  unfoldable pub run_report : List (Call N × Clock) → Report N → Report N
  run_report [] s = s
  run_report ((c, clock) ∷ calls) s = run_report calls (step_report c clock s).1

  module _ (laws : IsOrdered N) where
    run_report-IsConsistent :
        (calls : List (Call N × Clock)) (s : Report N)
        → IsConsistent s
        → IsConsistent (run_report calls s)
    unfolding run_report
    run_report-IsConsistent [] s h = h
    run_report-IsConsistent ((c, clock) ∷ calls) s h =
        run_report-IsConsistent calls (step_report c clock s).1
          (step_report-IsConsistent laws c clock s h)

    create-IsConsistent :
        (id employee_id title description : Text) (amount : N) (currency : Text)
        (category : ExpenseCategory) (date : Date) (project notes : Option Text) (clock : Clock)
        (s : Report N)
        → r.eq amount amount ≡ true
        → create id employee_id title description amount currency category date project notes clock
          ≡ ok s
        → IsConsistent s
    unfolding create
    create-IsConsistent id employee_id title description amount currency category date project notes
          clock s num h =
        ground (arith, positive laws amount num, trim-IsClean employee_id, trim-IsClean title)

    -- Every report that `create` returns for an amount that is a number, and any calls then reach,
    -- keeps the invariant: its texts are clean, its amount is a number above zero; past draft
    -- it has a valid receipt and a submission date, from review on a reviewer, after a decision
    -- its date, if approved or paid a approved amount above zero, if rejected a reason.
    pub created_report-IsConsistent :
        (id employee_id title description : Text) (amount : N) (currency : Text)
        (category : ExpenseCategory) (date : Date) (project notes : Option Text) (clock : Clock)
        (s : Report N) (calls : List (Call N × Clock))
        → r.eq amount amount ≡ true
        → create id employee_id title description amount currency category date project notes clock
          ≡ ok s
        → IsConsistent (run_report calls s)
    created_report-IsConsistent id employee_id title description amount currency category date
          project notes clock s calls num h =
        run_report-IsConsistent calls s (
          create-IsConsistent id employee_id title description amount currency category date project
            notes clock s num h)
