-- ===== src/Expense/Report/Laws.antt =====
-- What holds of every expense report between two calls, and the status diagram.
use finvoice.Prelude.{
  ◌≡◌, ◌≢◌, ◌≤◌, ◌<◌, true, false, Option, none, some, arith, String, ◌⊎◌, Option-cases, inl, inr,
}
use finvoice.Text.{Text, has_content}
use finvoice.Text.Laws.{IsClean, trim-IsClean}
use finvoice.Outcome.{Result-cases}
use finvoice.Runtime.{Runtime, IsOrdered, Clock, Date, nought, le, or_else}
use finvoice.Expense.Receipt.{
  OcrData, new_receipt, IsReceipt, new_receipt-IsReceipt, new_receipt_again,
}
use finvoice.Expense.Report.{
  draft, approved, rejected, paid, status_code, ExpenseCategory, Report, attach_receipt, submit,
  start_review, approve, reject, mark_as_paid, clear_events,
}
use finvoice.Expense.Report.Ocr.{take_amount, take_currency, take_date, update_from_ocr}
use finvoice.Expense.Report.Details.{
  set_title, set_description, set_amount, set_category, set_expense_date, set_project_id, set_notes,
  update_details,
}
use finvoice.Expense.Report.Workflow.{
  Call, attach, read_ocr, submit_it, review, approve_it, reject_it, pay, clear_it, update,
  step_report, HasReceipt,
}

abbrev pub IsCleanOption : Option Text → Type 0
IsCleanOption none = ⊥
IsCleanOption (some t) = IsClean t

module _ {N : Type 0} ⦃r : Runtime N⦄ where
  abbrev pub IsPositive : N → Type 0
  IsPositive a = r.lt nought a ≡ true

  abbrev pub IsPositiveOption : Option N → Type 0
  IsPositiveOption none = ⊥
  IsPositiveOption (some a) = IsPositive a

  pub record IsConsistent (s : Report N) : Type 0 where
    pub employee : IsClean s.employee_id
    pub titled : IsClean s.title
    pub amount_pos : IsPositive s.amount
    pub receipt_valid : HasReceipt s.receipt
    pub submitted_has_receipt : s.status ≢ draft → s.receipt ≢ none
    pub submitted_dated : s.status ≢ draft → s.submitted_at ≢ none
    pub reviewed : 2 ≤ status_code s.status → IsCleanOption s.reviewed_by
    pub decided : 3 ≤ status_code s.status → s.reviewed_at ≢ none
    pub undecided : status_code s.status < 3 → s.approved_amount ≡ none
    pub rejected_reason : s.status ≡ rejected → IsCleanOption s.rejection_reason
    pub approved_pos :
        (s.status ≡ approved) ⊎ (s.status ≡ paid) → IsPositiveOption s.approved_amount

  attach_receipt-IsConsistent :
      (name url : Text) (size : N) (mime : String) (ocr : Option (OcrData N)) (clock : Clock)
      (s : Report N)
      → IsConsistent s
      → IsConsistent (attach_receipt name url size mime ocr clock s).1
  unfolding attach_receipt
  attach_receipt-IsConsistent name url size mime ocr clock s h =
      elim (Result-cases (new_receipt name url size mime (clock 0) ocr)) [
        | inl (receipt, e) ↦
            ground (arith, e, new_receipt-IsReceipt name url size mime (clock 0) ocr e)
        | inr (x, e) ↦ ground (arith, e)
      ]

  submit-IsConsistent :
      (clock : Clock) (s : Report N) → IsConsistent s → IsConsistent (submit clock s).1
  unfolding submit
  submit-IsConsistent clock s h = ground arith

  start_review-IsConsistent :
      (who : Text) (clock : Clock) (s : Report N)
      → IsConsistent s
      → IsConsistent (start_review who clock s).1
  unfolding start_review
  start_review-IsConsistent who clock s h = ground (arith, trim-IsClean who)

  reject-IsConsistent :
      (who why : Text) (clock : Clock) (s : Report N)
      → IsConsistent s
      → IsConsistent (reject who why clock s).1
  unfolding reject
  reject-IsConsistent who why clock s h = ground (arith, trim-IsClean who, trim-IsClean why)

  mark_as_paid-IsConsistent :
      (clock : Clock) (s : Report N) → IsConsistent s → IsConsistent (mark_as_paid clock s).1
  unfolding mark_as_paid
  mark_as_paid-IsConsistent clock s h = ground arith

  module _ (laws : IsOrdered N) where
    pub positive : (a : N) → r.eq a a ≡ true → le a nought ≡ false → IsPositive a
    positive a n h = ground (arith, laws.lt_total a nought, laws.nought_eq)

    -- An approved amount is one that is given and not zero or NaN, or the amount of the report.
    or_else-IsPositive :
        (o : Option N) (amount : N)
        → IsPositive amount
        → le (or_else o amount) nought ≡ false
        → IsPositive (or_else o amount)
    or_else-IsPositive none amount p h = p
    or_else-IsPositive (some a) amount p h = ground (arith, positive a)

    approve-IsConsistent :
        (who : Text) (amount : Option N) (notes : Option Text) (clock : Clock) (s : Report N)
        → IsConsistent s
        → IsConsistent (approve who amount notes clock s).1
    unfolding approve
    approve-IsConsistent who amount notes clock s h =
        ground (arith, trim-IsClean who, or_else-IsPositive amount s.amount)

    set_title-IsConsistent :
        (o : Option Text) (s : Report N) → IsConsistent s → IsConsistent (set_title o s)
    unfolding set_title has_content
    set_title-IsConsistent none s h = h
    set_title-IsConsistent (some t) s h = ground (arith, trim-IsClean t)

    set_description-IsConsistent :
        (o : Option Text) (s : Report N) → IsConsistent s → IsConsistent (set_description o s)
    unfolding set_description
    set_description-IsConsistent none s h = h
    set_description-IsConsistent (some t) s h = ground arith

    set_amount-IsConsistent :
        (o : Option N) (s : Report N) → IsConsistent s → IsConsistent (set_amount o s)
    unfolding set_amount
    set_amount-IsConsistent none s h = h
    set_amount-IsConsistent (some a) s h = ground arith

    set_category-IsConsistent :
        (o : Option ExpenseCategory) (s : Report N)
        → IsConsistent s
        → IsConsistent (set_category o s)
    unfolding set_category
    set_category-IsConsistent none s h = h
    set_category-IsConsistent (some c) s h = ground arith

    set_expense_date-IsConsistent :
        (o : Option Date) (now : Date) (s : Report N)
        → IsConsistent s
        → IsConsistent (set_expense_date o now s)
    unfolding set_expense_date
    set_expense_date-IsConsistent none now s h = h
    set_expense_date-IsConsistent (some d) now s h = ground arith

    set_project_id-IsConsistent :
        (o : Option Text) (s : Report N) → IsConsistent s → IsConsistent (set_project_id o s)
    unfolding set_project_id
    set_project_id-IsConsistent none s h = h
    set_project_id-IsConsistent (some t) s h = ground arith

    set_notes-IsConsistent :
        (o : Option Text) (s : Report N) → IsConsistent s → IsConsistent (set_notes o s)
    unfolding set_notes
    set_notes-IsConsistent none s h = h
    set_notes-IsConsistent (some t) s h = ground arith

    update_details-IsConsistent :
        (title description : Option Text) (amount : Option N) (category : Option ExpenseCategory)
        (date : Option Date) (project notes : Option Text) (clock : Clock) (s : Report N)
        → IsConsistent s
        → IsConsistent
            (update_details title description amount category date project notes clock s).1
    unfolding update_details
    update_details-IsConsistent title description amount category date project notes clock s h =
        let h1 = set_description-IsConsistent description _ (set_title-IsConsistent title s h) in
        let h2 = set_category-IsConsistent category _ (set_amount-IsConsistent amount _ h1) in
        let h3 = set_expense_date-IsConsistent date (clock 0) _ h2 in
        let h4 = set_notes-IsConsistent notes _ (set_project_id-IsConsistent project _ h3) in
        ground arith

    take_amount-IsConsistent :
        (ocr : Option (OcrData N)) (s : Report N)
        → IsConsistent s
        → IsConsistent (take_amount ocr s)
    unfolding take_amount
    take_amount-IsConsistent none s h = h
    take_amount-IsConsistent (some ocr) s h = elim (Option-cases ocr.amount) [
      | inl lacks ↦ ground arith
      | inr (amount, e) ↦ ground (arith, e)
    ]

    take_currency-IsConsistent :
        (ocr : Option (OcrData N)) (s : Report N)
        → IsConsistent s
        → IsConsistent (take_currency ocr s)
    unfolding take_currency
    take_currency-IsConsistent none s h = h
    take_currency-IsConsistent (some ocr) s h = ground arith

    take_date-IsConsistent :
        (ocr : Option (OcrData N)) (now : Date) (s : Report N)
        → IsConsistent s
        → IsConsistent (take_date ocr now s)
    unfolding take_date
    take_date-IsConsistent none now s h = h
    take_date-IsConsistent (some ocr) now s h = ground arith

    update_from_ocr-IsConsistent :
        (ocr : Option (OcrData N)) (clock : Clock) (s : Report N)
        → IsConsistent s
        → IsConsistent (update_from_ocr ocr clock s).1
    unfolding update_from_ocr
    update_from_ocr-IsConsistent ocr clock s h = elim (Option-cases s.receipt) [
      | inl lacks ↦ ground arith
      | inr (receipt, has) ↦
          let v : IsReceipt receipt = rw has at h.receipt_valid in
          let h1 = take_currency-IsConsistent ocr _ (take_amount-IsConsistent ocr s h) in
          let h2 = take_date-IsConsistent ocr (clock 0) _ h1 in
          ground (
            arith,
            new_receipt_again receipt ocr v,
            new_receipt-IsReceipt receipt.file_name receipt.file_url receipt.file_size
                receipt.mime_type receipt.uploaded_at ocr
                {receipt = record receipt { ocr_data = ocr }},
          )
    ]

    -- Every method, whether it throws or not, keeps the invariant.
    pub step_report-IsConsistent :
        (c : Call N) (clock : Clock) (s : Report N)
        → IsConsistent s
        → IsConsistent (step_report c clock s).1
    unfolding step_report clear_events
    step_report-IsConsistent (attach name url size mime ocr) clock s h =
        attach_receipt-IsConsistent name url size mime ocr clock s h
    step_report-IsConsistent (read_ocr ocr) clock s h = update_from_ocr-IsConsistent ocr clock s h
    step_report-IsConsistent submit_it clock s h = submit-IsConsistent clock s h
    step_report-IsConsistent (review who) clock s h = start_review-IsConsistent who clock s h
    step_report-IsConsistent (approve_it who amount notes) clock s h =
        approve-IsConsistent who amount notes clock s h
    step_report-IsConsistent (reject_it who why) clock s h = reject-IsConsistent who why clock s h
    step_report-IsConsistent pay clock s h = mark_as_paid-IsConsistent clock s h
    step_report-IsConsistent clear_it clock s h = ground arith
    step_report-IsConsistent (update title description amount category date project notes) clock s
          h =
        update_details-IsConsistent title description amount category date project notes clock s h
