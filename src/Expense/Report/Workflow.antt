-- ===== src/Expense/Report/Workflow.antt =====
-- The workflow of an expense report: every method as one step, what a call that throws leaves
-- behind, and the transition diagram.
use finvoice.Prelude.{◌≡◌, Option-cases, inl, inr, Option, none, some, arith, String}
use finvoice.Text.{Text}
use finvoice.Outcome.{ok, err, Exception, Method}
use finvoice.Runtime.{Runtime, Clock, Date}
use finvoice.Expense.Receipt.{OcrData, Receipt, IsReceipt, new_receipt_again}
use finvoice.Expense.Report.{
  ExpenseCategory, Report, attach_receipt, submit, start_review, approve, reject, mark_as_paid,
  clear_events,
}
use finvoice.Expense.Report.Ocr.{update_from_ocr}
use finvoice.Expense.Report.Details.{update_details}

-- A call of a method that mutates the report.
pub data Call (N : Type 0) : Type 0 where
  attach : Text → Text → N → String → Option (OcrData N) → Call N
  read_ocr : Option (OcrData N) → Call N
  submit_it : Call N
  review : Text → Call N
  approve_it : Text → Option N → Option Text → Call N
  reject_it : Text → Text → Call N
  pay clear_it : Call N
  update :
      (title description : Option Text)
      → Option N
      → Option ExpenseCategory
      → Option Date
      → (project_id notes : Option Text) → Call N

module _ {N : Type 0} ⦃r : Runtime N⦄ where
  unfoldable pub step_report : Call N → Clock → Method (Report N) (Unit {0})
  step_report (attach name url size mime ocr) clock = attach_receipt name url size mime ocr clock
  step_report (read_ocr ocr) clock = update_from_ocr ocr clock
  step_report submit_it clock = submit clock
  step_report (review who) clock = start_review who clock
  step_report (approve_it who amount notes) clock = approve who amount notes clock
  step_report (reject_it who why) clock = reject who why clock
  step_report pay clock = mark_as_paid clock
  step_report clear_it clock = clear_events
  step_report (update title description amount category date project notes) clock =
      update_details title description amount category date project notes clock

  -- A receipt that the report holds went through the constructor of `Receipt`.
  abbrev pub HasReceipt : Option (Receipt N) → Type 0
  HasReceipt none = Unit
  HasReceipt (some receipt) = IsReceipt receipt

  -- Reading OCR data never throws where the report holds a valid receipt.
  pub update_from_ocr_returns :
      (ocr : Option (OcrData N)) (clock : Clock) (s : Report N) (receipt : Receipt N)
      → s.receipt ≡ some receipt
      → IsReceipt receipt
      → (update_from_ocr ocr clock s).0 ≡ ok tt
  unfolding update_from_ocr
  update_from_ocr_returns ocr clock s receipt e v = ground (arith, new_receipt_again receipt ocr v)

  update_from_ocr_atomic :
      (ocr : Option (OcrData N)) (clock : Clock) (s : Report N) {e : Exception}
      → HasReceipt s.receipt
      → (update_from_ocr ocr clock s).0 ≡ err e
      → (update_from_ocr ocr clock s).1 ≡ s
  unfolding update_from_ocr
  update_from_ocr_atomic ocr clock s v h = elim (Option-cases s.receipt) [
    | inl lacks ↦ ground arith
    | inr (receipt, has) ↦
        let v' : IsReceipt receipt = rw has at v in
        let returns = update_from_ocr_returns ocr clock s receipt has v' in absurd (cc)
  ]

  -- A method that throws leaves the report as it was, with no event added, if the receipt that
  -- it holds, if any, is valid.
  pub step_report_atomic :
      (c : Call N) (clock : Clock) (s : Report N) {e : Exception}
      → HasReceipt s.receipt
      → (step_report c clock s).0 ≡ err e
      → (step_report c clock s).1 ≡ s
  unfolding step_report clear_events attach_receipt submit start_review approve reject mark_as_paid
      update_details
  step_report_atomic (attach name url size mime ocr) clock s v h = ground arith
  step_report_atomic (read_ocr ocr) clock s v h = update_from_ocr_atomic ocr clock s v h
  step_report_atomic submit_it clock s v h = ground arith
  step_report_atomic (review who) clock s v h = ground arith
  step_report_atomic (approve_it who amount notes) clock s v h = ground arith
  step_report_atomic (reject_it who why) clock s v h = ground arith
  step_report_atomic pay clock s v h = ground arith
  step_report_atomic clear_it clock s v h = ground arith
  step_report_atomic (update title description amount category date project notes) clock s v h =
      ground arith
