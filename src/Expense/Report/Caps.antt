-- ===== src/Expense/Report/Caps.antt =====
-- How the approved amount compares with the amount of the report.
use finvoice.Prelude.{
  subst, sym, Bool-cases, ◌≡◌, Bool, true, false, Option, none, some, arith, inl, inr,
}
use finvoice.Text.{Text, is_blank}
use finvoice.Outcome.{ok}
use finvoice.Runtime.{Runtime, IsOrdered, Clock, Date, nought, le}
use finvoice.Expense.Receipt.{OcrData, Receipt, IsReceipt, new_receipt_again}
use finvoice.Expense.Report.{
  is_status, draft, under_review, approved, Report, ExpenseCategory, attach_receipt, submit,
  start_review, approve, reject, mark_as_paid, clear_events,
}
use finvoice.Expense.Report.Ocr.{trusted, take_amount, take_currency, take_date, update_from_ocr}
use finvoice.Expense.Report.Details.{update_details}
use finvoice.Expense.Report.Workflow.{
  Call, attach, read_ocr, submit_it, review, approve_it, reject_it, pay, clear_it, update,
  step_report,
}
use finvoice.Expense.Report.Laws.{IsConsistent}
use finvoice.Expense.Report.Journey.{update_details-Keeps}

module _ {N : Type 0} ⦃r : Runtime N⦄ where
  -- What is approved is at most what was asked for.
  abbrev pub Caps : Option N → N → Type 0
  Caps none amount = Unit
  Caps (some granted) amount = r.lt amount granted ≡ false

  abbrev pub IsCapped : Report N → Type 0
  IsCapped s = Caps s.approved_amount s.amount

  -- Every call but the reading of OCR data.
  abbrev pub is_ocr : Call N → Bool
  is_ocr (read_ocr ocr) = true
  is_ocr _ = false

  update_details_refused :
      (title description : Option Text) (amount : Option N) (category : Option ExpenseCategory)
      (date : Option Date) (project notes : Option Text) (clock : Clock) (s : Report N)
      → is_status s.status draft ≡ false
      → (update_details title description amount category date project notes clock s).1 ≡ s
  unfolding update_details
  update_details_refused title description amount category date project notes clock s h =
      ground arith

  -- No call but the reading of OCR data lets the approved amount of a consistent report exceed
  -- the amount of the report.
  pub step_report-IsCapped :
      (c : Call N) (clock : Clock) (s : Report N)
      → is_ocr c ≡ false
      → IsConsistent s
      → IsCapped s
      → IsCapped (step_report c clock s).1
  unfolding step_report clear_events attach_receipt submit start_review approve reject mark_as_paid
  step_report-IsCapped (attach name url size mime ocr) clock s e v h = ground arith
  step_report-IsCapped (read_ocr ocr) clock s e v h = cc
  step_report-IsCapped submit_it clock s e v h = ground arith
  step_report-IsCapped (review who) clock s e v h = ground arith
  step_report-IsCapped (approve_it who amount notes) clock s e v h = ground arith
  step_report-IsCapped (reject_it who why) clock s e v h = ground arith
  step_report-IsCapped pay clock s e v h = ground arith
  step_report-IsCapped clear_it clock s e v h = ground arith
  step_report-IsCapped (update title description amount category date project notes) clock s e v h =
      let t = (update_details title description amount category date project notes clock s).1 in
      elim (Bool-cases (is_status s.status draft)) [
        | inl is_draft ↦
            let keeps =
              update_details-Keeps title description amount category date project notes clock s in
            let nothing : t.approved_amount ≡ none = ground arith in rw nothing tt
        | inr other ↦
            subst IsCapped
              (sym (
                update_details_refused title description amount category date project notes clock s
                  other))
              h
      ]

  -- An approval of a report under review with the amount 0 approves all that was asked for, if
  -- that is positive and the reviewer is not blank: 0 counts as no amount.
  pub approve_zero :
      (laws : IsOrdered N)
      → (who : Text) (zero_amount : N) (notes : Option Text) (clock : Clock) (s : Report N)
      → r.eq zero_amount nought ≡ true
      → s.status ≡ under_review
      → is_blank who ≡ false
      → le s.amount nought ≡ false
      → let (result, t) = approve who (some zero_amount) notes clock s in
        (result ≡ ok tt) × (t.status ≡ approved) × (t.approved_amount ≡ some s.amount)
  unfolding approve
  approve_zero laws who z notes clock s e st w p = ground (arith, laws.lt_irrefl s.amount)

  -- Reading OCR data on an approved report that holds a valid receipt, with an amount that the
  -- code trusts and that is below the approved one, returns, takes that amount and leaves the
  -- report approved for more than its amount.
  pub update_from_ocr_uncapped :
      (ocr : OcrData N) (clock : Clock) (s : Report N) (receipt : Receipt N) (read granted : N)
      → s.status ≡ approved
      → s.receipt ≡ some receipt
      → IsReceipt receipt
      → s.approved_amount ≡ some granted
      → ocr.amount ≡ some read
      → trusted (some read) ocr.confidence ≡ true
      → r.lt read granted ≡ true
      → let (result, t) = update_from_ocr (some ocr) clock s in
        (result ≡ ok tt) × (t.status ≡ approved) × (t.amount ≡ read) × ¬ (IsCapped t)
  unfolding update_from_ocr take_amount take_currency take_date
  update_from_ocr_uncapped ocr clock s receipt read granted st has v g a tr l =
      ground (arith, new_receipt_again receipt (some ocr) v)
