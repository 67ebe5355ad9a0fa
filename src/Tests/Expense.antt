-- ===== src/Tests/Expense.antt =====
-- Expense reports at concrete inputs.
use finvoice.Prelude.{◌≡◌, refl, none, some, List, [], ◌∷◌, arith}
use finvoice.Text.{usd, trim, is_blank, is_bad_code}
use finvoice.Outcome.{ok}
use finvoice.Runtime.{Clock}
use finvoice.Runtime.Milli.{Milli, units, thousandths, milli_runtime, Milli-IsOrdered}
use finvoice.Expense.Receipt.{OcrData, Receipt, IsReceipt, new_receipt, is_valid_mime_type}
use finvoice.Expense.Report.{
  travel, draft, under_review, approved, paid, Report, create, attach_receipt, submit, start_review,
  approve, mark_as_paid,
}
use finvoice.Expense.Report.Workflow.{Call, attach, submit_it, review, approve_it, pay, step_report}
use finvoice.Expense.Report.Laws.{IsConsistent}
use finvoice.Expense.Report.Journey.{run_report, created_report-IsConsistent}
use finvoice.Expense.Report.Caps.{IsCapped, step_report-IsCapped}
use finvoice.Text.{text}
use finvoice.Tests.Data.{clock}

abbrev report : Report Milli
report = record {
  id = text "e1";
  employee_id = text "ann";
  title = text "Taxi";
  description = text "";
  amount = units 100;
  currency = usd;
  category = travel;
  expense_date = 500;
  status = draft;
  receipt = none;
  submitted_at = none;
  reviewed_at = none;
  reviewed_by = none;
  approved_amount = none;
  rejection_reason = none;
  notes = none;
  project_id = none;
  created_at = 1001;
  updated_at = 1001;
  events = [];
}

made :
    create
      (text "e1")
      (text " ann")
      (text "Taxi ")
      (text "")
      (units 100)
      (text "usd")
      travel
      500
      none
      none
      clock
    ≡ ok report
unfolding create is_blank is_bad_code
made = refl

abbrev calls : List (Call Milli × Clock)
calls =
    (submit_it, clock)
    ∷ (attach (text "r.png") (text "u") (units 9) "image/png" none, clock)
    ∷ (submit_it, clock)
    ∷ (review (text "bob"), clock)
    ∷ (approve_it (text "bob") (some (units 80)) none, clock)
    ∷ (pay, clock)
    ∷ []

run_pays : (run_report calls report).status ≡ paid
unfolding run_report step_report attach_receipt submit start_review approve mark_as_paid new_receipt
    is_blank is_valid_mime_type
run_pays = refl

created_report-IsConsistent_example : IsConsistent (run_report calls report)
created_report-IsConsistent_example =
    created_report-IsConsistent Milli-IsOrdered (text "e1") (text " ann") (text "Taxi ") (text "")
      (units 100) (text "usd") travel 500 none none clock report calls refl made

abbrev receipt : Receipt Milli
receipt = record {
  file_name = text "r.png";
  file_url = text "u";
  file_size = units 9;
  mime_type = "image/png";
  uploaded_at = 1000;
  ocr_data = none;
}

receipt-IsReceipt : IsReceipt receipt
unfolding is_blank is_valid_mime_type
receipt-IsReceipt = record { named = refl; located = refl; sized = refl; typed = refl }

abbrev reviewed : Report Milli
reviewed = record report {
  status = under_review;
  receipt = some receipt;
  submitted_at = some 1000;
  reviewed_by = some (text "bob");
}

reviewed-IsConsistent : IsConsistent reviewed
unfolding trim
reviewed-IsConsistent = record {
  employee = (refl, λ e. cc);
  titled = (refl, λ e. cc);
  amount_pos = refl;
  receipt_valid = receipt-IsReceipt;
  submitted_has_receipt = λ _ e. cc;
  submitted_dated = λ _ e. cc;
  reviewed = λ _. (refl, λ e. cc);
  decided = λ h. absurd (omega arith);
  undecided = λ _. refl;
  rejected_reason = λ e. cc;
  approved_pos = λ o. ground arith;
}

step_report-IsCapped_example :
    IsCapped (step_report (approve_it (text "bob") (some (units 80)) none) clock reviewed).1
step_report-IsCapped_example =
    step_report-IsCapped (approve_it (text "bob") (some (units 80)) none) clock reviewed refl
      reviewed-IsConsistent tt

abbrev ocr : OcrData Milli
ocr = record {
  amount = some (units 30);
  currency = none;
  date = none;
  vendor = none;
  extracted_text = none;
  confidence = some (thousandths 900);
}

abbrev granted : Report Milli
granted = record reviewed { status = approved; approved_amount = some (units 80) }
