-- ===== src/Expense/Report.antt =====
-- `ExpenseReportAggregate` of services/expenses/src/domain/aggregates/expense-report.aggregate.ts,
-- with the events of domain/events/expense-events.ts and the enums of domain/value-objects. A
-- getter is a field.
pub mod Details
pub mod Workflow
pub mod Laws
pub mod Ocr
pub mod Journey
pub mod Caps
use mathlib.Core.Option
use finvoice.Prelude.{
  is_none, ℕ, Bool, true, false, not, ◌&&◌, Option, none, some, List, [], ◌∷◌, ◌++◌, String, ltb,
  leb, ◌==◌, if◌then◌else◌, length,
}
use finvoice.Text.{Text, trim, is_blank, is_bad_code, has_content}
use finvoice.Outcome.{
  Result, ok, err, domain_exception, Method, ◌>>=◌, ◌>>◌, throw_if, gets, modify, call,
}
use finvoice.Runtime.{Runtime, Date, Clock, nought, le, truthy, or_else}
use finvoice.Expense.Receipt.{OcrData, Receipt, new_receipt}

pub data ExpenseStatus : Type 0 where
  draft submitted under_review approved rejected paid : ExpenseStatus

abbrev pub status_code : ExpenseStatus → ℕ
status_code draft = 0
status_code submitted = 1
status_code under_review = 2
status_code approved = 3
status_code rejected = 4
status_code paid = 5

-- `a === b`
abbrev pub is_status : ExpenseStatus → ExpenseStatus → Bool
is_status a b = status_code a == status_code b

pub data ExpenseCategory : Type 0 where
  travel meals office_supplies software marketing utilities professional_services other :
      ExpenseCategory

-- The last field of each is `occurredOn`.
pub data ExpenseEvent (N : Type 0) : Type 0 where
  receipt_uploaded :
      (expense_id file_name : Text) → (file_size : N) → (mime_type : String) → Date → ExpenseEvent N
  expense_submitted :
      (expense_id submitted_by : Text) → N → (currency : Text) → Date → ExpenseEvent N
  expense_approved :
      (expense_id approved_by : Text) → N → (notes : Option Text) → Date → ExpenseEvent N
  expense_rejected : (expense_id rejected_by reason : Text) → Date → ExpenseEvent N

pub record Report (N : Type 0) : Type 0 where
  pub id : Text
  pub employee_id : Text
  pub title : Text
  pub description : Text
  pub amount : N
  pub currency : Text
  pub category : ExpenseCategory
  pub expense_date : Date
  pub status : ExpenseStatus
  pub receipt : Option (Receipt N)
  pub submitted_at : Option Date
  pub reviewed_at : Option Date
  pub reviewed_by : Option Text
  pub approved_amount : Option N
  pub rejection_reason : Option Text
  pub notes : Option Text
  pub project_id : Option Text
  pub created_at : Date
  pub updated_at : Date
  pub events : List (ExpenseEvent N)

module _ {N : Type 0} ⦃r : Runtime N⦄ where
  open r use {lt, eq, number, div, upper}

  abbrev pub add_event : ExpenseEvent N → Method (Report N) (Unit {0})
  add_event e = modify (λ s. record s { events = s.events ++ (e ∷ []) })

  -- `AggregateRoot.clearEvents`
  unfoldable pub clear_events : Method (Report N) (Unit {0})
  clear_events = modify (λ s. record s { events = [] })

  -- `ExpenseReportAggregate.create`; `id` is the generated identifier.
  unfoldable pub create :
      Text
      → (employee_id title description : Text) → N
      → (currency : Text) → ExpenseCategory
      → (expense_date : Date) → (project_id notes : Option Text) → Clock
      → Result (Report N)
  create id employee_id title description amount currency category expense_date project_id notes
        clock =
      if is_blank employee_id
      then err (domain_exception "Employee ID cannot be empty" [])
      else if is_blank title
      then err (domain_exception "Expense title cannot be empty" [])
      else if le amount nought
      then err (domain_exception "Expense amount must be positive" [])
      else if is_bad_code currency
      then err (domain_exception "Currency must be a valid 3-letter code" [])
      else if ltb (clock 0) expense_date
      then err (domain_exception "Expense date cannot be in the future" [])
      else ok (record {
        id = id;
        employee_id = trim employee_id;
        title = trim title;
        description = trim description;
        amount = amount;
        currency = upper currency;
        category = category;
        expense_date = expense_date;
        status = draft;
        receipt = none;
        submitted_at = none;
        reviewed_at = none;
        reviewed_by = none;
        approved_amount = none;
        rejection_reason = none;
        notes = Option.map trim notes;
        project_id = Option.map trim project_id;
        created_at = clock 1;
        updated_at = clock 1;
        events = [];
      })

  unfoldable pub attach_receipt :
      Text → Text → N → String → Option (OcrData N) → Clock → Method (Report N) (Unit {0})
  attach_receipt file_name file_url file_size mime_type ocr_data clock = do
    status ← gets (λ s. s.status)
    throw_if (not (is_status status draft))
        (domain_exception "Can only attach receipt to draft expenses" [])
    receipt ← call (new_receipt file_name file_url file_size mime_type (clock 0) ocr_data)
    modify (λ s. record s { receipt = some receipt; updated_at = clock 1 })
    id ← gets (λ s. s.id)
    add_event (receipt_uploaded id file_name file_size mime_type (clock 2))

  unfoldable pub submit : Clock → Method (Report N) (Unit {0})
  submit clock = do
    s ← gets (λ s. s)
    throw_if (not (is_status s.status draft))
        (domain_exception "Only draft expenses can be submitted" [])
    throw_if (is_none s.receipt) (domain_exception "Cannot submit expense without receipt" [])
    modify
        (λ s. record s { status = submitted; submitted_at = some (clock 0); updated_at = clock 1 })
    add_event (expense_submitted s.id s.employee_id s.amount s.currency (clock 2))

  unfoldable pub start_review : Text → Clock → Method (Report N) (Unit {0})
  start_review reviewer_id clock = do
    status ← gets (λ s. s.status)
    throw_if (not (is_status status submitted))
        (domain_exception "Only submitted expenses can be reviewed" [])
    throw_if (is_blank reviewer_id) (domain_exception "Reviewer ID cannot be empty" [])
    modify (λ s. record s {
      status = under_review;
      reviewed_by = some (trim reviewer_id);
      updated_at = clock 0;
    })

  unfoldable pub approve :
      Text
      → (approved_amount : Option N) → (notes : Option Text) → Clock
      → Method (Report N) (Unit {0})
  approve reviewer_id approved_amount notes clock = do
    s ← gets (λ s. s)
    throw_if (not (is_status s.status under_review))
        (domain_exception "Only expenses under review can be approved" [])
    throw_if (is_blank reviewer_id) (domain_exception "Reviewer ID cannot be empty" [])
    final_amount ← gets (λ s. or_else approved_amount s.amount)
    throw_if (le final_amount nought) (domain_exception "Approved amount must be positive" [])
    throw_if (lt s.amount final_amount)
        (domain_exception "Approved amount cannot exceed requested amount" [])
    modify (λ s. record s {
      status = approved;
      reviewed_by = some (trim reviewer_id);
      reviewed_at = some (clock 0);
      approved_amount = some final_amount;
      notes = Option.map trim notes;
      updated_at = clock 1;
    })
    add_event (expense_approved s.id reviewer_id final_amount notes (clock 2))

  unfoldable pub reject : Text → (reason : Text) → Clock → Method (Report N) (Unit {0})
  reject reviewer_id reason clock = do
    s ← gets (λ s. s)
    throw_if (not (is_status s.status under_review))
        (domain_exception "Only expenses under review can be rejected" [])
    throw_if (is_blank reviewer_id) (domain_exception "Reviewer ID cannot be empty" [])
    throw_if (is_blank reason) (domain_exception "Rejection reason cannot be empty" [])
    modify (λ s. record s {
      status = rejected;
      reviewed_by = some (trim reviewer_id);
      reviewed_at = some (clock 0);
      rejection_reason = some (trim reason);
      updated_at = clock 1;
    })
    add_event (expense_rejected s.id reviewer_id reason (clock 2))

  unfoldable pub mark_as_paid : Clock → Method (Report N) (Unit {0})
  mark_as_paid clock = do
    status ← gets (λ s. s.status)
    throw_if (not (is_status status approved))
        (domain_exception "Only approved expenses can be marked as paid" [])
    modify (λ s. record s { status = paid; updated_at = clock 0 })

  unfoldable pub is_editable : Report N → Bool
  is_editable s = is_status s.status draft

  unfoldable pub can_be_submitted : Report N → Bool
  can_be_submitted s = is_status s.status draft && not (is_none s.receipt)
