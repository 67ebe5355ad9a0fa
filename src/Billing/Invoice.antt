-- ===== src/Billing/Invoice.antt =====
-- `InvoiceAggregate` of services/billing/src/domain/aggregates/invoice.aggregate.ts, with the events
-- of domain/events/invoice-events.ts and `InvoiceStatus` of domain/value-objects/enums.ts. A getter
-- is a field. `id` is the generated identifier of a new aggregate.
pub mod Laws
pub mod Lifecycle
pub mod Edits
use finvoice.Prelude.{
  ℕ, zero, suc, Bool, true, false, not, ◌&&◌, ◌||◌, Option, none, some, List, [], ◌∷◌, ◌++◌, String,
  ltb, leb, ◌==◌, if◌then◌else◌, length, remove_at,
}
use mathlib.Core.Option
use finvoice.Text.{Text, text_eq, trim, is_blank}
use finvoice.Outcome.{
  Result, ok, err, domain_exception, and_then, Method, ◌>>=◌, ◌>>◌, throw_if, gets, modify, call,
}
use finvoice.Runtime.{Runtime, Date, Clock, floor_days}
use finvoice.Billing.Money.{Money}
use finvoice.Billing.LineItem.{LineItem}
use finvoice.Billing.Totals.{calculate_total}

pub data InvoiceStatus : Type 0 where
  draft sent viewed paid overdue cancelled : InvoiceStatus

-- `a === b`
abbrev pub status_code : InvoiceStatus → ℕ
status_code draft = 0
status_code sent = 1
status_code viewed = 2
status_code paid = 3
status_code overdue = 4
status_code cancelled = 5

abbrev pub is_status : InvoiceStatus → InvoiceStatus → Bool
is_status a b = status_code a == status_code b

-- The last field of each is `occurredOn`.
pub data InvoiceEvent (N : Type 0) : Type 0 where
  invoice_created : (invoice_id client_id : Text) → N → (currency : Text) → Date → InvoiceEvent N
  invoice_sent : (invoice_id client_email : Text) → (sent_at : Date) → Date → InvoiceEvent N
  invoice_paid :
      (invoice_id : Text) → N → (paid_at : Date) → (payment_method : Text) → Date → InvoiceEvent N
  invoice_overdue : (invoice_id : Text) → (days_overdue : ℕ) → Date → InvoiceEvent N

-- `getEventName`
abbrev pub event_name : {N : Type 0} → InvoiceEvent N → String
event_name (invoice_created _ _ _ _ _) = "InvoiceCreated"
event_name (invoice_sent _ _ _ _) = "InvoiceSent"
event_name (invoice_paid _ _ _ _ _) = "InvoicePaid"
event_name (invoice_overdue _ _ _) = "InvoiceOverdue"

pub record Invoice (N : Type 0) : Type 0 where
  pub id : Text
  pub client_id : Text
  pub invoice_number : Text
  pub issue_date : Date
  pub due_date : Date
  pub line_items : List (LineItem N)
  pub notes : Option Text
  pub status : InvoiceStatus
  pub sent_at : Option Date
  pub paid_at : Option Date
  pub paid_amount : Option (Money N)
  pub events : List (InvoiceEvent N)

-- An index as the callers pass it: `at i` is a number from i up to below i + 1, which the tests on a
-- whole length and `splice` treat as i; or a number below zero, or NaN.
pub data Index : Type 0 where
  at : ℕ → Index
  below_zero not_a_number : Index

-- `index < 0 || index >= n`
abbrev pub out_of_range : Index → ℕ → Bool
out_of_range (at i) n = leb n i
out_of_range below_zero n = true
out_of_range not_a_number n = false

-- `xs.splice(index, 1)` at an index that is in range; NaN counts as 0.
abbrev pub splice : {A : Type 0} → Index → List A → List A
splice (at i) xs = remove_at xs i
splice below_zero xs = xs
splice not_a_number xs = remove_at xs 0

module _ {N : Type 0} ⦃r : Runtime N⦄ where
  open r use {lt}

  abbrev pub add_event : InvoiceEvent N → Method (Invoice N) (Unit {0})
  add_event e = modify (λ s. record s { events = s.events ++ (e ∷ []) })

  -- `AggregateRoot.clearEvents`
  unfoldable pub clear_events : Method (Invoice N) (Unit {0})
  clear_events = modify (λ s. record s { events = [] })

  -- `InvoiceAggregate.create`
  unfoldable pub create :
      Text
      → (client_id invoice_number : Text) → (issue_date due_date : Date) → List (LineItem N)
      → (notes : Option Text) → Clock
      → Result (Invoice N)
  create id client_id invoice_number issue_date due_date line_items notes clock =
      if is_blank client_id
      then err (domain_exception "Client ID cannot be empty" [])
      else if is_blank invoice_number
      then err (domain_exception "Invoice number cannot be empty" [])
      else if length line_items == 0
      then err (domain_exception "Invoice must have at least one line item" [])
      else if ltb due_date issue_date
      then err (domain_exception "Due date cannot be before issue date" [])
      else and_then (calculate_total line_items) (λ total. ok (record {
        id = id;
        client_id = trim client_id;
        invoice_number = trim invoice_number;
        issue_date = issue_date;
        due_date = due_date;
        line_items = line_items;
        notes = Option.map trim notes;
        status = draft;
        sent_at = none;
        paid_at = none;
        paid_amount = none;
        events = invoice_created id client_id total.amount total.currency (clock 0) ∷ [];
      }))

  unfoldable pub mark_sent : Text → Clock → Method (Invoice N) (Unit {0})
  mark_sent client_email clock = do
    status ← gets (λ s. s.status)
    throw_if (not (is_status status draft)) (domain_exception "Only draft invoices can be sent" [])
    modify (λ s. record s { status = sent; sent_at = some (clock 0) })
    id ← gets (λ s. s.id)
    add_event (invoice_sent id client_email (clock 0) (clock 1))

  unfoldable pub mark_paid : Money N → Text → Clock → Method (Invoice N) (Unit {0})
  mark_paid amount payment_method clock = do
    status ← gets (λ s. s.status)
    throw_if (is_status status paid) (domain_exception "Invoice is already paid" [])
    throw_if (is_status status cancelled)
        (domain_exception "Cannot mark cancelled invoice as paid" [])
    items ← gets (λ s. s.line_items)
    total ← call (calculate_total items)
    throw_if (not (text_eq amount.currency total.currency))
        (domain_exception "Payment currency must match invoice currency" [])
    throw_if (lt amount.amount total.amount)
        (domain_exception "Payment amount is less than invoice total" [])
    modify (λ s. record s { status = paid; paid_at = some (clock 0); paid_amount = some amount })
    id ← gets (λ s. s.id)
    add_event (invoice_paid id amount.amount (clock 0) payment_method (clock 1))

  unfoldable pub mark_overdue : Clock → Method (Invoice N) (Unit {0})
  mark_overdue clock = do
    status ← gets (λ s. s.status)
    throw_if (not (is_status status sent) && not (is_status status viewed))
        (domain_exception "Only sent or viewed invoices can be marked overdue" [])
    due_date ← gets (λ s. s.due_date)
    throw_if (leb (clock 0) due_date) (domain_exception "Invoice is not yet due" [])
    modify (λ s. record s { status = overdue })
    id ← gets (λ s. s.id)
    add_event (invoice_overdue id (floor_days due_date (clock 0)) (clock 1))

  unfoldable pub cancel : Method (Invoice N) (Unit {0})
  cancel = do
    status ← gets (λ s. s.status)
    throw_if (is_status status paid) (domain_exception "Cannot cancel a paid invoice" [])
    modify (λ s. record s { status = cancelled })

  unfoldable pub is_overdue : Clock → Invoice N → Bool
  is_overdue clock s =
      is_status s.status overdue || is_status s.status sent && ltb s.due_date (clock 0)

  unfoldable pub add_line_item : LineItem N → Method (Invoice N) (Unit {0})
  add_line_item item = do
    status ← gets (λ s. s.status)
    throw_if (not (is_status status draft))
        (domain_exception "Can only add line items to draft invoices" [])
    modify (λ s. record s { line_items = s.line_items ++ (item ∷ []) })

  unfoldable pub remove_line_item : Index → Method (Invoice N) (Unit {0})
  remove_line_item index = do
    status ← gets (λ s. s.status)
    throw_if (not (is_status status draft))
        (domain_exception "Can only remove line items from draft invoices" [])
    items ← gets (λ s. s.line_items)
    throw_if (out_of_range index (length items)) (domain_exception "Invalid line item index" [])
    throw_if (length items == 1) (domain_exception "Invoice must have at least one line item" [])
    modify (λ s. record s { line_items = splice index items })
