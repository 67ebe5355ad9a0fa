-- ===== src/Invoicing/Invoice/Payments.antt =====
-- The methods of `InvoiceAggregate` after the draft: `finalize`, `send`, `recordPayment`,
-- `markAsPaid` and `void`. The display strings in the message of `markAsPaid` are left out.
use finvoice.Prelude.{not, ◌||◌, Option, none, some, List, [], ◌∷◌, length, ◌==◌, if◌then◌else◌}
use finvoice.Text.{Text, text_eq}
use finvoice.Outcome.{Result, ok, business_rule, Method, ◌>>=◌, ◌>>◌, throw_if, gets, modify, call}
use finvoice.Runtime.{Runtime, Clock, nought}
use finvoice.Invoicing.Money.{Money, new_money, add, is_positive, equals, is_less_than}
use finvoice.Invoicing.Item.{Item}
use finvoice.Invoicing.Invoice.{
  draft, finalized, sent, partially_paid, paid, voided, overpaid, is_status, Invoice, ItemUpdates,
  total_of, add_item, remove_item, update_item,
}

module _ {N : Type 0} where
  unfoldable pub finalize : Clock → Method (Invoice N) (Unit {0})
  finalize clock = do
    status ← gets (λ s. s.status)
    throw_if (not (is_status status draft))
        (business_rule "Only draft invoices can be finalized" [])
    items ← gets (λ s. s.items)
    throw_if (length items == 0) (business_rule "Cannot finalize invoice without items" [])
    modify (λ s. record s { status = finalized; finalized_at = some (clock 0) })

  unfoldable pub send : Clock → Method (Invoice N) (Unit {0})
  send clock = do
    status ← gets (λ s. s.status)
    throw_if (not (is_status status finalized))
        (business_rule "Only finalized invoices can be sent" [])
    modify (λ s. record s { status = sent; sent_at = some (clock 0) })

  -- `void`
  unfoldable pub void_it : Text → Clock → Method (Invoice N) (Unit {0})
  void_it reason clock = do
    status ← gets (λ s. s.status)
    throw_if (is_status status voided) (business_rule "Invoice is already voided" [])
    throw_if (is_status status paid) (business_rule "Cannot void a paid invoice" [])
    modify
        (λ s. record s { status = voided; void_reason = some reason; voided_at = some (clock 0) })

module _ {N : Type 0} ⦃r : Runtime N⦄ where
  -- `this._paidAmount || new Money(0, this.currency)`
  unfoldable pub current_paid : Option (Money N) → Text → Result (Money N)
  current_paid none currency = new_money nought currency
  current_paid (some m) currency = ok m

  -- The branches after `_paidAmount` is written.
  unfoldable pub settle : Money N → Money N → Clock → Method (Invoice N) (Unit {0})
  settle new_paid_amount total_due clock =
      if equals new_paid_amount total_due
      then modify (λ s. record s { status = paid; paid_at = some (clock 0) })
      else (call (is_less_than new_paid_amount total_due) >>= λ less.
          modify (λ s. record s { status = if less then partially_paid else overpaid }))

  unfoldable pub record_payment : Money N → Clock → Method (Invoice N) (Unit {0})
  record_payment amount clock = do
    status ← gets (λ s. s.status)
    throw_if (not (is_status status sent || is_status status partially_paid))
        (business_rule "Can only record payments for sent or partially paid invoices" [])
    currency ← gets (λ s. s.currency)
    throw_if (not (text_eq amount.currency currency)) (
        business_rule "Payment currency {} does not match invoice currency {}"
          (amount.currency ∷ currency ∷ []))
    throw_if (not (is_positive amount)) (business_rule "Payment amount must be positive" [])
    paid_amount ← gets (λ s. s.paid_amount)
    current ← call (current_paid paid_amount currency)
    new_paid_amount ← call (add current amount)
    items ← gets (λ s. s.items)
    total_due ← call (total_of currency items)
    modify (λ s. record s { paid_amount = some new_paid_amount })
    settle new_paid_amount total_due clock

  unfoldable pub mark_as_paid : Money N → Clock → Method (Invoice N) (Unit {0})
  mark_as_paid amount clock = do
    currency ← gets (λ s. s.currency)
    items ← gets (λ s. s.items)
    total_due ← call (total_of currency items)
    throw_if (not (equals amount total_due))
        (business_rule "Payment amount {} does not match total due {}" [])
    record_payment amount clock

-- A call of a method that changes the invoice.
pub data Call (N : Type 0) : Type 0 where
  put : Item N → Call N
  drop_item : Text → Call N
  change : Text → ItemUpdates N → Call N
  finalize_it send_it : Call N
  pay pay_all : Money N → Call N
  void_for : Text → Call N

module _ {N : Type 0} ⦃r : Runtime N⦄ where
  unfoldable pub step_invoicing : Call N → Clock → Method (Invoice N) (Unit {0})
  step_invoicing (put item) clock = add_item item
  step_invoicing (drop_item id) clock = remove_item id
  step_invoicing (change id updates) clock = update_item id updates
  step_invoicing finalize_it clock = finalize clock
  step_invoicing send_it clock = send clock
  step_invoicing (pay amount) clock = record_payment amount clock
  step_invoicing (pay_all amount) clock = mark_as_paid amount clock
  step_invoicing (void_for reason) clock = void_it reason clock

  -- A caller that catches an exception goes on with the invoice.
  unfoldable pub run_invoicing : List (Call N × Clock) → Invoice N → Invoice N
  run_invoicing [] s = s
  run_invoicing ((c, clock) ∷ calls) s = run_invoicing calls (step_invoicing c clock s).1
