-- ===== src/Billing/Invoice/Lifecycle.antt =====
-- The life of an invoice: every method as one step, what a call that throws leaves behind, the
-- transition diagram, and what holds of every invoice that calls can reach.
use finvoice.Prelude.{inl, inr, Bool, true, false, ◌≡◌, refl, List, [], ◌∷◌, ◌≢◌, arith, ◌⊎◌}
use finvoice.Text.{Text}
use finvoice.Outcome.{ok, err, Exception, Method}
use finvoice.Runtime.{Runtime, Clock}
use finvoice.Billing.Money.{Money}
use finvoice.Billing.LineItem.{LineItem}
use finvoice.Billing.Invoice.{
  InvoiceStatus, draft, sent, viewed, paid, overdue, cancelled, Invoice, Index, mark_sent,
  mark_paid, mark_overdue, clear_events, cancel, add_line_item, remove_line_item,
}

-- A call of a method that mutates the invoice.
pub data Call (N : Type 0) : Type 0 where
  mark_sent_to : Text → Call N
  mark_paid_with : Money N → Text → Call N
  mark_as_overdue cancel_it clear_it : Call N
  add_item : LineItem N → Call N
  remove_item : Index → Call N

module _ {N : Type 0} ⦃r : Runtime N⦄ where
  unfoldable pub step_invoice : Call N → Clock → Method (Invoice N) (Unit {0})
  step_invoice (mark_sent_to email) clock = mark_sent email clock
  step_invoice (mark_paid_with amount how) clock = mark_paid amount how clock
  step_invoice mark_as_overdue clock = mark_overdue clock
  step_invoice cancel_it clock = cancel
  step_invoice clear_it clock = clear_events
  step_invoice (add_item item) clock = add_line_item item
  step_invoice (remove_item index) clock = remove_line_item index

  -- A method that throws leaves the invoice as it was, with no event added.
  pub step_invoice_atomic :
      (c : Call N) (clock : Clock) (s : Invoice N) {e : Exception}
      → (step_invoice c clock s).0 ≡ err e
      → (step_invoice c clock s).1 ≡ s
  unfolding step_invoice clear_events mark_sent mark_paid mark_overdue cancel add_line_item
      remove_line_item
  step_invoice_atomic (mark_sent_to email) clock s h = ground arith
  step_invoice_atomic (mark_paid_with amount how) clock s h = ground arith
  step_invoice_atomic mark_as_overdue clock s h = ground arith
  step_invoice_atomic cancel_it clock s h = ground arith
  step_invoice_atomic clear_it clock s h = ground arith
  step_invoice_atomic (add_item item) clock s h = ground arith
  step_invoice_atomic (remove_item index) clock s h = ground arith

-- The status diagram that the methods implement.
infix 40 ◌⟶◌
pub data ◌⟶◌ : InvoiceStatus → InvoiceStatus → Type 0 where
  edit : draft ⟶ draft
  send : draft ⟶ sent
  pay_draft : draft ⟶ paid
  pay_sent : sent ⟶ paid
  pay_viewed : viewed ⟶ paid
  pay_overdue : overdue ⟶ paid
  expire_sent : sent ⟶ overdue
  expire_viewed : viewed ⟶ overdue
  drop : {s : InvoiceStatus} → s ≢ paid → s ⟶ cancelled

module _ {N : Type 0} ⦃r : Runtime N⦄ where
  -- `clearEvents` only takes the events away.
  abbrev pub is_clear : Call N → Bool
  is_clear clear_it = true
  is_clear _ = false

  -- A method that returns follows an edge of the diagram, but clearEvents, which keeps the status.
  pub step_invoice-⟶ :
      (c : Call N) (clock : Clock) (s : Invoice N)
      → (step_invoice c clock s).0 ≡ ok tt
      → (s.status ⟶ (step_invoice c clock s).1.status)
        ⊎ ((is_clear c ≡ true) × ((step_invoice c clock s).1.status ≡ s.status))
  unfolding step_invoice clear_events mark_sent mark_paid mark_overdue cancel add_line_item
      remove_line_item
  step_invoice-⟶ (mark_sent_to email) clock s h = inl (grind (arith, send))
  step_invoice-⟶ (mark_paid_with amount how) clock s h =
      inl (grind (arith, pay_draft, pay_sent, pay_viewed, pay_overdue))
  step_invoice-⟶ mark_as_overdue clock s h = inl (grind (arith, expire_sent, expire_viewed))
  step_invoice-⟶ cancel_it clock s h = inl (grind (arith, drop))
  step_invoice-⟶ clear_it clock s h = inr (refl, refl)
  step_invoice-⟶ (add_item item) clock s h = inl (grind (arith, edit))
  step_invoice-⟶ (remove_item index) clock s h = inl (grind (arith, edit))

  -- A sequence of calls: a caller that catches an exception goes on with the invoice.
  unfoldable pub run_invoice : List (Call N × Clock) → Invoice N → Invoice N
  run_invoice [] s = s
  run_invoice ((c, clock) ∷ calls) s = run_invoice calls (step_invoice c clock s).1
