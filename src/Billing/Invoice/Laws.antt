-- ===== src/Billing/Invoice/Laws.antt =====
-- What holds of every invoice between two calls.
use finvoice.Prelude.{
  suc, ℕ, ◌+◌, ◌≤◌, ◌<◌, ◌≡◌, false, Option, none, some, List, [], ◌∷◌, ◌++◌, ◌≢◌, arith, length,
  length-append, length-remove_at, inl, inr, if◌then◌else◌,
}
use finvoice.Text.{Text}
use finvoice.Text.Laws.{text_eq_iff}
use finvoice.Outcome.{ok, Result-cases}
use finvoice.Runtime.{Runtime, Clock, Date, floor_days}
use finvoice.Billing.Money.{Money}
use finvoice.Billing.LineItem.{LineItem}
use finvoice.Billing.Totals.{calculate_total}
use finvoice.Billing.Invoice.{
  draft, sent, paid, is_status, Invoice, InvoiceEvent, invoice_sent, invoice_paid, invoice_overdue,
  Index, at, below_zero, not_a_number, clear_events, create, mark_sent, mark_paid, mark_overdue,
  cancel, add_line_item, remove_line_item,
}
use finvoice.Billing.Invoice.Lifecycle.{
  Call, mark_sent_to, mark_paid_with, mark_as_overdue, cancel_it, clear_it, add_item, remove_item,
  step_invoice, run_invoice,
}

module _ {N : Type 0} where
  -- How many events of one kind the invoice has.
  abbrev pub sent_events : List (InvoiceEvent N) → ℕ
  sent_events [] = 0
  sent_events (invoice_sent _ _ _ _ ∷ es) = suc (sent_events es)
  sent_events (_ ∷ es) = sent_events es

  abbrev pub paid_events : List (InvoiceEvent N) → ℕ
  paid_events [] = 0
  paid_events (invoice_paid _ _ _ _ _ ∷ es) = suc (paid_events es)
  paid_events (_ ∷ es) = paid_events es

  sent_events-append :
      (es : List (InvoiceEvent N)) (e : InvoiceEvent N)
      → sent_events (es ++ (e ∷ [])) ≡ sent_events es + sent_events (e ∷ [])
  sent_events-append [] e = omega arith
  sent_events-append (invoice_sent _ _ _ _ ∷ es) e = omega (arith, sent_events-append es e)
  sent_events-append (_ ∷ es) e = omega (arith, sent_events-append es e)

  paid_events-append :
      (es : List (InvoiceEvent N)) (e : InvoiceEvent N)
      → paid_events (es ++ (e ∷ [])) ≡ paid_events es + paid_events (e ∷ [])
  paid_events-append [] e = omega arith
  paid_events-append (invoice_paid _ _ _ _ _ ∷ es) e = omega (arith, paid_events-append es e)
  paid_events-append (_ ∷ es) e = omega (arith, paid_events-append es e)

module _ {N : Type 0} ⦃r : Runtime N⦄ where
  -- The payment covers the total of the invoice, in its currency.
  pub record Covers (a : Money N) (items : List (LineItem N)) : Type 0 where
    pub total : Money N
    pub is_total : calculate_total items ≡ ok total
    pub same_currency : a.currency ≡ total.currency
    pub enough : r.lt a.amount total.amount ≡ false

  -- What is recorded of a payment.
  abbrev pub IsSettled : Option Date → Option (Money N) → List (LineItem N) → Type 0
  IsSettled (some day) (some a) items = Covers a items
  IsSettled none a items = ⊥
  IsSettled (some day) none items = ⊥

  pub record IsConsistent (s : Invoice N) : Type 0 where
    pub has_items : 0 < length s.line_items
    pub dates_ordered : s.issue_date ≤ s.due_date
    pub draft_unsent : s.status ≡ draft → s.sent_at ≡ none
    pub sent_dated : s.status ≡ sent → s.sent_at ≢ none
    pub unpaid : s.status ≢ paid → (s.paid_at ≡ none) × (s.paid_amount ≡ none)
    pub settled : s.status ≡ paid → IsSettled s.paid_at s.paid_amount s.line_items
    pub draft_events : s.status ≡ draft → sent_events s.events ≡ 0
    pub sent_once : sent_events s.events ≤ 1
    pub paid_once : paid_events s.events ≤ (if is_status s.status paid then 1 else 0)

  pub mark_sent-IsConsistent :
      (email : Text) (clock : Clock) (s : Invoice N)
      → IsConsistent s
      → IsConsistent (mark_sent email clock s).1
  unfolding mark_sent
  mark_sent-IsConsistent email clock s h = ground (
    arith,
    sent_events-append s.events (invoice_sent s.id email (clock 0) (clock 1)),
    paid_events-append s.events (invoice_sent s.id email (clock 0) (clock 1)),
  )

  -- Where `mark_paid` returns, the payment covers the total.
  pub mark_paid-Covers :
      (amount : Money N) (how : Text) (clock : Clock) (s : Invoice N)
      → (mark_paid amount how clock s).0 ≡ ok tt
      → Covers amount s.line_items
  unfolding mark_paid
  mark_paid-Covers amount how clock s h = elim (Result-cases (calculate_total s.line_items)) [
    | inl (total, e) ↦ record {
      total = total;
      is_total = e;
      same_currency = ground (arith, text_eq_iff amount.currency total.currency);
      enough = ground arith;
    }
    | inr (x, e) ↦ absurd (ground arith)
  ]

  pub mark_paid-IsConsistent :
      (amount : Money N) (how : Text) (clock : Clock) (s : Invoice N)
      → IsConsistent s
      → IsConsistent (mark_paid amount how clock s).1
  unfolding mark_paid
  mark_paid-IsConsistent amount how clock s h = ground (
    arith,
    mark_paid-Covers amount how clock s,
    sent_events-append s.events (invoice_paid s.id amount.amount (clock 0) how (clock 1)),
    paid_events-append s.events (invoice_paid s.id amount.amount (clock 0) how (clock 1)),
  )

  mark_overdue-IsConsistent :
      (clock : Clock) (s : Invoice N) → IsConsistent s → IsConsistent (mark_overdue clock s).1
  unfolding mark_overdue
  mark_overdue-IsConsistent clock s h =
      let days = floor_days s.due_date (clock 0) in
      ground (
        arith,
        sent_events-append s.events (invoice_overdue s.id days (clock 1)),
        paid_events-append s.events (invoice_overdue s.id days (clock 1)),
      )

  cancel-IsConsistent : (s : Invoice N) → IsConsistent s → IsConsistent (cancel s).1
  unfolding cancel
  cancel-IsConsistent s h = ground arith

  clear_events-IsConsistent : (s : Invoice N) → IsConsistent s → IsConsistent (clear_events s).1
  unfolding clear_events
  clear_events-IsConsistent s h = ground arith

  add_line_item-IsConsistent :
      (item : LineItem N) (s : Invoice N) → IsConsistent s → IsConsistent (add_line_item item s).1
  unfolding add_line_item
  add_line_item-IsConsistent item s h = ground (arith, length-append s.line_items (item ∷ []))

  remove_line_item-IsConsistent :
      (i : Index) (s : Invoice N) → IsConsistent s → IsConsistent (remove_line_item i s).1
  unfolding remove_line_item
  remove_line_item-IsConsistent (at i) s h = ground (arith, length-remove_at s.line_items i)
  remove_line_item-IsConsistent below_zero s h = ground arith
  remove_line_item-IsConsistent not_a_number s h = ground (arith, length-remove_at s.line_items 0)

  -- Every method, whether it throws or not, keeps the invariant.
  pub step_invoice-IsConsistent :
      (c : Call N) (clock : Clock) (s : Invoice N)
      → IsConsistent s
      → IsConsistent (step_invoice c clock s).1
  unfolding step_invoice
  step_invoice-IsConsistent (mark_sent_to email) clock s h = mark_sent-IsConsistent email clock s h
  step_invoice-IsConsistent (mark_paid_with amount how) clock s h =
      mark_paid-IsConsistent amount how clock s h
  step_invoice-IsConsistent mark_as_overdue clock s h = mark_overdue-IsConsistent clock s h
  step_invoice-IsConsistent cancel_it clock s h = cancel-IsConsistent s h
  step_invoice-IsConsistent clear_it clock s h = clear_events-IsConsistent s h
  step_invoice-IsConsistent (add_item item) clock s h = add_line_item-IsConsistent item s h
  step_invoice-IsConsistent (remove_item i) clock s h = remove_line_item-IsConsistent i s h

  pub create-IsConsistent :
      (id client_id invoice_number : Text) (issue_date due_date : Date) (items : List (LineItem N))
      (notes : Option Text) (clock : Clock) (s : Invoice N)
      → create id client_id invoice_number issue_date due_date items notes clock ≡ ok s
      → IsConsistent s
  unfolding create
  create-IsConsistent id client_id invoice_number issue_date due_date items notes clock s h =
      ground arith

  run_invoice-IsConsistent :
      (calls : List (Call N × Clock)) (s : Invoice N)
      → IsConsistent s
      → IsConsistent (run_invoice calls s)
  unfolding run_invoice
  run_invoice-IsConsistent [] s h = h
  run_invoice-IsConsistent ((c, clock) ∷ calls) s h =
      run_invoice-IsConsistent calls (step_invoice c clock s).1
        (step_invoice-IsConsistent c clock s h)

  -- Every invoice that `create` returns and any calls then reach keeps the invariant: it has an
  -- item and its dates in order; it carries at most one sent event, at most one paid event and
  -- none unless it is paid, as clearEvents, one of the calls, takes them away; and it records a payment only if it is paid, and then one in the
  -- currency of its total and not below it.
  pub created_invoice-IsConsistent :
      (id client_id invoice_number : Text) (issue_date due_date : Date) (items : List (LineItem N))
      (notes : Option Text) (clock : Clock) (s : Invoice N) (calls : List (Call N × Clock))
      → create id client_id invoice_number issue_date due_date items notes clock ≡ ok s
      → IsConsistent (run_invoice calls s)
  created_invoice-IsConsistent id client_id invoice_number issue_date due_date items notes clock s
        calls h =
      run_invoice-IsConsistent calls s
        (create-IsConsistent id client_id invoice_number issue_date due_date items notes clock s h)
