-- ===== src/Billing/Application/Create.antt =====
-- The creation of invoices of services/billing/src/application/use-cases/create-invoice.usecase.ts,
-- over the interface of domain/repositories/invoice.repository.ts and the event bus.
use finvoice.Prelude.{true, ◌≡◌, not, Option, none, some, List, [], ◌∷◌, arith, inl, inr, is_none}
use finvoice.Outcome.{
  domain_exception, and_then, and_then-eq-ok, is_ok, Result, ok, Method, ◌>>=◌, ◌>>◌, throw_if,
  call, Result-cases,
}
use finvoice.Text.{Text}
use finvoice.Runtime.{Runtime, Date, Clock}
use finvoice.Billing.Money.{Money, new_money}
use finvoice.Billing.TaxRate.{new_tax_rate}
use finvoice.Billing.LineItem.{LineItem, new_line_item}
use finvoice.Billing.Totals.{map_result, calculate_total}
use finvoice.Billing.Invoice.{Invoice, InvoiceEvent, create, clear_events}

pub record TaxCommand (N : Type 0) : Type 0 where
  pub rate : N
  pub name : Text

pub record ItemCommand (N : Type 0) : Type 0 where
  pub description : Text
  pub quantity : N
  pub unit_price : N
  pub currency : Text
  pub tax_rate : Option (TaxCommand N)

pub record CreateInvoiceCommand (N : Type 0) : Type 0 where
  pub client_id : Text
  pub invoice_number : Text
  pub issue_date : Date
  pub due_date : Date
  pub line_items : List (ItemCommand N)
  pub notes : Option Text

pub record CreateInvoiceResult (N : Type 0) : Type 0 where
  pub invoice_id : Text
  pub invoice_number : Text
  pub total : Money N

-- What the use case calls of the repository and of the bus.
pub record Ports (N W : Type 0) : Type 0 where
  pub find_by_invoice_number : Text → Method W (Option (Invoice N))
  pub save : Invoice N → Method W (Unit {0})
  pub publish_many : List (InvoiceEvent N) → Method W (Unit {0})

module _ {N : Type 0} ⦃r : Runtime N⦄ where
  -- The body of the map over the items of the command.
  unfoldable pub to_line_item : ItemCommand N → Result (LineItem N)
  to_line_item item = and_then (new_money item.unit_price item.currency) (λ unit_price.
      elim item.tax_rate [
        | none ↦ new_line_item item.description item.quantity unit_price none
        | some t ↦
            and_then (new_tax_rate t.rate t.name)
              (λ rate. new_line_item item.description item.quantity unit_price (some rate))
      ])

  -- The invoice of a command, under a new identifier.
  unfoldable pub build : Text → CreateInvoiceCommand N → Clock → Result (Invoice N)
  build id c clock =
      and_then (map_result to_line_item c.line_items) (λ items.
        create id c.client_id c.invoice_number c.issue_date c.due_date items c.notes clock)

module _ {N W : Type 0} ⦃r : Runtime N⦄ (p : Ports N W) where
  unfoldable pub execute : Text → CreateInvoiceCommand N → Clock → Method W (CreateInvoiceResult N)
  execute id c clock = do
    existing ← p.find_by_invoice_number c.invoice_number
    throw_if (not (is_none existing))
        (domain_exception "Invoice with number {} already exists" (c.invoice_number ∷ []))
    invoice ← call (build id c clock)
    p.save invoice
    p.publish_many invoice.events
    let published = (clear_events invoice).1
    total ← call (calculate_total published.line_items)
    call (
        ok (record {
          invoice_id = published.id;
          invoice_number = published.invoice_number;
          total = total;
        }))

  calculate_total-create :
      (id client number : Text) (issued due : Date) (items : List (LineItem N))
      (notes : Option Text) (clock : Clock) {s : Invoice N}
      → create id client number issued due items notes clock ≡ ok s
      → (total : Money N) × (calculate_total s.line_items ≡ ok total)
  unfolding create
  calculate_total-create id client number issued due items notes clock {s} h =
      elim (Result-cases (calculate_total items)) [
        | inl (total, good) ↦ (total, ground (arith, good, h))
        | inr (e, bad) ↦ absurd (ground (arith, bad, h))
      ]

  -- A built invoice has a total.
  calculate_total-build :
      (id : Text) (c : CreateInvoiceCommand N) (clock : Clock) {s : Invoice N}
      → build id c clock ≡ ok s
      → (total : Money N) × (calculate_total s.line_items ≡ ok total)
  unfolding build
  calculate_total-build id c clock h =
      let (items, made, created) =
        and_then-eq-ok (map_result to_line_item c.line_items)
          (λ items.
            create id c.client_id c.invoice_number c.issue_date c.due_date items c.notes clock)
          h in
      calculate_total-create id c.client_id c.invoice_number c.issue_date c.due_date items c.notes
        clock created

  -- What a command that goes through has done: the steps, in their order, each on the state that the
  -- last one left.
  pub record Executed (id : Text) (c : CreateInvoiceCommand N) (clock : Clock) (w w' : W)
      (result : CreateInvoiceResult N) : Type 0 where
    pub invoice : Invoice N
    pub absent : (p.find_by_invoice_number c.invoice_number w).0 ≡ ok none
    pub built : build id c clock ≡ ok invoice
    pub stored : (p.save invoice (p.find_by_invoice_number c.invoice_number w).1).0 ≡ ok tt
    pub published :
        p.publish_many invoice.events
          (p.save invoice (p.find_by_invoice_number c.invoice_number w).1).1
        ≡ (ok tt, w')
    pub answer_id : result.invoice_id ≡ invoice.id
    pub answer_number : result.invoice_number ≡ invoice.invoice_number
    pub answer_total : calculate_total invoice.line_items ≡ ok result.total

  -- A command goes through only if the number is new, the invoice can be built, it is saved and then
  -- its events are published; the answer has the identifier, the number and the total of the invoice.
  pub execute-Executed :
      (id : Text) (c : CreateInvoiceCommand N) (clock : Clock) (w : W)
      {result : CreateInvoiceResult N}
      → (execute id c clock w).0 ≡ ok result
      → Executed id c clock w (execute id c clock w).1 result
  unfolding execute clear_events
  execute-Executed id c clock w {result} h =
      elim (Result-cases (p.find_by_invoice_number c.invoice_number w).0) [
        | inr (e, bad) ↦ absurd (ground (arith, bad, h))
        | inl (some old, found) ↦ absurd (ground (arith, found, h))
        | inl (none, absent) ↦ elim (Result-cases (build id c clock)) [
          | inr (e, bad) ↦ absurd (ground (arith, absent, bad, h))
          | inl (invoice, built) ↦
              let w1 = (p.find_by_invoice_number c.invoice_number w).1 in
              elim (Result-cases (p.save invoice w1).0) [
                | inr (e, bad) ↦ absurd (ground (arith, absent, built, bad, h))
                | inl (_, stored) ↦
                    let w2 = (p.save invoice w1).1 in
                    elim (Result-cases (p.publish_many invoice.events w2).0) [
                      | inr (e, bad) ↦ absurd (ground (arith, absent, built, stored, bad, h))
                      | inl (_, published) ↦
                          let (total, good) = calculate_total-build id c clock built in
                          record {
                            invoice = invoice;
                            absent = absent;
                            built = built;
                            stored = stored;
                            published = ground (arith, absent, built, stored, published, good);
                            answer_id = ground (arith, absent, built, stored, published, good, h);
                            answer_number =
                                ground (arith, absent, built, stored, published, good, h);
                            answer_total =
                                ground (arith, absent, built, stored, published, good, h);
                          }
                    ]
              ]
        ]
      ]

  -- Where the total is asked for there is one: past the publication, no command throws.
  pub execute_live :
      (id : Text) (c : CreateInvoiceCommand N) (clock : Clock) (invoice : Invoice N)
      (w looked saved w' : W)
      → p.find_by_invoice_number c.invoice_number w ≡ (ok none, looked)
      → build id c clock ≡ ok invoice
      → p.save invoice looked ≡ (ok tt, saved)
      → p.publish_many invoice.events saved ≡ (ok tt, w')
      → (execute id c clock w).1 ≡ w' × (is_ok (execute id c clock w).0 ≡ true)
  unfolding execute clear_events
  execute_live id c clock invoice w looked saved w' absent built stored published =
      let (total, good) = calculate_total-build id c clock built in
      ground (arith, absent, built, stored, published, good)
