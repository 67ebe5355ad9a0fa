-- ===== src/Billing/Application.antt =====
-- The use cases of services/billing/src/application/use-cases on stored invoices: get, list, update,
-- send and delete, over the repository of infrastructure/repositories/mongo-invoice.repository.ts and
-- the schema of infrastructure/schemas/invoice.schema.ts. Identifiers that MongoDB cannot read are
-- left out, and so are tax lines and terms.
pub mod Create
pub mod Listing
pub mod Pages
pub mod Laws
pub mod Final
use finvoice.Prelude.{◌==◌}
use finvoice.Prelude.{
  zero, ◌*◌, ◌-◌, suc, ap, Bool, false, not, ◌&&◌, ◌||◌, Option, none, some, List, [], ◌∷◌, map,
  all, find, filter, length, ℕ, if◌then◌else◌, ◌+◌, ltb,
}
use finvoice.Text.{Text, text, text_eq, is_empty}
use finvoice.Outcome.{
  ok, err, error, bad_request, not_found, Method, ◌>>=◌, ◌>>◌, throw_if, modify, call,
}
use finvoice.Runtime.{Runtime, nought, le, Date, Clock}
use finvoice.Collection.{Collection, find_one}
use finvoice.Billing.Invoice.{
  InvoiceStatus, draft, sent, viewed, paid, overdue, cancelled, is_status,
}

-- An amount with a currency, as it is stored: without the checks of `Money`.
pub record StoredMoney (N : Type 0) : Type 0 where
  pub amount : N
  pub currency : Text

pub record StoredItem (N : Type 0) : Type 0 where
  pub description : Text
  pub quantity : N
  pub unit_price : StoredMoney N
  pub total : StoredMoney N

pub record InvoiceDocument (N : Type 0) : Type 0 where
  pub id : Text
  pub invoice_number : Text
  pub customer_id : Text
  pub issue_date : Date
  pub due_date : Date
  pub status : InvoiceStatus
  pub line_items : List (StoredItem N)
  pub subtotal : StoredMoney N
  pub total_amount : StoredMoney N
  pub notes : Option Text
  pub sent_at : Option Date
  pub updated_at : Date

-- `LineItemDto` and `UpdateInvoiceDto`.
pub record ItemDto (N : Type 0) : Type 0 where
  pub description : Text
  pub quantity : N
  pub unit_price : N
  pub currency : Option Text

pub record UpdateDto (N : Type 0) : Type 0 where
  pub customer_id : Option Text
  pub due_date : Option Date
  pub line_items : Option (List (ItemDto N))
  pub notes : Option Text

-- The response holds what the document does, the amounts without their currencies but one.
pub record InvoiceResponse (N : Type 0) : Type 0 where
  pub id : Text
  pub invoice_number : Text
  pub customer_id : Text
  pub status : InvoiceStatus
  pub line_items : List (StoredItem N)
  pub subtotal : N
  pub total_amount : N
  pub currency : Text
  pub due_date : Date
  pub notes : Option Text

abbrev pub has_id : {N : Type 0} → Text → InvoiceDocument N → Bool
has_id id d = text_eq d.id id

unfoldable pub map_to_response_dto : {N : Type 0} → InvoiceDocument N → InvoiceResponse N
map_to_response_dto d = record {
  id = d.id;
  invoice_number = d.invoice_number;
  customer_id = d.customer_id;
  status = d.status;
  line_items = d.line_items;
  subtotal = d.subtotal.amount;
  total_amount = d.total_amount.amount;
  currency = d.total_amount.currency;
  due_date = d.due_date;
  notes = d.notes;
}

-- The stored invoices and the rest of the world, in which the jobs are queued.
pub record Shop (S W : Type 0) : Type 0 where
  pub invoices : S
  pub world : W

-- The collection, the sorts of the server and the job service.
pub record ShopEnvironment (N S W : Type 0) : Type 0 where
  pub documents : Collection S (InvoiceDocument N)
  pub by_created_at : List (InvoiceDocument N) → List (InvoiceDocument N)
  pub by_due_date : List (InvoiceDocument N) → List (InvoiceDocument N)
  pub add_job : (queue name invoice_id : Text) → Method W (Unit {0})

-- `item.currency || 'USD'`
abbrev pub or_usd : Option Text → Text
or_usd none = text "USD"
or_usd (some c) = if is_empty c then text "USD" else c

abbrev pub status_text : InvoiceStatus → Text
status_text draft = text "draft"
status_text sent = text "sent"
status_text viewed = text "viewed"
status_text paid = text "paid"
status_text overdue = text "overdue"
status_text cancelled = text "cancelled"

module _ {N : Type 0} ⦃r : Runtime N⦄ where
  open r use {add, mul}

  unfoldable pub to_item : ItemDto N → StoredItem N
  to_item i = record {
    description = i.description;
    quantity = i.quantity;
    unit_price = record { amount = i.unit_price; currency = or_usd i.currency };
    total = record { amount = mul i.quantity i.unit_price; currency = or_usd i.currency };
  }

  -- `reduce((sum, item) => sum + item.total.amount, 0)`
  abbrev pub sum_totals : N → List (StoredItem N) → N
  sum_totals sum [] = sum
  sum_totals sum (i ∷ items) = sum_totals (add sum i.total.amount) items

  -- `lineItems[0]?.total.currency || 'USD'`
  abbrev pub first_currency : List (StoredItem N) → Text
  first_currency [] = text "USD"
  first_currency (i ∷ _) = or_usd (some i.total.currency)

  unfoldable pub set_items : Option (List (ItemDto N)) → InvoiceDocument N → InvoiceDocument N
  set_items none d = d
  set_items (some dtos) d =
      let items = map to_item dtos in
      let total : StoredMoney N = record {
        amount = sum_totals nought items;
        currency = first_currency items;
      } in
      record d { line_items = items; subtotal = total; total_amount = total }

  -- `$set` with the update data.
  unfoldable pub updated : UpdateDto N → Date → InvoiceDocument N → InvoiceDocument N
  updated u now d =
      let d' = set_items u.line_items d in
      record d' {
        customer_id = elim u.customer_id [ none ↦ d'.customer_id | some c ↦ c ];
        due_date = elim u.due_date [ none ↦ d'.due_date | some t ↦ t ];
        notes = elim u.notes [ none ↦ d'.notes | some n ↦ some n ];
        updated_at = now;
      }

-- `updateData` of `send`.
abbrev pub mark_sent_at :
    {N : Type 0} → (sent_at updated_at : Date) → InvoiceDocument N → InvoiceDocument N
mark_sent_at sent_at updated_at d = record d {
  status = sent;
  sent_at = some sent_at;
  updated_at = updated_at;
}

module _ {N S W : Type 0} ⦃r : Runtime N⦄ (e : ShopEnvironment N S W) where
  open e use {documents}

  abbrev pub State : Type 0
  State = Shop S W

  abbrev pub find_by_id : Text → State → Option (InvoiceDocument N)
  find_by_id id s = find_one documents (has_id id) s.invoices

  -- `save` with an `_id`
  abbrev pub save : Text → (InvoiceDocument N → InvoiceDocument N) → Method State (Unit {0})
  save id f = modify (λ s. record s { invoices = documents.update (has_id id) f s.invoices })

  unfoldable pub find_or_throw : Text → Method State (InvoiceDocument N)
  find_or_throw id s = elim (find_by_id id s) [
    | none ↦ (err (not_found "Invoice with ID {} not found" (id ∷ [])), s)
    | some d ↦ (ok d, s)
  ]

  -- `mapToResponseDto(await findById(id))`, which throws where there is no document.
  unfoldable pub respond : Text → Method State (InvoiceResponse N)
  respond id s = elim (find_by_id id s) [
    | none ↦ (err (error "Cannot read properties of null (reading '_id')" []), s)
    | some d ↦ (ok (map_to_response_dto d), s)
  ]

  abbrev pub get_invoice : Text → Method State (InvoiceResponse N)
  get_invoice id = find_or_throw id >>= λ d. call (ok (map_to_response_dto d))

  unfoldable pub delete_invoice : Text → Method State (Unit {0})
  delete_invoice id = do
    d ← find_or_throw id
    throw_if (not (is_status d.status draft)) (
        bad_request "Cannot delete invoice with status: {}. Only draft invoices can be deleted."
          (status_text d.status ∷ []))
    modify (λ s. record s { invoices = documents.remove (has_id id) s.invoices })

  unfoldable pub update_invoice : Text → UpdateDto N → Clock → Method State (InvoiceResponse N)
  update_invoice id u clock = do
    d ← find_or_throw id
    throw_if (is_status d.status paid || is_status d.status cancelled)
        (bad_request "Cannot update invoice with status: {}" (status_text d.status ∷ []))
    save d.id (updated u (clock 0))
    respond id

  -- `jobService.addJob('invoice-processing', name, …)`
  abbrev pub queue_job : (name id : Text) → Method State (Unit {0})
  queue_job name id s =
      let (result, w) = e.add_job (text "invoice-processing") name id s.world in
      (result, record s { world = w })

  unfoldable pub send_invoice : Text → Clock → Method State (InvoiceResponse N)
  send_invoice id clock = do
    d ← find_or_throw id
    throw_if (not (is_status d.status draft)) (
        bad_request "Cannot send invoice with status: {}. Only draft invoices can be sent."
          (status_text d.status ∷ []))
    save d.id (mark_sent_at (clock 0) (clock 1))
    queue_job (text "send-invoice") id
    queue_job (text "generate-pdf") id
    respond id
