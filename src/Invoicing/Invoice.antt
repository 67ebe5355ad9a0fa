-- ===== src/Invoicing/Invoice.antt =====
-- `InvoiceAggregate` of src/modules/billing/domain/aggregates/invoice.aggregate.ts, with the enums of
-- domain/enums/invoice.enums.ts. A getter is a field. `id` is the given or the generated identifier.
pub mod Payments
pub mod Items
pub mod Laws
pub mod Invariant
pub mod Diagram
pub mod Settlement
pub mod Prorate
use finvoice.Prelude.{
  is_none, String, ℕ, zero, suc, Bool, true, false, not, ◌&&◌, ◌||◌, Option, none, some, List, [],
  ◌∷◌, ◌++◌, leb, ◌==◌, if◌then◌else◌, length, set, remove_at, find_index,
}
use finvoice.Text.{Text, text_eq}
use finvoice.Outcome.{
  Result, ok, err, business_rule, and_then, Method, ◌>>=◌, ◌>>◌, throw_if, gets, modify, call,
}
use finvoice.Runtime.{Runtime, Date, Clock, nought}
use finvoice.Invoicing.Money.{Money, new_money, add, is_positive, equals, is_less_than}
use finvoice.Invoicing.Number.{InvoiceNumber}
use finvoice.Invoicing.Item.{
  Item, calculate_subtotal, calculate_tax_amount, update_description, update_quantity,
  update_unit_price,
}

pub data InvoiceStatus : Type 0 where
  draft finalized sent partially_paid paid overdue cancelled voided overpaid : InvoiceStatus

abbrev pub status_code : InvoiceStatus → ℕ
status_code draft = 0
status_code finalized = 1
status_code sent = 2
status_code partially_paid = 3
status_code paid = 4
status_code overdue = 5
status_code cancelled = 6
status_code voided = 7
status_code overpaid = 8

-- `a === b`
abbrev pub is_status : InvoiceStatus → InvoiceStatus → Bool
is_status a b = status_code a == status_code b

pub data InvoiceType : Type 0 where
  standard recurring credit_note proforma : InvoiceType

abbrev pub is_recurring : InvoiceType → Bool
is_recurring recurring = true
is_recurring _ = false

pub data InvoiceFrequency : Type 0 where
  weekly monthly quarterly annually : InvoiceFrequency

pub record Invoice (N : Type 0) : Type 0 where
  pub id : Text
  pub number : InvoiceNumber
  pub client_id : Text
  pub issued_by : Text
  pub type : InvoiceType
  pub currency : Text
  pub due_date : Date
  pub project_id : Option Text
  pub frequency : Option InvoiceFrequency
  pub notes : Option Text
  pub items : List (Item N)
  pub status : InvoiceStatus
  pub finalized_at : Option Date
  pub sent_at : Option Date
  pub paid_at : Option Date
  pub voided_at : Option Date
  pub paid_amount : Option (Money N)
  pub void_reason : Option Text

-- `UpdateItemParams`
pub record ItemUpdates (N : Type 0) : Type 0 where
  pub description : Option Text
  pub quantity : Option N
  pub unit_price : Option (Money N)

-- The constructor with its `validate`, which `create` calls.
unfoldable pub create :
    {N : Type 0}
    → Text
    → InvoiceNumber
    → (client_id issued_by : Text) → InvoiceType
    → (currency : Text) → (due_date : Date) → (project_id : Option Text) → Option InvoiceFrequency
    → (notes : Option Text) → Clock
    → Result (Invoice N)
create id number client_id issued_by type currency due_date project_id frequency notes clock =
    if leb due_date (clock 0)
    then err (business_rule "Due date must be in the future" [])
    else if is_recurring type && is_none frequency
    then err (business_rule "Recurring invoices must have a frequency" [])
    else ok (record {
      id = id;
      number = number;
      client_id = client_id;
      issued_by = issued_by;
      type = type;
      currency = currency;
      due_date = due_date;
      project_id = project_id;
      frequency = frequency;
      notes = notes;
      items = [];
      status = draft;
      finalized_at = none;
      sent_at = none;
      paid_at = none;
      voided_at = none;
      paid_amount = none;
      void_reason = none;
    })

abbrev item_currency_differs : String
item_currency_differs = "Item currency {} does not match invoice currency {}"

module _ {N : Type 0} ⦃r : Runtime N⦄ where
  open r use {eq}

  unfoldable pub add_item : Item N → Method (Invoice N) (Unit {0})
  add_item item = do
    status ← gets (λ s. s.status)
    throw_if (not (is_status status draft))
        (business_rule "Cannot add items to non-draft invoice" [])
    currency ← gets (λ s. s.currency)
    throw_if (not (text_eq item.unit_price.currency currency))
        (business_rule item_currency_differs (item.unit_price.currency ∷ currency ∷ []))
    modify (λ s. record s { items = s.items ++ (item ∷ []) })

  -- The first item with the identifier, and its index.
  abbrev pub find_item : Text → List (Item N) → Option (ℕ × Item N)
  find_item id [] = none
  find_item id (i ∷ items) =
      if text_eq i.id id
      then some (0, i)
      else elim (find_item id items) [ none ↦ none | some e ↦ some (suc e.0, e.1) ]

  unfoldable pub remove_item : Text → Method (Invoice N) (Unit {0})
  remove_item item_id = do
    status ← gets (λ s. s.status)
    throw_if (not (is_status status draft))
        (business_rule "Cannot remove items from non-draft invoice" [])
    items ← gets (λ s. s.items)
    elim (find_index (λ (i : Item N). text_eq i.id item_id) items) [
      | none ↦ call (err (business_rule "Item with id {} not found" (item_id ∷ [])))
      | some index ↦ modify (λ s. record s { items = remove_at items index })
    ]

  -- `if (u !== undefined) { item = item.update(u) }`
  abbrev pub updated :
      {A : Type 0} → Option A → (A → Item N → Result (Item N)) → Item N → Result (Item N)
  updated none f item = ok item
  updated (some a) f item = f a item

  -- A new price must be in the currency of the invoice.
  unfoldable pub change_price : (currency : Text) → Money N → Item N → Result (Item N)
  change_price currency price item =
      if not (text_eq price.currency currency)
      then err (business_rule item_currency_differs (price.currency ∷ currency ∷ []))
      else update_unit_price price item

  unfoldable pub apply_updates : (currency : Text) → ItemUpdates N → Item N → Result (Item N)
  apply_updates currency u item =
      and_then (updated u.description update_description item) (λ described.
        and_then (updated u.quantity update_quantity described)
          (λ counted. updated u.unit_price (change_price currency) counted))

  unfoldable pub update_item : Text → ItemUpdates N → Method (Invoice N) (Unit {0})
  update_item item_id updates = do
    status ← gets (λ s. s.status)
    throw_if (not (is_status status draft))
        (business_rule "Cannot update items in non-draft invoice" [])
    items ← gets (λ s. s.items)
    currency ← gets (λ s. s.currency)
    elim (find_item item_id items) [
      | none ↦ call (err (business_rule "Item with id {} not found" (item_id ∷ [])))
      | some e ↦ call (apply_updates currency updates e.1) >>= λ item.
          modify (λ s. record s { items = set items e.0 item })
    ]

  -- The callbacks of `reduce`, which throw what their item throws.
  unfoldable pub sum_subtotals : N → List (Item N) → Result N
  sum_subtotals sum [] = ok sum
  sum_subtotals sum (i ∷ items) =
      and_then (calculate_subtotal i)
        (λ m. sum_subtotals (if eq sum nought then m.amount else r.add sum m.amount) items)

  unfoldable pub sum_taxes : N → List (Item N) → Result N
  sum_taxes sum [] = ok sum
  sum_taxes sum (i ∷ items) =
      and_then (calculate_tax_amount i) (λ m. sum_taxes (r.add sum m.amount) items)

  unfoldable pub subtotal_of : Text → List (Item N) → Result (Money N)
  subtotal_of currency items =
      if length items == 0
      then new_money nought currency
      else and_then (sum_subtotals nought items) (λ total. new_money total currency)

  unfoldable pub total_tax_of : Text → List (Item N) → Result (Money N)
  total_tax_of currency items =
      if length items == 0
      then new_money nought currency
      else and_then (sum_taxes nought items) (λ total. new_money total currency)

  -- `calculateTotal`
  unfoldable pub total_of : Text → List (Item N) → Result (Money N)
  total_of currency items =
      and_then (subtotal_of currency items)
        (λ subtotal. and_then (total_tax_of currency items) (λ tax. add subtotal tax))
