-- ===== src/Billing/LineItem.antt =====
-- The class `LineItem` of services/billing/src/domain/aggregates/invoice.aggregate.ts.
pub mod Laws
use finvoice.Prelude.{Option, none, some, if◌then◌else◌, []}
use finvoice.Text.{Text, is_blank}
use finvoice.Outcome.{Result, ok, err, domain_exception, and_then}
use finvoice.Runtime.{Runtime, nought, le}
use finvoice.Billing.Money.{Money, new_money, add, multiply}
use finvoice.Billing.TaxRate.{TaxRate}

pub record LineItem (N : Type 0) : Type 0 where
  pub description : Text
  pub quantity : N
  pub unit_price : Money N
  pub tax_rate : Option (TaxRate N)

module _ {N : Type 0} ⦃r : Runtime N⦄ where
  -- The constructor.
  unfoldable pub new_line_item : Text → N → Money N → Option (TaxRate N) → Result (LineItem N)
  new_line_item description quantity unit_price tax_rate =
      if is_blank description
      then err (domain_exception "Line item description cannot be empty" [])
      else if le quantity nought
      then err (domain_exception "Line item quantity must be positive" [])
      else ok (record {
        description = description;
        quantity = quantity;
        unit_price = unit_price;
        tax_rate = tax_rate;
      })

  unfoldable pub get_subtotal : LineItem N → Result (Money N)
  get_subtotal item = multiply item.unit_price item.quantity

  unfoldable pub get_tax_amount : LineItem N → Result (Money N)
  get_tax_amount item = elim item.tax_rate [
    | none ↦ new_money nought item.unit_price.currency
    | some t ↦ and_then (get_subtotal item) (λ subtotal. multiply subtotal t.rate)
  ]

  unfoldable pub get_total : LineItem N → Result (Money N)
  get_total item =
      and_then (get_subtotal item)
        (λ subtotal. and_then (get_tax_amount item) (λ tax. add subtotal tax))
