-- ===== src/Billing/Totals.antt =====
-- The amounts of an invoice: `TaxLine`, `calculateSubtotal`, `calculateTaxLines`,
-- `calculateTotalTax` and `calculateTotal` of
-- services/billing/src/domain/aggregates/invoice.aggregate.ts, over `props.lineItems`.
pub mod Sums
pub mod Laws
pub mod Lines
use finvoice.Prelude.{Bool, false, Option, none, some, List, [], ◌∷◌, map, find}
use finvoice.Text.{Text, text_eq, usd}
use finvoice.Dict.{Dict, lookup, insert}
use finvoice.Outcome.{Result, ok, err, error, and_then}
use finvoice.Runtime.{Runtime, nought}
use finvoice.Billing.Money.{Money, new_money, add}
use finvoice.Billing.TaxRate.{TaxRate}
use finvoice.Billing.LineItem.{LineItem, get_subtotal, get_tax_amount}

-- The rate comes from a search, so it may be undefined; the code asserts that it is not.
pub record TaxLine (N : Type 0) : Type 0 where
  pub tax_rate : Option (TaxRate N)
  pub amount : Money N

-- `items.map(f)`, where `f` may throw
unfoldable pub map_result : {A B : Type 0} → (A → Result B) → List A → Result (List B)
map_result f [] = ok []
map_result f (x ∷ xs) = and_then (f x) (λ y. and_then (map_result f xs) (λ ys. ok (y ∷ ys)))

module _ {N : Type 0} ⦃r : Runtime N⦄ where
  -- `.reduce((total, m) => total.add(m))`, past the first amount
  unfoldable pub reduce_from : Money N → List (Money N) → Result (Money N)
  reduce_from total [] = ok total
  reduce_from total (m ∷ ms) = and_then (add total m) (λ t. reduce_from t ms)

  unfoldable pub reduce_money : List (Money N) → Result (Money N)
  unfolding reduce_from
  reduce_money [] = err (error "Reduce of empty array with no initial value" [])
  reduce_money (m ∷ ms) = reduce_from m ms

  unfoldable pub calculate_subtotal : List (LineItem N) → Result (Money N)
  calculate_subtotal [] = new_money nought usd
  calculate_subtotal (i ∷ items) = and_then (map_result get_subtotal (i ∷ items)) reduce_money

  -- `existing ? existing.add(amount) : amount`
  abbrev pub plus : Option (Money N) → Money N → Result (Money N)
  plus none amount = ok amount
  plus (some existing) amount = add existing amount

  -- `taxMap` with `amount` added under `name`.
  unfoldable pub put_tax : Text → Money N → Dict (Money N) → Result (Dict (Money N))
  put_tax name amount taxes =
      and_then (plus (lookup name taxes) amount) (λ s. ok (insert name s taxes))

  -- One round of the `forEach` that fills `taxMap`.
  unfoldable pub add_tax : Dict (Money N) → LineItem N → Result (Dict (Money N))
  add_tax taxes item = elim item.tax_rate [
    | none ↦ ok taxes
    | some t ↦ and_then (get_tax_amount item) (λ amount. put_tax t.name amount taxes)
  ]

  unfoldable pub collect_taxes : Dict (Money N) → List (LineItem N) → Result (Dict (Money N))
  collect_taxes taxes [] = ok taxes
  collect_taxes taxes (i ∷ items) = and_then (add_tax taxes i) (λ m. collect_taxes m items)

  -- `item.taxRate?.name === name`
  abbrev pub has_rate : Text → LineItem N → Bool
  has_rate name item = elim item.tax_rate [ none ↦ false | some t ↦ text_eq t.name name ]

  -- `items.find(item => item.taxRate?.name === name)?.taxRate`
  abbrev pub rate_named : Text → List (LineItem N) → Option (TaxRate N)
  rate_named name items = elim (find (has_rate name) items) [ none ↦ none | some i ↦ i.tax_rate ]

  -- The tax line of an entry of `taxMap`.
  abbrev pub tax_line : List (LineItem N) → Text × Money N → TaxLine N
  tax_line items (name, amount) = record { tax_rate = rate_named name items; amount = amount }

  unfoldable pub calculate_tax_lines : List (LineItem N) → Result (List (TaxLine N))
  calculate_tax_lines items =
      and_then (collect_taxes [] items) (λ taxes. ok (map (tax_line items) taxes))

  -- The end of `calculateTotalTax`, on the tax lines.
  unfoldable pub sum_tax_lines : List (TaxLine N) → Result (Money N)
  sum_tax_lines [] = new_money nought usd
  sum_tax_lines (l ∷ lines) = reduce_money (map (λ t. t.amount) (l ∷ lines))

  unfoldable pub calculate_total_tax : List (LineItem N) → Result (Money N)
  calculate_total_tax items = and_then (calculate_tax_lines items) sum_tax_lines

  unfoldable pub calculate_total : List (LineItem N) → Result (Money N)
  calculate_total items =
      and_then (calculate_subtotal items)
        (λ subtotal. and_then (calculate_total_tax items) (λ tax. add subtotal tax))
