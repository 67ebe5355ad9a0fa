-- ===== src/Billing/LineItem/Laws.antt =====
-- A line item that its constructor accepted has a subtotal, a tax amount and a total, all of them
-- valid amounts in the currency of its unit price.
use finvoice.Prelude.{◌≡◌, refl, false, Option, none, some, arith}
use finvoice.Text.{Text, is_blank}
use finvoice.Outcome.{ok, and_then}
use finvoice.Runtime.{Runtime, IsOrdered, nought, le}
use finvoice.Billing.Money.{Money, new_money, multiply}
use finvoice.Billing.Money.Laws.{IsMoney, new_money-ok, add-ok, multiply-ok}
use finvoice.Billing.TaxRate.{TaxRate, IsTaxRate}
use finvoice.Billing.LineItem.{LineItem, new_line_item, get_subtotal, get_tax_amount, get_total}

module _ {N : Type 0} ⦃r : Runtime N⦄ where
  abbrev pub HasTaxRate : Option (TaxRate N) → Type 0
  HasTaxRate none = Unit
  HasTaxRate (some t) = IsTaxRate t

  -- What the constructors of the item, its price and its tax rate check.
  pub record IsLineItem (item : LineItem N) : Type 0 where
    pub described : is_blank item.description ≡ false
    pub quantity_pos : le item.quantity nought ≡ false
    pub price : IsMoney item.unit_price
    pub tax : HasTaxRate item.tax_rate

  pub new_line_item-IsLineItem :
      (d : Text) (q : N) (p : Money N) (t : Option (TaxRate N)) {item : LineItem N}
      → IsMoney p
      → HasTaxRate t
      → new_line_item d q p t ≡ ok item
      → IsLineItem item
  unfolding new_line_item
  new_line_item-IsLineItem d q p t hp ht h = ground arith

  -- The amounts as numbers, with no exception in sight.
  abbrev pub subtotal : LineItem N → N
  subtotal item = r.mul item.unit_price.amount item.quantity

  abbrev pub tax_of : N → Option (TaxRate N) → N
  tax_of s none = nought
  tax_of s (some t) = r.mul s t.rate

  abbrev pub money : N → Text → Money N
  money a c = record { amount = a; currency = c }

  module _ (laws : IsOrdered N) where
    pub subtotal-IsMoney :
        (item : LineItem N)
        → IsLineItem item
        → IsMoney (money (subtotal item) item.unit_price.currency)
    subtotal-IsMoney item h = ground (arith, laws.mul_nonneg item.unit_price.amount item.quantity)

    pub get_subtotal-ok :
        (item : LineItem N)
        → IsLineItem item
        → get_subtotal item ≡ ok (money (subtotal item) item.unit_price.currency)
    unfolding get_subtotal
    get_subtotal-ok item h = ground (arith, multiply-ok laws item.unit_price item.quantity)

    tax_of-IsMoney :
        (s : N) (c : Text) (t : Option (TaxRate N))
        → IsMoney (money s c)
        → HasTaxRate t
        → IsMoney (money (tax_of s t) c)
    tax_of-IsMoney s c none h _ = record {
      not_negative = laws.lt_irrefl nought;
      has_code = h.has_code;
    }
    tax_of-IsMoney s c (some t) h ht = record {
      not_negative = laws.mul_nonneg s t.rate h.not_negative ht.not_negative;
      has_code = h.has_code;
    }

    pub tax-IsMoney :
        (item : LineItem N)
        → IsLineItem item
        → IsMoney (money (tax_of (subtotal item) item.tax_rate) item.unit_price.currency)
    tax-IsMoney item h =
        tax_of-IsMoney (subtotal item) item.unit_price.currency item.tax_rate
          (subtotal-IsMoney item h) h.tax

    pub get_tax_amount-ok :
        (item : LineItem N)
        → IsLineItem item
        → get_tax_amount item
          ≡ ok (money (tax_of (subtotal item) item.tax_rate) item.unit_price.currency)
    unfolding get_tax_amount
    get_tax_amount-ok item h = by_rate item.tax_rate h.tax
      where
        by_rate :
            (t : Option (TaxRate N))
            → HasTaxRate t
            → elim t [
              | none ↦ new_money nought item.unit_price.currency
              | some t ↦ and_then (get_subtotal item) (λ m. multiply m t.rate)
            ]
              ≡ ok (money (tax_of (subtotal item) t) item.unit_price.currency)
        by_rate none _ = new_money-ok nought _ (laws.lt_irrefl nought) h.price.has_code
        by_rate (some t) ht = rw (get_subtotal-ok item h) (
            multiply-ok laws (money (subtotal item) item.unit_price.currency) t.rate
              (subtotal-IsMoney item h) ht.not_negative)

    -- A valid line item has a total: its subtotal plus the tax on it, in its own currency.
    pub get_total-ok :
        (item : LineItem N)
        → IsLineItem item
        → get_total item
          ≡ ok (
              money
                (r.add (subtotal item) (tax_of (subtotal item) item.tax_rate))
                item.unit_price.currency)
    unfolding get_total
    get_total-ok item h = ground (
      arith,
      get_subtotal-ok item h,
      get_tax_amount-ok item h,
      add-ok laws (money (subtotal item) item.unit_price.currency)
          (money (tax_of (subtotal item) item.tax_rate) item.unit_price.currency)
          (subtotal-IsMoney item h) (tax-IsMoney item h) refl,
    )
