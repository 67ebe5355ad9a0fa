-- ===== src/Invoicing/Item.antt =====
-- src/modules/billing/domain/entities/invoice-item.entity.ts.
use finvoice.Prelude.{◌≡◌, Bool, true, false, not, arith, if◌then◌else◌}
use finvoice.Text.{Text, text_eq, is_blank}
use finvoice.Outcome.{Result, ok, err, and_then, required, invalid_value}
use finvoice.Runtime.{Runtime, nought, le}
use finvoice.Invoicing.Money.{Money, new_money, add, multiply, is_positive}
use finvoice.Invoicing.TaxRate.{TaxRate, calculate_tax}

pub record Item (N : Type 0) : Type 0 where
  pub id : Text
  pub description : Text
  pub quantity : N
  pub unit_price : Money N
  pub tax_rate : TaxRate N

module _ {N : Type 0} ⦃r : Runtime N⦄ where
  -- The constructor with its `validate`; `id` is the given or the generated identifier.
  unfoldable pub new_item : Text → Text → N → Money N → TaxRate N → Result (Item N)
  new_item id description quantity unit_price tax_rate =
      if is_blank description
      then err (required "description")
      else if le quantity nought
      then err (invalid_value "quantity")
      else if not (is_positive unit_price)
      then err (invalid_value "unitPrice")
      else ok (record {
        id = id;
        description = description;
        quantity = quantity;
        unit_price = unit_price;
        tax_rate = tax_rate;
      })

  unfoldable pub calculate_subtotal : Item N → Result (Money N)
  calculate_subtotal item = multiply item.unit_price item.quantity

  unfoldable pub calculate_tax_amount : Item N → Result (Money N)
  calculate_tax_amount item = and_then (calculate_subtotal item) (λ subtotal.
      and_then (calculate_tax item.tax_rate subtotal.amount)
        (λ tax. new_money tax subtotal.currency))

  unfoldable pub calculate_total : Item N → Result (Money N)
  calculate_total item =
      and_then (calculate_subtotal item)
        (λ subtotal. and_then (calculate_tax_amount item) (λ tax. add subtotal tax))

  unfoldable pub update_description : Text → Item N → Result (Item N)
  update_description description item =
      new_item item.id description item.quantity item.unit_price item.tax_rate

  unfoldable pub update_quantity : N → Item N → Result (Item N)
  update_quantity quantity item =
      new_item item.id item.description quantity item.unit_price item.tax_rate

  unfoldable pub update_unit_price : Money N → Item N → Result (Item N)
  update_unit_price unit_price item =
      new_item item.id item.description item.quantity unit_price item.tax_rate

  unfoldable pub update_tax_rate : TaxRate N → Item N → Result (Item N)
  update_tax_rate tax_rate item =
      new_item item.id item.description item.quantity item.unit_price tax_rate

  unfoldable pub equals : Item N → Item N → Bool
  equals item other = text_eq item.id other.id

  -- What the constructor checks.
  pub record IsItem (item : Item N) : Type 0 where
    pub described : is_blank item.description ≡ false
    pub quantity_pos : le item.quantity nought ≡ false
    pub price_pos : is_positive item.unit_price ≡ true

  pub new_item-IsItem :
      (id d : Text) (q : N) (p : Money N) (t : TaxRate N) {item : Item N}
      → new_item id d q p t ≡ ok item
      → IsItem item × (item.id ≡ id) × (item.unit_price ≡ p)
  unfolding new_item
  new_item-IsItem id d q p t h = ground arith
