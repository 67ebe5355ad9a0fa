-- ===== src/Invoicing/TaxRate.antt =====
-- src/modules/billing/domain/value-objects/tax-rate.ts: a rate in percent, of one of seven types.
-- `toDisplayString` is not modelled.
use finvoice.Prelude.{Bool, not, ◌&&◌, ◌||◌, List, [], ◌∷◌, any, if◌then◌else◌}
use finvoice.Text.{Text, text, text_eq, is_blank}
use finvoice.Outcome.{Result, ok, err, required, invalid_value}
use finvoice.Runtime.{Runtime, nought}
use finvoice.Invoicing.Money.{to_cents}

pub record TaxRate (N : Type 0) : Type 0 where
  pub rate : N
  pub type : Text

abbrev valid_types : List Text
valid_types =
    text "SALES_TAX"
    ∷ text "VAT"
    ∷ text "GST"
    ∷ text "STATE_TAX"
    ∷ text "CITY_TAX"
    ∷ text "NO_TAX"
    ∷ text "COMBINED_TAX"
    ∷ []

-- `validTypes.includes(type)`
unfoldable pub is_listed : Text → Bool
is_listed type = any (text_eq type) valid_types

module _ {N : Type 0} ⦃r : Runtime N⦄ where
  open r use {lt, eq, number, is_finite}

  -- The constructor: `validateRate`, then `validateType`.
  unfoldable pub new_tax_rate : N → Text → Result (TaxRate N)
  new_tax_rate rate type =
      if not (is_finite rate)
      then err (invalid_value "rate")
      else if lt rate nought || lt (number 100) rate
      then err (invalid_value "rate")
      else if is_blank type
      then err (required "type")
      else if not (is_listed type)
      then err (invalid_value "type")
      else ok (record { rate = rate; type = type })

  -- `Math.round(amount * (rate / 100) * 100) / 100`
  unfoldable pub calculate_tax : TaxRate N → N → Result N
  calculate_tax t amount =
      if not (is_finite amount)
      then err (invalid_value "amount")
      else ok (to_cents (r.mul amount (r.div t.rate (number 100))))

  -- `noTax`
  unfoldable pub no_tax : Result (TaxRate N)
  no_tax = new_tax_rate nought (text "NO_TAX")

  unfoldable pub get_decimal_rate : TaxRate N → N
  get_decimal_rate t = r.div t.rate (number 100)

  unfoldable pub is_zero : TaxRate N → Bool
  is_zero t = eq t.rate nought

  unfoldable pub equals : TaxRate N → TaxRate N → Bool
  equals t u = eq t.rate u.rate && text_eq t.type u.type

  unfoldable pub is_greater_than : TaxRate N → TaxRate N → Bool
  is_greater_than t u = lt u.rate t.rate

  unfoldable pub is_less_than : TaxRate N → TaxRate N → Bool
  is_less_than t u = lt t.rate u.rate
