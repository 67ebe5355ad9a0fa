-- ===== src/Billing/TaxRate.antt =====
-- services/billing/src/domain/value-objects/tax-rate.ts. `percentage` and `toString` are not
-- modelled.
use finvoice.Prelude.{◌≡◌, ◌||◌, false, if◌then◌else◌, [], arith}
use finvoice.Text.{Text, trim, is_blank}
use finvoice.Text.Laws.{IsClean, trim-IsClean}
use finvoice.Outcome.{Result, ok, err, error}
use finvoice.Runtime.{Runtime, nought}

pub record TaxRate (N : Type 0) : Type 0 where
  pub rate : N
  pub name : Text

module _ {N : Type 0} ⦃r : Runtime N⦄ where
  open r use {lt, number}

  -- The constructor.
  unfoldable pub new_tax_rate : N → Text → Result (TaxRate N)
  new_tax_rate rate name =
      if lt rate nought || lt (number 1) rate
      then err (error "Tax rate must be between 0 and 1" [])
      else if is_blank name
      then err (error "Tax rate name cannot be empty" [])
      else ok (record { rate = rate; name = trim name })

  pub record IsTaxRate (t : TaxRate N) : Type 0 where
    pub not_negative : lt t.rate nought ≡ false
    pub at_most_one : lt (number 1) t.rate ≡ false
    pub clean : IsClean t.name

  pub new_tax_rate-IsTaxRate :
      (rate : N) (name : Text) {t : TaxRate N} → new_tax_rate rate name ≡ ok t → IsTaxRate t
  unfolding new_tax_rate
  new_tax_rate-IsTaxRate rate name h = ground (arith, trim-IsClean name)
