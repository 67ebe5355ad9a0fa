-- ===== src/Billing/Money.antt =====
-- services/billing/src/domain/value-objects/money.ts: an amount that is not negative, in a
-- currency of three letters. `toString` is not modelled.
pub mod Laws
use finvoice.Prelude.{Bool, not, if◌then◌else◌, []}
use finvoice.Text.{Text, text_eq, is_bad_code}
use finvoice.Outcome.{Result, ok, err, error}
use finvoice.Runtime.{Runtime, nought}

pub record Money (N : Type 0) : Type 0 where
  pub amount : N
  pub currency : Text

module _ {N : Type 0} ⦃r : Runtime N⦄ where
  open r use {lt, eq}

  -- The constructor.
  unfoldable pub new_money : N → Text → Result (Money N)
  new_money amount currency =
      if lt amount nought
      then err (error "Amount cannot be negative" [])
      else if is_bad_code currency
      then err (error "Currency must be a valid 3-letter code" [])
      else ok (record { amount = amount; currency = currency })

  unfoldable pub add : Money N → Money N → Result (Money N)
  unfolding new_money
  add m other =
      if not (text_eq m.currency other.currency)
      then err (error "Cannot add money with different currencies" [])
      else new_money (r.add m.amount other.amount) m.currency

  unfoldable pub subtract : Money N → Money N → Result (Money N)
  unfolding new_money
  subtract m other =
      let result = r.sub m.amount other.amount in
      if not (text_eq m.currency other.currency)
      then err (error "Cannot subtract money with different currencies" [])
      else if lt result nought
      then err (error "Subtraction would result in negative amount" [])
      else new_money result m.currency

  unfoldable pub multiply : Money N → N → Result (Money N)
  unfolding new_money
  multiply m factor =
      if lt factor nought
      then err (error "Factor cannot be negative" [])
      else new_money (r.mul m.amount factor) m.currency

  unfoldable pub is_zero : Money N → Bool
  is_zero m = eq m.amount nought
