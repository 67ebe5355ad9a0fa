-- ===== src/Invoicing/Money.antt =====
-- src/modules/billing/domain/value-objects/money.ts: finite amounts with at most two decimals, of
-- either sign, in one of nine currencies. `toDisplayString` is not modelled.
use finvoice.Prelude.{
  ◌≡◌, ◌≤◌, Bool, true, false, not, ◌&&◌, ◌||◌, List, [], ◌∷◌, any, arith, ltb, if◌then◌else◌,
}
use finvoice.Text.{Text, text_eq, is_blank}
use finvoice.Text.Laws.{text_eq_iff}
use finvoice.Outcome.{Result, ok, err, business_rule, required, invalid_value}
use finvoice.Runtime.{Runtime, nought}

pub record Money (N : Type 0) : Type 0 where
  pub amount : N
  pub currency : Text

abbrev valid_currencies : List Text
valid_currencies =
    (b'U' ∷ b'S' ∷ b'D' ∷ [])
    ∷ (b'E' ∷ b'U' ∷ b'R' ∷ [])
    ∷ (b'G' ∷ b'B' ∷ b'P' ∷ [])
    ∷ (b'J' ∷ b'P' ∷ b'Y' ∷ [])
    ∷ (b'C' ∷ b'A' ∷ b'D' ∷ [])
    ∷ (b'A' ∷ b'U' ∷ b'D' ∷ [])
    ∷ (b'C' ∷ b'H' ∷ b'F' ∷ [])
    ∷ (b'C' ∷ b'N' ∷ b'Y' ∷ [])
    ∷ (b'I' ∷ b'N' ∷ b'R' ∷ [])
    ∷ []

-- `Money.VALID_CURRENCIES.includes(currency)`
unfoldable pub is_listed : Text → Bool
is_listed currency = any (text_eq currency) valid_currencies

module _ {N : Type 0} ⦃r : Runtime N⦄ where
  open r use {lt, eq, number, round, is_finite, decimal_places}

  -- The constructor: `validateAmount`, then `validateCurrency`.
  unfoldable pub new_money : N → Text → Result (Money N)
  new_money amount currency =
      if not (is_finite amount)
      then err (invalid_value "amount")
      else if ltb 2 (decimal_places amount)
      then err (invalid_value "amount")
      else if is_blank currency
      then err (required "currency")
      else if not (is_listed currency)
      then err (invalid_value "currency")
      else ok (record { amount = amount; currency = currency })

  unfoldable pub add : Money N → Money N → Result (Money N)
  add m n =
      if not (text_eq m.currency n.currency)
      then err (
          business_rule "Cannot add different currencies: {} and {}" (m.currency ∷ n.currency ∷ []))
      else new_money (r.add m.amount n.amount) m.currency

  unfoldable pub subtract : Money N → Money N → Result (Money N)
  subtract m n =
      if not (text_eq m.currency n.currency)
      then err (
          business_rule "Cannot subtract different currencies: {} and {}"
            (m.currency ∷ n.currency ∷ []))
      else new_money (r.sub m.amount n.amount) m.currency

  -- `Math.round(x * 100) / 100`
  abbrev pub to_cents : N → N
  to_cents x = r.div (round (r.mul x (number 100))) (number 100)

  unfoldable pub multiply : Money N → N → Result (Money N)
  multiply m factor =
      if not (is_finite factor)
      then err (invalid_value "factor")
      else new_money (to_cents (r.mul m.amount factor)) m.currency

  unfoldable pub divide : Money N → N → Result (Money N)
  divide m divisor =
      if not (is_finite divisor) || eq divisor nought
      then err (invalid_value "divisor")
      else new_money (to_cents (r.div m.amount divisor)) m.currency

  unfoldable pub is_zero : Money N → Bool
  is_zero m = eq m.amount nought

  unfoldable pub is_negative : Money N → Bool
  is_negative m = lt m.amount nought

  unfoldable pub is_positive : Money N → Bool
  is_positive m = lt nought m.amount

  unfoldable pub equals : Money N → Money N → Bool
  equals m n = eq m.amount n.amount && text_eq m.currency n.currency

  unfoldable pub is_less_than : Money N → Money N → Result Bool
  is_less_than m n =
      if not (text_eq m.currency n.currency)
      then err (
          business_rule "Cannot compare different currencies: {} and {}"
            (m.currency ∷ n.currency ∷ []))
      else ok (lt m.amount n.amount)

  unfoldable pub is_greater_than : Money N → Money N → Result Bool
  is_greater_than m n =
      if not (text_eq m.currency n.currency)
      then err (
          business_rule "Cannot compare different currencies: {} and {}"
            (m.currency ∷ n.currency ∷ []))
      else ok (lt n.amount m.amount)

  -- What the constructor checks.
  pub record IsMoney (m : Money N) : Type 0 where
    pub finite : is_finite m.amount ≡ true
    pub cents : decimal_places m.amount ≤ 2
    pub named : is_blank m.currency ≡ false
    pub listed : is_listed m.currency ≡ true

  pub new_money-IsMoney :
      (a : N) (c : Text) {m : Money N}
      → new_money a c ≡ ok m
      → IsMoney m × (m.amount ≡ a) × (m.currency ≡ c)
  unfolding new_money
  new_money-IsMoney a c h = ground arith

  -- A sum is in the common currency of its parts.
  pub add-currency :
      (m n : Money N) {s : Money N}
      → add m n ≡ ok s
      → (s.currency ≡ m.currency) × (m.currency ≡ n.currency) × IsMoney s
  unfolding add
  add-currency m n {s} h = ground (
    arith,
    new_money-IsMoney (r.add m.amount n.amount) m.currency {m = s},
    text_eq_iff m.currency n.currency,
  )

  pub add-amount :
      (m n : Money N) {s : Money N} → add m n ≡ ok s → s.amount ≡ r.add m.amount n.amount
  unfolding add
  add-amount m n {s} h =
      ground (arith, new_money-IsMoney (r.add m.amount n.amount) m.currency {m = s})

  -- Without an exception the order is that of the amounts.
  pub is_less_than-ok :
      (m n : Money N) → m.currency ≡ n.currency → is_less_than m n ≡ ok (lt m.amount n.amount)
  unfolding is_less_than
  is_less_than-ok m n h = ground (arith, text_eq_iff m.currency n.currency)
