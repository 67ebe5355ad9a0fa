-- ===== src/Billing/Money/Laws.antt =====
-- Every `Money` that a constructor or an operation returns is valid, and on valid amounts the
-- operations throw exactly where the code means them to.
use finvoice.Prelude.{◌≡◌, false, [], arith}
use finvoice.Text.{Text, text_eq, is_bad_code}
use finvoice.Text.Laws.{text_eq_iff}
use finvoice.Outcome.{ok, err, error}
use finvoice.Runtime.{Runtime, IsOrdered, nought}
use finvoice.Billing.Money.{Money, new_money, add, multiply}

module _ {N : Type 0} ⦃r : Runtime N⦄ where
  -- What the constructor checks.
  pub record IsMoney (m : Money N) : Type 0 where
    pub not_negative : r.lt m.amount nought ≡ false
    pub has_code : is_bad_code m.currency ≡ false

  pub new_money-IsMoney : (a : N) (c : Text) {m : Money N} → new_money a c ≡ ok m → IsMoney m
  unfolding new_money
  new_money-IsMoney a c h = ground arith

  -- A nonnegative amount in a well-formed currency is accepted as it is.
  pub new_money-ok :
      (a : N) (c : Text)
      → r.lt a nought ≡ false
      → is_bad_code c ≡ false
      → new_money a c ≡ ok (record { amount = a; currency = c })
  unfolding new_money
  new_money-ok a c h k = ground arith

  pub add-IsMoney : (m n : Money N) {s : Money N} → add m n ≡ ok s → IsMoney s
  unfolding add
  add-IsMoney m n h = ground arith

  -- Amounts in different currencies are never added.
  pub add_mixed :
      (m n : Money N)
      → text_eq m.currency n.currency ≡ false
      → add m n ≡ err (error "Cannot add money with different currencies" [])
  unfolding add
  add_mixed m n h = ground arith

  module _ (laws : IsOrdered N) where
    -- In one currency two valid amounts always have a sum, in that currency.
    pub add-ok :
        (m n : Money N)
        → IsMoney m
        → IsMoney n
        → n.currency ≡ m.currency
        → add m n ≡ ok (record { amount = r.add m.amount n.amount; currency = m.currency })
    unfolding add
    add-ok m n hm hn e =
        ground (arith, laws.add_nonneg m.amount n.amount, text_eq_iff m.currency n.currency)

    pub multiply-ok :
        (m : Money N) (f : N)
        → IsMoney m
        → r.lt f nought ≡ false
        → multiply m f ≡ ok (record { amount = r.mul m.amount f; currency = m.currency })
    unfolding multiply
    multiply-ok m f hm hf = ground (arith, laws.mul_nonneg m.amount f)
