-- ===== src/Invoicing/Invoice/Laws.antt =====
-- What `recordPayment` does: it throws and changes nothing, or it records the payment.
use finvoice.Prelude.{Option, none, sym, ◌∙◌, ◌≡◌, true, ◌⊎◌, some, inl, inr, arith, if◌then◌else◌}
use finvoice.Text.{Text}
use finvoice.Text.Laws.{text_eq_iff}
use finvoice.Outcome.{Exception, ok, err, Result-cases}
use finvoice.Runtime.{Runtime, Clock, nought}
use finvoice.Invoicing.Money.{
  new_money, Money, add, is_positive, equals, add-currency, is_less_than-ok,
}
use finvoice.Invoicing.Invoice.{
  InvoiceStatus, sent, partially_paid, paid, overpaid, Invoice, total_of,
}
use finvoice.Invoicing.Invoice.Items.{total_of-currency}
use finvoice.Invoicing.Invoice.Payments.{current_paid, settle, record_payment}

module _ {N : Type 0} ⦃r : Runtime N⦄ where
  -- The status that a paid sum gives.
  abbrev pub settled_status : (paid total : Money N) → InvoiceStatus
  settled_status m total =
      if equals m total
      then paid
      else if r.lt m.amount total.amount
      then partially_paid
      else overpaid

  -- What was paid before: the recorded sum, or a new amount of 0 where nothing was.
  abbrev pub PaidBefore : Option (Money N) → Text → Money N → Type 0
  PaidBefore none currency current = new_money nought currency ≡ ok current
  PaidBefore (some before) currency current = current ≡ before

  current_paid-PaidBefore :
      (o : Option (Money N)) (currency : Text) {current : Money N}
      → current_paid o currency ≡ ok current
      → PaidBefore o currency current
  unfolding current_paid
  current_paid-PaidBefore none currency h = h
  current_paid-PaidBefore (some before) currency h = cc

  -- What `recordPayment` did where it returned: the sum that was paid before and the payment make
  -- the new sum, and the status comes from its comparison with the total.
  pub record Recorded (amount : Money N) (clock : Clock) (s s' : Invoice N) : Type 0 where
    pub current : Money N
    pub sum : Money N
    pub total : Money N
    pub is_current : PaidBefore s.paid_amount s.currency current
    pub is_sum : add current amount ≡ ok sum
    pub is_total : total_of s.currency s.items ≡ ok total
    pub common : (sum.currency ≡ s.currency) × (total.currency ≡ s.currency)
    pub accepts : (s.status ≡ sent) ⊎ (s.status ≡ partially_paid)
    pub positive : is_positive amount ≡ true
    pub result : s' ≡ record s {
      paid_amount = some sum;
      status = settled_status sum total;
      paid_at = if equals sum total then some (clock 0) else s.paid_at;
    }

  -- Where the currencies agree, the comparison in `recordPayment` does not throw.
  settle_lem :
      (m total : Money N) (clock : Clock) (s : Invoice N)
      → m.currency ≡ total.currency
      → settle m total clock s ≡ (
        ok tt,
        record s {
          status = settled_status m total;
          paid_at = if equals m total then some (clock 0) else s.paid_at;
        },
      )
  unfolding settle
  settle_lem m total clock s h = ground (arith, is_less_than-ok m total h)

  pub record_payment-Recorded :
      (amount : Money N) (clock : Clock) (s : Invoice N)
      → (record_payment amount clock s).0 ≡ ok tt
      → Recorded amount clock s (record_payment amount clock s).1
  unfolding record_payment
  record_payment-Recorded amount clock s h =
      elim (Result-cases (current_paid s.paid_amount s.currency)) [
        | inr (x, e) ↦ absurd (ground arith)
        | inl (current, e) ↦ elim (Result-cases (add current amount)) [
          | inr (x, e') ↦ absurd (ground arith)
          | inl (sum, e') ↦ elim (Result-cases (total_of s.currency s.items)) [
            | inr (x, e'') ↦ absurd (ground arith)
            | inl (total, e'') ↦
                let named : amount.currency ≡ s.currency =
                  ground (arith, text_eq_iff amount.currency s.currency) in
                let (a, b, _) = add-currency current amount e' in
                let c = total_of-currency s.currency s.items e'' in
                record {
                  current = current;
                  sum = sum;
                  total = total;
                  is_current = current_paid-PaidBefore s.paid_amount s.currency e;
                  is_sum = e';
                  is_total = e'';
                  common = (a ∙ b ∙ named, c);
                  accepts = ground arith;
                  positive = ground arith;
                  result = ground (
                    arith,
                    settle_lem sum total clock (record s { paid_amount = some sum })
                        (a ∙ b ∙ named ∙ sym c),
                  );
                }
          ]
        ]
      ]

  pub record_payment_atomic :
      (amount : Money N) (clock : Clock) (s : Invoice N) {e : Exception}
      → (record_payment amount clock s).0 ≡ err e
      → (record_payment amount clock s).1 ≡ s
  unfolding record_payment
  record_payment_atomic amount clock s h =
      elim (Result-cases (current_paid s.paid_amount s.currency)) [
        | inr (x, e) ↦ ground arith
        | inl (current, e) ↦ elim (Result-cases (add current amount)) [
          | inr (x, e') ↦ ground arith
          | inl (sum, e') ↦ elim (Result-cases (total_of s.currency s.items)) [
            | inr (x, e'') ↦ ground arith
            | inl (total, e'') ↦ ground (
              arith,
              text_eq_iff amount.currency s.currency,
              add-currency current amount e',
              total_of-currency s.currency s.items e'',
              settle_lem sum total clock (record s { paid_amount = some sum }),
            )
          ]
        ]
      ]

  -- `recordPayment` throws before it writes anything, or records the payment: the invoice is paid
  -- where the new sum equals the total, partially paid where it is below, and overpaid otherwise.
  pub record_payment_lem :
      (amount : Money N) (clock : Clock) (s : Invoice N)
      → ((e : Exception) × (record_payment amount clock s ≡ (err e, s)))
        ⊎ ((s' : Invoice N) × (record_payment amount clock s ≡ (ok tt, s'))
            × Recorded amount clock s s')
  record_payment_lem amount clock s = elim (Result-cases (record_payment amount clock s).0) [
    | inl (tt, h) ↦ inr (
      (record_payment amount clock s).1,
      ground (arith, h),
      record_payment-Recorded amount clock s h,
    )
    | inr (e, h) ↦ inl (e, ground (arith, h, record_payment_atomic amount clock s h))
  ]
