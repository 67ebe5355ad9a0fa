-- ===== src/Invoicing/Invoice/Settlement.antt =====
-- What `markAsPaid` does to an invoice with nothing paid, and to one with a sum paid already.
use finvoice.Prelude.{subst, ◌≡◌, true, none, some, arith}
use finvoice.Text.{Text}
use finvoice.Outcome.{ok}
use finvoice.Runtime.{IsOrdered, Runtime, Clock, nought}
use finvoice.Invoicing.Money.{
  Money, equals, add, is_positive, new_money-IsMoney, add-currency, add-amount,
}
use finvoice.Invoicing.Invoice.{sent, paid, overpaid, Invoice, total_of}
use finvoice.Invoicing.Invoice.Diagram.{mark_as_paid_ok}
use finvoice.Invoicing.Invoice.Payments.{current_paid, record_payment, mark_as_paid}
use finvoice.Invoicing.Invoice.Laws.{PaidBefore, record_payment-Recorded}

module _ {N : Type 0} ⦃r : Runtime N⦄ where
  -- The first payment is the sum that is recorded.
  first_sum :
      (laws : IsOrdered N) (c : Text) (amount : Money N) {current sum : Money N}
      → current_paid none c ≡ ok current
      → add current amount ≡ ok sum
      → is_positive amount ≡ true
      → sum ≡ amount
  unfolding current_paid is_positive
  first_sum laws c amount {current} {sum} e f p = ground (
    arith,
    new_money-IsMoney nought c {m = current},
    add-currency current amount f,
    add-amount current amount f,
    laws.add_nought amount.amount,
  )

  -- On a sent invoice with nothing paid, `markAsPaid` returns only with the invoice paid, and the
  -- sum recorded equals the total.
  pub mark_as_paid_sent :
      (laws : IsOrdered N) (amount : Money N) (clock : Clock) (s : Invoice N)
      → s.status ≡ sent
      → s.paid_amount ≡ none
      → (mark_as_paid amount clock s).0 ≡ ok tt
      → (total : Money N) × (total_of s.currency s.items ≡ ok total)
        × (equals amount total ≡ true)
        × ((mark_as_paid amount clock s).1
            ≡ record s { status = paid; paid_at = some (clock 0); paid_amount = some amount })
  unfolding current_paid
  mark_as_paid_sent laws amount clock s h u o =
      let (total, e, same_sum, same) = mark_as_paid_ok amount clock s o in
      let paid_now : (record_payment amount clock s).0 ≡ ok tt = rw same at o in
      let done = record_payment-Recorded amount clock s paid_now in
      let same_amount : done.sum ≡ amount =
        first_sum laws s.currency amount
          (subst (λ o. PaidBefore o s.currency done.current) u done.is_current) done.is_sum
          done.positive in
      let same_total : done.total ≡ total = ground (arith, e, done.is_total) in
      (total, e, same_sum, ground (arith, same, done.result, same_amount, same_total, same_sum))

  -- On an invoice with a sum paid already, `markAsPaid` returns only for the whole total once more,
  -- and leaves the invoice overpaid, if the sum with the amount exceeds the total as numbers do.
  pub mark_as_paid_partial :
      (amount p total : Money N) (clock : Clock) (s : Invoice N)
      → s.paid_amount ≡ some p
      → total_of s.currency s.items ≡ ok total
      → r.lt total.amount (r.add p.amount amount.amount) ≡ true
      → IsOrdered N
      → (mark_as_paid amount clock s).0 ≡ ok tt
      → (equals amount total ≡ true) × ((mark_as_paid amount clock s).1.status ≡ overpaid)
  unfolding current_paid equals
  mark_as_paid_partial amount p total clock s u t more laws o =
      let (total', e, same_sum, same) = mark_as_paid_ok amount clock s o in
      let paid_now : (record_payment amount clock s).0 ≡ ok tt = rw same at o in
      let done = record_payment-Recorded amount clock s paid_now in
      let current : done.current ≡ p =
        subst (λ o. PaidBefore o s.currency done.current) u done.is_current in
      let sum : done.sum.amount ≡ r.add p.amount amount.amount =
        ground (arith, current, add-amount done.current amount done.is_sum) in
      let same_total : done.total ≡ total = ground (arith, t, done.is_total) in
      let whole : total' ≡ total = ground (arith, t, e) in
      (
        ground (arith, whole, same_sum),
        ground (
          arith,
          same,
          done.result,
          sum,
          same_total,
          laws.lt_asymm total.amount (r.add p.amount amount.amount),
          laws.lt-eq total.amount done.sum.amount total.amount,
          laws.lt-eq_left done.sum.amount total.amount total.amount,
          laws.lt-eq (r.add p.amount amount.amount) total.amount total.amount,
          laws.lt_irrefl total.amount,
        ),
      )
