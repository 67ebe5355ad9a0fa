-- ===== src/Gateway/Eligibility.antt =====
-- Which refunds of shared/infrastructure/payment/payment-gateway.service.ts reach the provider.
use finvoice.Prelude.{◌⊎◌, refl, none, ◌∙◌, ◌≡◌, true, false, Option, some, arith, inl, inr, ◌↔◌}
use finvoice.Text.{Text}
use finvoice.Outcome.{Exception, ok, err, bad_request_for, is_ok, Result-cases}
use finvoice.Runtime.{Runtime, IsOrdered, nought, truthy, or_else}
use finvoice.Gateway.{
  of_refund, PaymentStatus, PaymentResponse, RefundResponse, PaymentProvider, Gateway,
}
use finvoice.Gateway.Processing.{get_provider_for_payment}
use finvoice.Gateway.Refunds.{
  exceeds, available_amount, validate_refund_eligibility, refund_with, refund_payment,
}

module _ {N : Type 0} ⦃r : Runtime N⦄ where
  open r use {lt, sub}

  -- No amount is asked, or 0, NaN or one that is not above the limit.
  abbrev pub IsAtMost : Option N → N → Type 0
  IsAtMost none limit = Unit
  IsAtMost (some amount) limit = (truthy amount ≡ false) ⊎ (lt limit amount ≡ false)

  exceeds-IsAtMost : (o : Option N) (limit : N) → (exceeds o limit ≡ false) ↔ IsAtMost o limit
  unfolding exceeds
  exceeds-IsAtMost none limit = (λ _. tt, λ _. refl)
  exceeds-IsAtMost (some amount) limit = ground arith

  -- What the checks leave: the payment has succeeded, and no amount is asked that exceeds it, or what
  -- earlier refunds left of it.
  abbrev pub IsEligible : PaymentResponse N → Option N → Type 0
  IsEligible payment amount =
      (payment.status ≡ PaymentStatus.succeeded)
      × IsAtMost amount payment.amount
      × IsAtMost amount (sub payment.amount (or_else payment.refunded_amount nought))

  pub validate-IsEligible :
      (payment : PaymentResponse N) (amount : Option N)
      → (is_ok (validate_refund_eligibility payment amount) ≡ true) ↔ IsEligible payment amount
  unfolding validate_refund_eligibility available_amount
  validate-IsEligible payment amount = ground (
    arith,
    exceeds-IsAtMost amount payment.amount,
    exceeds-IsAtMost amount (sub payment.amount (or_else payment.refunded_amount nought)),
  )

  -- The checks pass every refund of a negative amount, of a payment that has succeeded and whose
  -- amount, and what earlier refunds left of it, are not negative.
  pub validate_refund_eligibility_negative :
      (o : IsOrdered N) (payment : PaymentResponse N) (amount : N)
      → payment.status ≡ PaymentStatus.succeeded
      → lt payment.amount nought ≡ false
      → lt (available_amount payment) nought ≡ false
      → lt amount nought ≡ true
      → validate_refund_eligibility payment (some amount) ≡ ok tt
  unfolding validate_refund_eligibility exceeds
  validate_refund_eligibility_negative o payment amount paid whole left negative = ground (
    arith,
    paid,
    o.lt_trans payment.amount amount nought,
    o.lt_trans (available_amount payment) amount nought,
  )

module _ {N P W : Type 0} ⦃r : Runtime N⦄ (g : Gateway N P W) where
  -- The payment that a refund is checked against.
  pub record Refunded (payment_id : Text) (amount : Option N) (reason : Option Text) (w w' : W)
      (response : RefundResponse N) : Type 0 where
    pub provider : PaymentProvider N P W
    pub payment : PaymentResponse N
    pub found : (get_provider_for_payment g payment_id w).0 ≡ ok provider
    pub fetched :
        (provider.get_payment payment_id (get_provider_for_payment g payment_id w).1).0 ≡ ok payment
    pub eligible : IsEligible payment amount
    pub refunded :
        (provider.refund_payment payment_id amount reason
          (provider.get_payment payment_id (get_provider_for_payment g payment_id w).1).1).0
        ≡ ok response

  refund_with-ok :
      (provider : PaymentProvider N P W) (payment_id : Text) (amount : Option N)
      (reason : Option Text) (w : W) (payment : PaymentResponse N) {response : RefundResponse N}
      {u : Unit {0}}
      → (provider.get_payment payment_id w).0 ≡ ok payment
      → validate_refund_eligibility payment amount ≡ ok u
      → (refund_with g provider payment_id amount reason w).0 ≡ ok response
      → (provider.refund_payment payment_id amount reason (provider.get_payment payment_id w).1).0
        ≡ ok response
  unfolding refund_with
  refund_with-ok provider payment_id amount reason w payment {response} good accepted h =
      let w2 = (provider.get_payment payment_id w).1 in
      elim (Result-cases (provider.refund_payment payment_id amount reason w2).0) [
        | inr (e, bad) ↦ absurd (ground (arith, good, accepted, bad, h))
        | inl (answer, paid) ↦
            elim (Result-cases
              (g.publish (of_refund provider.name answer)
                (provider.refund_payment payment_id amount reason w2).1).0) [
                  | inr (e, lost) ↦ absurd (ground (arith, good, accepted, paid, lost, h))
                  | inl (_, told) ↦ paid ∙ ground (arith, good, accepted, paid, told, h)
                ]
      ]

  -- A refund returns only if the provider that has the payment made it, for a payment that was
  -- eligible when it was fetched.
  pub refund_payment-Refunded :
      (payment_id : Text) (amount : Option N) (reason : Option Text) (w : W)
      {response : RefundResponse N}
      → (refund_payment g payment_id amount reason w).0 ≡ ok response
      → Refunded payment_id amount reason w (refund_payment g payment_id amount reason w).1 response
  unfolding refund_payment refund_with
  refund_payment-Refunded payment_id amount reason w {response} h =
      elim (Result-cases (get_provider_for_payment g payment_id w).0) [
        | inr (e, missing) ↦ absurd (ground (arith, missing, h))
        | inl (provider, found) ↦
            let w1 = (get_provider_for_payment g payment_id w).1 in
            elim (Result-cases (provider.get_payment payment_id w1).0) [
              | inr (e, bad) ↦ absurd (ground (arith, found, bad, h))
              | inl (payment, good) ↦
                  elim (Result-cases (validate_refund_eligibility payment amount)) [
                    | inr (e, refused) ↦ absurd (ground (arith, found, good, refused, h))
                    | inl (_, accepted) ↦ record {
                      provider = provider;
                      payment = payment;
                      found = found;
                      fetched = good;
                      eligible = (validate-IsEligible payment amount).0 (ground (arith, accepted));
                      refunded =
                          refund_with-ok provider payment_id amount reason w1 payment good accepted
                            (ground (arith, found, h));
                    }
                  ]
            ]
      ]

  -- Where the checks refuse it, nothing is refunded or published, and the caller is told why.
  pub refund_payment_refused :
      (payment_id : Text) (amount : Option N) (reason : Option Text)
      (provider : PaymentProvider N P W) (payment : PaymentResponse N) (e : Exception) (w w1 w2 : W)
      → get_provider_for_payment g payment_id w ≡ (ok provider, w1)
      → provider.get_payment payment_id w1 ≡ (ok payment, w2)
      → validate_refund_eligibility payment amount ≡ err e
      → refund_payment g payment_id amount reason w
        ≡ (err (bad_request_for "Payment refund failed: " e), w2)
  unfolding refund_payment refund_with
  refund_payment_refused payment_id amount reason provider payment e w w1 w2 found fetched refused =
      ground (arith, found, fetched, refused)
