-- ===== src/Gateway/Refunds.antt =====
-- `refundPayment` of shared/infrastructure/payment/payment-gateway.service.ts.
use finvoice.Prelude.{Bool, false, not, ◌&&◌, Option, none, some, [], if◌then◌else◌}
use finvoice.Text.{Text}
use finvoice.Outcome.{◌>>=◌, ◌>>◌, Result, ok, err, bad_request, Method, call}
use finvoice.Runtime.{Runtime, nought, truthy, or_else}
use finvoice.Gateway.{
  PaymentResponse, RefundResponse, PaymentProvider, Gateway, of_refund, is_succeeded,
}
use finvoice.Gateway.Processing.{get_provider_for_payment, caught}

module _ {N : Type 0} ⦃r : Runtime N⦄ where
  open r use {lt, sub}

  -- `amount && amount > limit`
  unfoldable pub exceeds : Option N → N → Bool
  exceeds none limit = false
  exceeds (some amount) limit = truthy amount && lt limit amount

  unfoldable pub available_amount : PaymentResponse N → N
  available_amount payment = sub payment.amount (or_else payment.refunded_amount nought)

  unfoldable pub validate_refund_eligibility : PaymentResponse N → Option N → Result (Unit {0})
  validate_refund_eligibility payment amount =
      if not (is_succeeded payment.status)
      then err (bad_request "Payment must be succeeded to refund" [])
      else if exceeds amount payment.amount
      then err (bad_request "Refund amount cannot exceed payment amount" [])
      else if exceeds amount (available_amount payment)
      then err (bad_request "Refund amount exceeds available amount" [])
      else ok tt

module _ {N P W : Type 0} ⦃r : Runtime N⦄ (g : Gateway N P W) where
  -- The body of the `try`.
  unfoldable pub refund_with :
      PaymentProvider N P W → Text → Option N → Option Text → Method W (RefundResponse N)
  refund_with provider payment_id amount reason = do
    payment ← provider.get_payment payment_id
    call (validate_refund_eligibility payment amount)
    response ← provider.refund_payment payment_id amount reason
    g.publish (of_refund provider.name response)
    call (ok response)

  unfoldable pub refund_payment : Text → Option N → Option Text → Method W (RefundResponse N)
  refund_payment payment_id amount reason = do
    provider ← get_provider_for_payment g payment_id
    caught "Payment refund failed: " (refund_with provider payment_id amount reason)
