-- ===== src/Tests/Gateway.antt =====
-- The payment gateway at concrete inputs. The world counts the calls of the providers and of the bus.
use finvoice.Prelude.{
  ◌≡◌, refl, true, false, none, some, [], ◌∷◌, map, ℕ, if◌then◌else◌, ◌+◌, ◌==◌, inl,
}
use finvoice.Text.{Text, text, text_eq}
use finvoice.Dict.{lookup}
use finvoice.Outcome.{ok, err, error, bad_request_for, Method, is_ok}
use finvoice.Runtime.Milli.{Milli, units, milli_runtime, Milli-IsOrdered}
use finvoice.Gateway.{
  card, PaymentRequest, PaymentStatus, PaymentResponse, RefundResponse, PaymentProvider, Gateway,
}
use finvoice.Gateway.Selection.{
  stripe, paypal, currency_support, provider_supports_currency, method_support,
  provider_supports_payment_method, get_required_features, provider_optimization,
  performance_metrics, fee_structures, max_nought, get_amount_score, get_feature_score,
  get_performance_score, get_cost_score, score_of, provider_scores, comes_before, place,
  sort_scores, select_provider,
}
use finvoice.Gateway.Processing.{charge, charge_by, process_payment, first_provider}
use finvoice.Gateway.Best.{IsScored, AllScored, select_provider-best}
use finvoice.Gateway.Attempts.{
  first_success, candidates, process_payment-first_success, process_payment_live,
}
use finvoice.Gateway.Refunds.{
  exceeds, available_amount, validate_refund_eligibility, refund_with, refund_payment,
}
use finvoice.Gateway.Eligibility.{Refunded, refund_payment-Refunded}
use finvoice.Gateway.Webhooks.{
  handled_types, is_handled, publish_all, process_webhook_event, process_webhook_event-publish_all,
}

abbrev payment : PaymentResponse Milli
payment = record {
  id = text "p1";
  status = PaymentStatus.succeeded;
  amount = units 100;
  currency = text "USD";
  refunded_amount = none;
}

abbrev refund : RefundResponse Milli
refund = record { id = text "r1"; payment_id = text "p1"; amount = units 20; currency = text "USD" }

abbrev returns : {A : Type 0} → A → Method ℕ A
returns a w = (ok a, w + 1)

abbrev provider : Text → PaymentProvider Milli Text ℕ
provider name = record {
  name = name;
  initialize = returns tt;
  create_payment = λ request. returns payment;
  capture_payment = λ id amount. returns payment;
  refund_payment = λ id amount reason. returns refund;
  get_payment = λ id. returns payment;
  verify_webhook = λ payload signature. text_eq payload signature;
  webhook_events = λ payload.
      record { type = text "payment.succeeded"; payment_id = some (text "p1") }
      ∷ record { type = text "payout.paid"; payment_id = none }
      ∷ [];
  supports = λ feature. true;
}

-- The bus loses what it is given while the count is 1.
abbrev gateway : Gateway Milli Text ℕ
gateway = record {
  providers = (stripe, provider stripe) ∷ (paypal, provider paypal) ∷ [];
  fallback_providers = paypal ∷ [];
  publish = λ event w. if w == 1 then (err (error "lost" []), w + 1) else (ok tt, w + 1);
}

abbrev quiet : Gateway Milli Text ℕ
quiet = record gateway { publish = λ event w. (ok tt, w + 1) }

abbrev request : PaymentRequest Milli
request = record {
  amount = units 100;
  currency = text "USD";
  method = card;
  setup_future_usage = false;
}

chosen : select_provider gateway.providers request ≡ ok stripe
unfolding currency_support provider_supports_currency method_support
    provider_supports_payment_method get_required_features provider_optimization performance_metrics
    fee_structures max_nought get_amount_score get_feature_score get_performance_score
    get_cost_score score_of provider_scores comes_before place sort_scores select_provider lookup
chosen = refl

select_provider-best_example :
    (score : Milli) × IsScored request gateway.providers (stripe, score)
    × AllScored request gateway.providers
        (λ other. milli_runtime.lt score other ≡ false)
        gateway.providers
unfolding currency_support provider_supports_currency method_support
    provider_supports_payment_method get_required_features provider_optimization performance_metrics
    fee_structures max_nought get_amount_score get_feature_score get_performance_score
    get_cost_score score_of provider_scores lookup
select_provider-best_example =
    select_provider-best request gateway.providers Milli-IsOrdered (refl, (refl, tt))
      (λ _. refl, (λ _. refl, tt)) chosen

process_payment-first_success_example :
    process_payment gateway request 5 ≡ elim (select_provider gateway.providers request) [
      | err e ↦ (err e, 5)
      | ok selected ↦
          first_success
            (bad_request_for "Payment processing failed: ")
            (map (λ name. charge_by gateway name request) (candidates gateway selected))
            (error "" [])
            5
    ]
process_payment-first_success_example = process_payment-first_success gateway request 5

process_payment_live_example : is_ok (process_payment quiet request 1).0 ≡ true
unfolding charge_by charge lookup
process_payment_live_example = process_payment_live quiet request stripe 1 chosen (inl (λ w. refl))

refunded_once : (refund_payment gateway (text "p1") (some (units 20)) none 5).0 ≡ ok refund
unfolding refund_payment refund_with first_provider validate_refund_eligibility exceeds
    available_amount
refunded_once = refl

refund_payment-Refunded_example :
    Refunded gateway
      (text "p1")
      (some (units 20))
      none
      5
      (refund_payment gateway (text "p1") (some (units 20)) none 5).1
      refund
refund_payment-Refunded_example =
    refund_payment-Refunded gateway (text "p1") (some (units 20)) none 5 refunded_once

webhook_run : process_webhook_event gateway stripe (text "x") (text "x") 5 ≡ (ok tt, 6)
unfolding handled_types is_handled publish_all lookup
webhook_run = process_webhook_event-publish_all gateway stripe (text "x") (text "x") 5
