-- ===== src/Gateway/Selection.antt =====
-- `selectProvider` and the scores of shared/infrastructure/payment/payment-gateway.service.ts.
-- Decimal literals are quotients, which doubles round to the same number.
use finvoice.Prelude.{Bool, false, ◌&&◌, none, some, List, [], ◌∷◌, ◌++◌, any, ℕ, if◌then◌else◌}
use finvoice.Text.{Text, text, text_eq}
use finvoice.Dict.{Dict, lookup}
use finvoice.Outcome.{Result, ok, err, bad_request}
use finvoice.Runtime.{Runtime, nought, le}
use finvoice.Gateway.{
  MethodType, card, bank_account, digital_wallet, crypto, bnpl, is_type, PaymentFeature, webhooks,
  tokenization, recurring_payments, mobile_payments, cryptocurrency, buy_now, PaymentRequest,
  PaymentProvider,
}

abbrev pub stripe : Text
stripe = text "stripe"

abbrev pub razorpay : Text
razorpay = text "razorpay"

abbrev pub paypal : Text
paypal = text "paypal"

abbrev pub square : Text
square = text "square"

abbrev pub adyen : Text
adyen = text "adyen"

-- `currencySupport`
unfoldable pub currency_support : Dict (List Text)
currency_support =
    (
      stripe,
      text "USD" ∷ text "EUR" ∷ text "GBP" ∷ text "CAD" ∷ text "AUD" ∷ text "JPY" ∷ text "INR" ∷ [],
    )
    ∷ (razorpay, text "INR" ∷ text "USD" ∷ [])
    ∷ (paypal, text "USD" ∷ text "EUR" ∷ text "GBP" ∷ text "CAD" ∷ text "AUD" ∷ text "JPY" ∷ [])
    ∷ (square, text "USD" ∷ text "CAD" ∷ text "AUD" ∷ text "GBP" ∷ text "JPY" ∷ [])
    ∷ (
      adyen,
      text "USD"
          ∷ text "EUR"
          ∷ text "GBP"
          ∷ text "CAD"
          ∷ text "AUD"
          ∷ text "JPY"
          ∷ text "INR"
          ∷ text "SGD"
          ∷ [],
    )
    ∷ []

unfoldable pub provider_supports_currency : Text → Text → Bool
provider_supports_currency name currency = elim (lookup name currency_support) [
  | none ↦ false
  | some cs ↦ any (text_eq currency) cs
]

-- `methodSupport`
unfoldable pub method_support : Dict (List MethodType)
method_support =
    (stripe, card ∷ bank_account ∷ digital_wallet ∷ [])
    ∷ (razorpay, card ∷ bank_account ∷ digital_wallet ∷ [])
    ∷ (paypal, digital_wallet ∷ bank_account ∷ [])
    ∷ (square, card ∷ digital_wallet ∷ [])
    ∷ (adyen, card ∷ bank_account ∷ digital_wallet ∷ bnpl ∷ [])
    ∷ []

unfoldable pub provider_supports_payment_method : Text → MethodType → Bool
provider_supports_payment_method name method = elim (lookup name method_support) [
  | none ↦ false
  | some ms ↦ any (is_type method) ms
]

unfoldable pub get_required_features : {N : Type 0} → PaymentRequest N → List PaymentFeature
get_required_features request =
    webhooks ∷ []
    ++ (if request.setup_future_usage then tokenization ∷ recurring_payments ∷ [] else [])
    ++ (if is_type request.method digital_wallet then mobile_payments ∷ [] else [])
    ++ (if is_type request.method crypto then cryptocurrency ∷ [] else [])
    ++ (if is_type request.method bnpl then buy_now ∷ [] else [])

-- An entry of `providerOptimization`, the multiplier in tenths.
pub record Optimization : Type 0 where
  pub min : ℕ
  pub max : ℕ
  pub multiplier : ℕ

unfoldable pub provider_optimization : Dict Optimization
provider_optimization =
    (stripe, record { min = 50; max = 999999; multiplier = 10 })
    ∷ (razorpay, record { min = 100; max = 999999; multiplier = 11 })
    ∷ (paypal, record { min = 1; max = 10000; multiplier = 9 })
    ∷ (square, record { min = 1; max = 50000; multiplier = 10 })
    ∷ (adyen, record { min = 1000; max = 999999; multiplier = 12 })
    ∷ []

-- `performanceMetrics`
unfoldable pub performance_metrics : Dict ℕ
performance_metrics = (stripe, 95) ∷ (razorpay, 92) ∷ (paypal, 88) ∷ (square, 90) ∷ (adyen, 94) ∷ []

-- An entry of `feeStructures`, the percentage in tenths.
pub record Fees : Type 0 where
  pub fixed : ℕ
  pub percentage : ℕ

unfoldable pub fee_structures : Dict Fees
fee_structures =
    (stripe, record { fixed = 30; percentage = 29 })
    ∷ (razorpay, record { fixed = 0; percentage = 20 })
    ∷ (paypal, record { fixed = 30; percentage = 34 })
    ∷ (square, record { fixed = 10; percentage = 26 })
    ∷ (adyen, record { fixed = 11; percentage = 22 })
    ∷ []

module _ {N : Type 0} ⦃r : Runtime N⦄ where
  open r use {number, lt, add, sub, mul, div}

  -- `n / 10`, for a decimal literal
  abbrev tenths : ℕ → N
  tenths n = div (number n) (number 10)

  -- `Math.max(0, x)`, NaN if `x` is
  unfoldable pub max_nought : N → N
  max_nought x = if lt x nought then nought else x

  unfoldable pub get_amount_score : Text → N → N
  get_amount_score name amount = elim (lookup name provider_optimization) [
    | none ↦ nought
    | some c ↦
        if le (number c.min) amount && le amount (number c.max)
        then mul (number 20) (tenths c.multiplier)
        else if lt amount (number c.min)
        then number 5
        else number 10
  ]

  -- The loop adds ten for each feature.
  unfoldable pub get_feature_score : (PaymentFeature → Bool) → N → List PaymentFeature → N
  get_feature_score supports score [] = score
  get_feature_score supports score (f ∷ features) =
      get_feature_score supports (if supports f then add score (number 10) else score) features

  unfoldable pub get_performance_score : Text → N
  get_performance_score name =
      div (elim (lookup name performance_metrics) [ none ↦ number 85 | some m ↦ number m ])
        (number 10)

  unfoldable pub get_cost_score : Text → N → N
  get_cost_score name amount = elim (lookup name fee_structures) [
    | none ↦ nought
    | some fees ↦
        let total_fee =
          add (number fees.fixed) (div (mul amount (tenths fees.percentage)) (number 100)) in
        let fee_percentage = mul (div total_fee amount) (number 100) in
        max_nought (sub (number 30) (mul fee_percentage (number 10)))
  ]

  -- The body of the loop over the providers, for one that supports the currency.
  unfoldable pub score_of : {P W : Type 0} → PaymentRequest N → Text → PaymentProvider N P W → N
  score_of request name provider =
      let supported = add nought (number 100) in
      let with_method =
        if provider_supports_payment_method name request.method
        then add supported (number 50)
        else supported in
      let with_amount = add with_method (get_amount_score name request.amount) in
      let with_features =
        add with_amount
          (get_feature_score provider.supports nought (get_required_features request)) in
      add (add with_features (get_performance_score name)) (get_cost_score name request.amount)

  -- `providerScores`: the providers that support the currency, with their scores.
  unfoldable pub provider_scores :
      {P W : Type 0} → PaymentRequest N → Dict (PaymentProvider N P W) → Dict N
  provider_scores request [] = []
  provider_scores request ((name, provider) ∷ providers) =
      let rest = provider_scores request providers in
      if provider_supports_currency name request.currency
      then (name, score_of request name provider) ∷ rest
      else rest

  -- `sort(([, a], [, b]) => b - a)`, which is stable. Where a score is NaN the order depends on the
  -- implementation; this one inserts each entry in turn.
  unfoldable pub comes_before : Text × N → Text × N → Bool
  comes_before a b = lt (sub b.1 a.1) nought

  unfoldable pub place : Text × N → Dict N → Dict N
  place e [] = e ∷ []
  place e (f ∷ fs) = let rest = place e fs in if comes_before f e then f ∷ rest else e ∷ f ∷ fs

  unfoldable pub sort_scores : Dict N → Dict N
  sort_scores [] = []
  sort_scores (e ∷ es) = place e (sort_scores es)

  unfoldable pub select_provider :
      {P W : Type 0} → Dict (PaymentProvider N P W) → PaymentRequest N → Result Text
  select_provider providers request = elim (sort_scores (provider_scores request providers)) [
    | [] ↦ err (bad_request "No suitable payment provider found" [])
    | best ∷ _ ↦ ok best.0
  ]
