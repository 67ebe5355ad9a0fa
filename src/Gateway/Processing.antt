-- ===== src/Gateway/Processing.antt =====
-- `processPayment`, `capturePayment` and `getPayment` of
-- shared/infrastructure/payment/payment-gateway.service.ts. The records of errors and fallbacks only log.
use finvoice.Prelude.{true, false, Option, none, some, List, [], ◌∷◌, String}
use finvoice.Text.{Text, text, text_eq}
use finvoice.Dict.{Dict, lookup}
use finvoice.Outcome.{
  Exception, ok, err, error, bad_request, bad_request_for, Method, ◌>>=◌, ◌>>◌, call,
}
use finvoice.Runtime.{Runtime}
use finvoice.Gateway.{PaymentRequest, PaymentResponse, PaymentProvider, Gateway, of_payment}
use finvoice.Gateway.Selection.{select_provider}

-- `catch (error) { throw new BadRequestException(… error.message) }`
abbrev pub caught : {W A : Type 0} → String → Method W A → Method W A
caught message m w =
    let (result, w') = m w in
    (elim result [ ok a ↦ ok a | err e ↦ err (bad_request_for message e) ], w')

module _ {N P W : Type 0} ⦃r : Runtime N⦄ (g : Gateway N P W) where
  -- `createPayment`, then `recordPaymentEvent`
  unfoldable pub charge :
      Text → PaymentRequest N → PaymentProvider N P W → Method W (PaymentResponse N)
  charge name request provider = do
    response ← provider.create_payment request
    g.publish (of_payment (text "payment.created") name response)
    call (ok response)

  -- `this.providers.get(name)!`, which throws where it is undefined
  unfoldable pub charge_by : Text → PaymentRequest N → Method W (PaymentResponse N)
  charge_by name request = elim (lookup name g.providers) [
    | none ↦ call (err (error "Cannot read properties of undefined (reading 'createPayment')" []))
    | some provider ↦ charge name request provider
  ]

  -- The loop over the fallbacks, with the last error, and the throw behind it. The message of an
  -- error without one is `All providers unavailable`.
  unfoldable pub try_fallbacks :
      (selected : Text)
      → PaymentRequest N
      → List Text
      → (last_error : Exception) → Method W (PaymentResponse N)
  try_fallbacks selected request [] last_error w =
      (err (bad_request_for "Payment processing failed: " last_error), w)
  try_fallbacks selected request (name ∷ names) last_error w = elim (text_eq name selected) [
    | true ↦ try_fallbacks selected request names last_error w
    | false ↦ elim (lookup name g.providers) [
      | none ↦ try_fallbacks selected request names last_error w
      | some provider ↦
          let (result, w') = charge name request provider w in
          elim result [
            | ok response ↦ (ok response, w')
            | err e ↦ try_fallbacks selected request names e w'
          ]
    ]
  ]

  unfoldable pub process_payment : PaymentRequest N → Method W (PaymentResponse N)
  process_payment request w = elim (select_provider g.providers request) [
    | err e ↦ (err e, w)
    | ok selected ↦
        let (result, w') = charge_by selected request w in
        elim result [
          | ok response ↦ (ok response, w')
          | err e ↦ try_fallbacks selected request g.fallback_providers e w'
        ]
  ]

  -- The loop of `getProviderForPayment`.
  unfoldable pub first_provider :
      Text → Dict (PaymentProvider N P W) → Method W (PaymentProvider N P W)
  first_provider payment_id [] w = (err (bad_request "Payment not found: {}" (payment_id ∷ [])), w)
  first_provider payment_id ((_, provider) ∷ providers) w =
      let (result, w') = provider.get_payment payment_id w in
      elim result [ ok _ ↦ (ok provider, w') | err _ ↦ first_provider payment_id providers w' ]

  abbrev pub get_provider_for_payment : Text → Method W (PaymentProvider N P W)
  get_provider_for_payment payment_id = first_provider payment_id g.providers

  unfoldable pub capture_payment : Text → Option N → Method W (PaymentResponse N)
  capture_payment payment_id amount = do
    provider ← get_provider_for_payment payment_id
    caught "Payment capture failed: " (
        provider.capture_payment payment_id amount >>= λ response.
        g.publish (of_payment (text "payment.captured") provider.name response)
        >> call (ok response))

  unfoldable pub get_payment : Text → Method W (PaymentResponse N)
  get_payment payment_id = do
    provider ← get_provider_for_payment payment_id
    provider.get_payment payment_id
