-- ===== src/Gateway/Attempts.antt =====
-- `processPayment` of shared/infrastructure/payment/payment-gateway.service.ts as a list of attempts.
use finvoice.Prelude.{Any}
use finvoice.Prelude.{
  is_none, ◌≡◌, refl, Bool, true, false, not, ◌&&◌, some, List, [], ◌∷◌, map, filter, arith,
  Bool-cases, Option-cases, inl, inr,
}
use finvoice.Text.{Text, text, text_eq}
use finvoice.Dict.{lookup}
use finvoice.Outcome.{Exception, ok, err, error, bad_request_for, Method, is_ok, Result-cases}
use finvoice.Runtime.{Runtime}
use finvoice.Gateway.{PaymentRequest, PaymentResponse, PaymentProvider, Gateway, of_payment}
use finvoice.Gateway.Selection.{select_provider}
use finvoice.Gateway.Processing.{charge, charge_by, try_fallbacks, process_payment}

-- The specification: calls are made in turn until one returns; if none does, the last exception is
-- wrapped.
abbrev pub first_success :
    {W A : Type 0} → (Exception → Exception) → List (Method W A) → Exception → Method W A
first_success wrap [] last w = (err (wrap last), w)
first_success wrap (m ∷ ms) last w =
    let (result, w') = m w in elim result [ ok a ↦ (ok a, w') | err e ↦ first_success wrap ms e w' ]

module _ {N P W : Type 0} ⦃r : Runtime N⦄ (g : Gateway N P W) where
  -- A fallback is tried if it is not the provider that was selected, and registered.
  abbrev pub is_candidate : Text → Text → Bool
  is_candidate selected name =
      not (text_eq name selected) && not (is_none (lookup name g.providers))

  abbrev pub candidates : Text → List Text
  candidates selected = selected ∷ filter (is_candidate selected) g.fallback_providers

  abbrev failed : Exception → Exception
  failed = bad_request_for "Payment processing failed: "

  try_fallbacks-first_success :
      (selected : Text) (request : PaymentRequest N) (names : List Text) (last : Exception) (w : W)
      → try_fallbacks g selected request names last w
        ≡ first_success failed
            (map (λ name. charge_by g name request) (filter (is_candidate selected) names))
            last
            w
  unfolding try_fallbacks charge_by
  try_fallbacks-first_success selected request [] last w = refl
  try_fallbacks-first_success selected request (name ∷ names) last w =
      elim (Bool-cases (text_eq name selected)) [
        | inl same ↦ ground (arith, same, try_fallbacks-first_success selected request names last w)
        | inr other ↦ elim (Option-cases (lookup name g.providers)) [
          | inl missing ↦
              ground
                (arith, other, missing, try_fallbacks-first_success selected request names last w)
          | inr (provider, found) ↦ elim (Result-cases (charge g name request provider w).0) [
            | inl (a, good) ↦ ground (arith, other, found, good)
            | inr (e, bad) ↦ ground (
              arith,
              other,
              found,
              bad,
              try_fallbacks-first_success selected request names e
                  (charge g name request provider w).1,
            )
          ]
        ]
      ]

  -- A payment is what the specification makes of the charges by the selected provider and by the
  -- registered fallbacks other than it, in the order of the configuration; where none is selected, it
  -- throws and calls nobody.
  pub process_payment-first_success :
      (request : PaymentRequest N) (w : W)
      → process_payment g request w ≡ elim (select_provider g.providers request) [
        | err e ↦ (err e, w)
        | ok selected ↦
            first_success
              (bad_request_for "Payment processing failed: ")
              (map (λ name. charge_by g name request) (candidates selected))
              (error "" [])
              w
      ]
  unfolding process_payment
  process_payment-first_success request w =
      elim (Result-cases (select_provider g.providers request)) [
        | inr (e, none') ↦ ground (arith, none')
        | inl (selected, chosen) ↦ elim (Result-cases (charge_by g selected request w).0) [
          | inl (a, good) ↦ ground (arith, chosen, good)
          | inr (e, bad) ↦ ground (
            arith,
            chosen,
            bad,
            try_fallbacks-first_success selected request g.fallback_providers e
                (charge_by g selected request w).1,
          )
        ]
      ]

  -- The charge by this provider returns, whatever the state of the world.
  abbrev pub IsReliable : PaymentRequest N → Text → Type 0
  IsReliable request name = (w : W) → is_ok (charge_by g name request w).0 ≡ true

  first_success_ok :
      (request : PaymentRequest N) (names : List Text) (last : Exception) (w : W)
      → Any (IsReliable request) names
      → is_ok (first_success failed (map (λ name. charge_by g name request) names) last w).0 ≡ true
  first_success_ok request [] last w h = elim h [ ]
  first_success_ok request (name ∷ names) last w h =
      elim (Result-cases (charge_by g name request w).0) [
        | inl (a, good) ↦ ground (arith, good)
        | inr (e, bad) ↦ elim h [
          | inl sure ↦ ground (arith, bad, sure w)
          | inr later ↦
              ground
                (arith, bad, first_success_ok request names e (charge_by g name request w).1 later)
        ]
      ]

  -- Where a provider is selected, and the charge by it or by one of the registered fallbacks is sure
  -- to return, the payment returns.
  pub process_payment_live :
      (request : PaymentRequest N) (selected : Text) (w : W)
      → select_provider g.providers request ≡ ok selected
      → Any (IsReliable request) (candidates selected)
      → is_ok (process_payment g request w).0 ≡ true
  process_payment_live request selected w chosen sure =
      rw (process_payment-first_success request w, chosen)
        (first_success_ok request (candidates selected) (error "" []) w sure)

  -- A customer can be charged twice: where the selected provider takes the payment and the bus then
  -- throws, the payment is also made with the next fallback.
  pub process_payment_twice :
      (request : PaymentRequest N) (selected name : Text) (names : List Text)
      (p q : PaymentProvider N P W) (a b : PaymentResponse N) (e : Exception) (w w1 w2 w3 w4 : W)
      → select_provider g.providers request ≡ ok selected
      → lookup selected g.providers ≡ some p
      → g.fallback_providers ≡ name ∷ names
      → text_eq name selected ≡ false
      → lookup name g.providers ≡ some q
      → p.create_payment request w ≡ (ok a, w1)
      → g.publish (of_payment (text "payment.created") selected a) w1 ≡ (err e, w2)
      → q.create_payment request w2 ≡ (ok b, w3)
      → g.publish (of_payment (text "payment.created") name b) w3 ≡ (ok tt, w4)
      → process_payment g request w ≡ (ok b, w4)
  unfolding process_payment charge_by charge try_fallbacks
  process_payment_twice request selected name names p q a b e w w1 w2 w3 w4 chosen found fallbacks
        other found' paid lost again told =
      ground (arith, chosen, found, fallbacks, other, found', paid, lost, again, told)
