-- ===== src/Gateway/Webhooks.antt =====
-- `processWebhookEvent` of shared/infrastructure/payment/payment-gateway.service.ts.
use finvoice.Prelude.{
  arith, refl, ap, not, none, some, map, any, filter, Bool-cases, Option-cases, inl, inr,
}
use finvoice.Text.{text_eq}
use finvoice.Outcome.{ok, err, bad_request, ◌>>◌, throw_if, call}
use finvoice.Gateway.{
  [], lookup, ◌∷◌, if◌then◌else◌, ◌≡◌, Method, text, Bool, List, Text, WebhookEvent, Gateway,
  of_webhook, PaymentDomainEvent,
}

-- The cases of the switch; the three handlers do the same.
unfoldable pub handled_types : List Text
handled_types =
    text "payment.succeeded"
    ∷ text "payment.failed"
    ∷ text "payment.canceled"
    ∷ text "refund.succeeded"
    ∷ text "refund.failed"
    ∷ text "dispute.created"
    ∷ text "dispute.funds_withdrawn"
    ∷ text "dispute.funds_reinstated"
    ∷ []

unfoldable pub is_handled : WebhookEvent → Bool
is_handled event = any (text_eq event.type) handled_types

module _ {N P W : Type 0} (g : Gateway N P W) where
  unfoldable pub handle_webhook_event : Text → WebhookEvent → Method W (Unit {0})
  handle_webhook_event name event =
      if is_handled event then g.publish (of_webhook name event) else call (ok tt)

  unfoldable pub handle_all : Text → List WebhookEvent → Method W (Unit {0})
  handle_all name [] = call (ok tt)
  handle_all name (event ∷ events) = handle_webhook_event name event >> handle_all name events

  unfoldable pub process_webhook_event : Text → P → Text → Method W (Unit {0})
  process_webhook_event name payload signature = elim (lookup name g.providers) [
    | none ↦ call (err (bad_request "Unknown payment provider: {}" (name ∷ [])))
    | some provider ↦
        throw_if (not (provider.verify_webhook payload signature))
          (bad_request "Invalid webhook signature" [])
        >> handle_all name (provider.webhook_events payload)
  ]

  -- What the bus does with a list of events, up to the first that it throws for.
  unfoldable pub publish_all : List (PaymentDomainEvent N) → Method W (Unit {0})
  publish_all [] = call (ok tt)
  publish_all (event ∷ events) = g.publish event >> publish_all events

  publish_all-handle_all :
      (name : Text) (events : List WebhookEvent)
      → handle_all name events ≡ publish_all (map (of_webhook name) (filter is_handled events))
  unfolding handle_all publish_all handle_webhook_event
  publish_all-handle_all name [] = refl
  publish_all-handle_all name (event ∷ events) = elim (Bool-cases (is_handled event)) [
    | inl handled ↦
        rw handled (λ i. g.publish (of_webhook name event) >> publish_all-handle_all name events i)
    | inr other ↦ rw other (publish_all-handle_all name events)
  ]

  -- A webhook publishes the events of the handled types, in their order, and nothing else; where the
  -- provider is unknown, or does not verify the signature, it throws and publishes nothing.
  pub process_webhook_event-publish_all :
      (name : Text) (payload : P) (signature : Text) (w : W)
      → process_webhook_event name payload signature w ≡ elim (lookup name g.providers) [
        | none ↦ (err (bad_request "Unknown payment provider: {}" (name ∷ [])), w)
        | some provider ↦
            if provider.verify_webhook payload signature
            then publish_all
                (map (of_webhook name) (filter is_handled (provider.webhook_events payload)))
                w
            else (err (bad_request "Invalid webhook signature" []), w)
      ]
  unfolding process_webhook_event
  process_webhook_event-publish_all name payload signature w =
      elim (Option-cases (lookup name g.providers)) [
        | inl missing ↦ ground (arith, missing)
        | inr (provider, found) ↦ ground (
          arith,
          found,
          ap (λ m. m w) (publish_all-handle_all name (provider.webhook_events payload)),
        )
      ]
