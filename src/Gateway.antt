-- ===== src/Gateway.antt =====
-- `PaymentGatewayService` of shared/infrastructure/payment/payment-gateway.service.ts: the types, and
-- the start of the providers. The payment providers, their network and the event bus are parameters,
-- methods on a world `W`. Logging is left out, and so are metadata and time stamps.
pub mod Selection
pub mod Best
pub mod Attempts
pub mod Processing
pub mod Refunds
pub mod Eligibility
pub mod Webhooks
use finvoice.Prelude.{
  ◌≡◌, Bool, true, false, Option, none, some, List, [], ◌∷◌, ◌==◌, ℕ, String, if◌then◌else◌,
}
use finvoice.Text.{Text, text, text_eq}
use finvoice.Dict.{Dict, lookup, insert}
use finvoice.Outcome.{Result, ok, err, error, Method}

pub data MethodType : Type 0 where
  card bank_account digital_wallet crypto bnpl : MethodType

abbrev pub type_code : MethodType → ℕ
type_code card = 0
type_code bank_account = 1
type_code digital_wallet = 2
type_code crypto = 3
type_code bnpl = 4

-- `a === b`
abbrev pub is_type : MethodType → MethodType → Bool
is_type a b = type_code a == type_code b

-- Those of the sixteen features that a request can require.
pub data PaymentFeature : Type 0 where
  webhooks tokenization recurring_payments mobile_payments cryptocurrency buy_now : PaymentFeature

-- The fields that the service reads. `setup_future_usage` is whether the field is set.
pub record PaymentRequest (N : Type 0) : Type 0 where
  pub amount : N
  pub currency : Text
  pub method : MethodType
  pub setup_future_usage : Bool

pub data PaymentStatus : Type 0 where
  requires_payment_method requires_confirmation requires_action processing requires_capture :
      PaymentStatus
  canceled succeeded failed : PaymentStatus

abbrev pub is_succeeded : PaymentStatus → Bool
is_succeeded succeeded = true
is_succeeded _ = false

pub record PaymentResponse (N : Type 0) : Type 0 where
  pub id : Text
  pub status : PaymentStatus
  pub amount : N
  pub currency : Text
  pub refunded_amount : Option N

pub record RefundResponse (N : Type 0) : Type 0 where
  pub id : Text
  pub payment_id : Text
  pub amount : N
  pub currency : Text

pub record WebhookEvent : Type 0 where
  pub type : Text
  pub payment_id : Option Text

-- `PaymentDomainEvent`, with the type, the provider and what the service puts into `data`.
pub data PaymentDomainEvent (N : Type 0) : Type 0 where
  of_payment : (type provider : Text) → PaymentResponse N → PaymentDomainEvent N
  of_refund : (provider : Text) → RefundResponse N → PaymentDomainEvent N
  of_webhook : (provider : Text) → WebhookEvent → PaymentDomainEvent N

-- The interface that the providers implement; a webhook payload is of type `P`.
pub record PaymentProvider (N P W : Type 0) : Type 0 where
  pub name : Text
  pub initialize : Method W (Unit {0})
  pub create_payment : PaymentRequest N → Method W (PaymentResponse N)
  pub capture_payment : Text → Option N → Method W (PaymentResponse N)
  pub refund_payment : Text → Option N → Option Text → Method W (RefundResponse N)
  pub get_payment : Text → Method W (PaymentResponse N)
  pub verify_webhook : P → Text → Bool
  pub webhook_events : P → List WebhookEvent
  pub supports : PaymentFeature → Bool

-- The service: the providers in the order of the map, the fallbacks and the bus.
pub record Gateway (N P W : Type 0) : Type 0 where
  pub providers : Dict (PaymentProvider N P W)
  pub fallback_providers : List Text
  pub publish : PaymentDomainEvent N → Method W (Unit {0})

module _ {N P W : Type 0} where
  -- The loop of `initializeProviders`: a name that has no provider, and a provider that does not
  -- start, is left out. `create` is `createProvider`.
  unfoldable pub start_all :
      (create : Text → Option (PaymentProvider N P W))
      → List Text
      → Dict (PaymentProvider N P W)
      → W
      → Dict (PaymentProvider N P W) × W
  start_all create [] started w = (started, w)
  start_all create (name ∷ names) started w = elim (create name) [
    | none ↦ start_all create names started w
    | some provider ↦
        let (result, w') = provider.initialize w in
        start_all create names
          (elim result [ ok _ ↦ insert name provider started | err _ ↦ started ]) w'
  ]

  unfoldable pub initialize_providers :
      (create : Text → Option (PaymentProvider N P W))
      → List Text
      → Method W (Dict (PaymentProvider N P W))
  initialize_providers create names w =
      let (started, w') = start_all create names [] w in
      (
        elim started [
          | [] ↦ err (error "No payment providers could be initialized" [])
          | entry ∷ rest ↦ ok (entry ∷ rest)
        ],
        w',
      )
