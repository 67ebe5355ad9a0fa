-- ===== src/Payment.antt =====
-- `PaymentAggregate` of services/payments/src/domain/aggregates/payment.aggregate.ts, with the
-- events of domain/events/payment-events.ts and the enums of domain/value-objects. A getter is a
-- field. `metadata` is only stored, and is left out.
pub mod Laws
pub mod Refunds
pub mod Diagram
use finvoice.Prelude.{
  ℕ, Bool, true, false, not, ◌&&◌, Option, none, some, List, [], ◌∷◌, ◌++◌, ◌==◌, if◌then◌else◌,
}
use finvoice.Text.{Text, trim, is_blank, is_bad_code}
use finvoice.Outcome.{
  Result, ok, err, domain_exception, Method, ◌>>=◌, ◌>>◌, throw_if, gets, modify,
}
use finvoice.Runtime.{Runtime, Date, Clock, nought, le, truthy, or_else}

pub data PaymentStatus : Type 0 where
  pending processing completed failed cancelled refunded : PaymentStatus

abbrev pub status_code : PaymentStatus → ℕ
status_code pending = 0
status_code processing = 1
status_code completed = 2
status_code failed = 3
status_code cancelled = 4
status_code refunded = 5

-- `a === b`
abbrev pub is_status : PaymentStatus → PaymentStatus → Bool
is_status a b = status_code a == status_code b

pub data PaymentMethod : Type 0 where
  stripe razorpay paypal bank_transfer : PaymentMethod

-- The last field of each is `occurredOn`.
pub data PaymentEvent (N : Type 0) : Type 0 where
  payment_processed :
      (payment_id invoice_id : Text)
      → N
      → (currency : Text) → PaymentMethod
      → (gateway_transaction_id : Text) → Date
      → PaymentEvent N
  payment_failed :
      (payment_id invoice_id reason : Text) → (gateway_error : Option Text) → Date → PaymentEvent N
  payment_refunded : (payment_id : Text) → N → (reason : Text) → Date → PaymentEvent N

pub record Payment (N : Type 0) : Type 0 where
  pub id : Text
  pub invoice_id : Text
  pub amount : N
  pub currency : Text
  pub payment_method : PaymentMethod
  pub status : PaymentStatus
  pub gateway_transaction_id : Option Text
  pub gateway_payment_id : Option Text
  pub processed_at : Option Date
  pub failure_reason : Option Text
  pub refunded_amount : Option N
  pub refunded_at : Option Date
  pub events : List (PaymentEvent N)

module _ {N : Type 0} ⦃r : Runtime N⦄ where
  open r use {lt, eq, upper}

  abbrev pub add_event : PaymentEvent N → Method (Payment N) (Unit {0})
  add_event e = modify (λ s. record s { events = s.events ++ (e ∷ []) })

  -- `AggregateRoot.clearEvents`
  unfoldable pub clear_events : Method (Payment N) (Unit {0})
  clear_events = modify (λ s. record s { events = [] })

  -- `PaymentAggregate.create`; `id` is the generated identifier.
  unfoldable pub create :
      Text
      → (invoice_id : Text) → N
      → (currency : Text) → PaymentMethod
      → (gateway_payment_id : Option Text) → Result (Payment N)
  create id invoice_id amount currency payment_method gateway_payment_id =
      if is_blank invoice_id
      then err (domain_exception "Invoice ID cannot be empty" [])
      else if le amount nought
      then err (domain_exception "Payment amount must be positive" [])
      else if is_bad_code currency
      then err (domain_exception "Currency must be a valid 3-letter code" [])
      else ok (record {
        id = id;
        invoice_id = trim invoice_id;
        amount = amount;
        currency = upper currency;
        payment_method = payment_method;
        status = pending;
        gateway_transaction_id = none;
        gateway_payment_id = gateway_payment_id;
        processed_at = none;
        failure_reason = none;
        refunded_amount = none;
        refunded_at = none;
        events = [];
      })

  unfoldable pub mark_as_processing : Method (Payment N) (Unit {0})
  mark_as_processing = do
    status ← gets (λ s. s.status)
    throw_if (not (is_status status pending))
        (domain_exception "Only pending payments can be marked as processing" [])
    modify (λ s. record s { status = processing })

  unfoldable pub mark_as_completed : Text → Clock → Method (Payment N) (Unit {0})
  mark_as_completed gateway_transaction_id clock = do
    s ← gets (λ s. s)
    throw_if (not (is_status s.status processing) && not (is_status s.status pending))
        (domain_exception "Only pending or processing payments can be marked as completed" [])
    throw_if (is_blank gateway_transaction_id)
        (domain_exception "Gateway transaction ID cannot be empty" [])
    modify (λ s. record s {
      status = completed;
      gateway_transaction_id = some (trim gateway_transaction_id);
      processed_at = some (clock 0);
    })
    add_event (
        payment_processed s.id s.invoice_id s.amount s.currency s.payment_method
          gateway_transaction_id (clock 1))

  unfoldable pub mark_as_failed : Text → Option Text → Clock → Method (Payment N) (Unit {0})
  mark_as_failed reason gateway_error clock = do
    s ← gets (λ s. s)
    throw_if (is_status s.status completed)
        (domain_exception "Cannot mark completed payment as failed" [])
    throw_if (is_blank reason) (domain_exception "Failure reason cannot be empty" [])
    modify (λ s. record s {
      status = failed;
      failure_reason = some (trim reason);
      processed_at = some (clock 0);
    })
    add_event (payment_failed s.id s.invoice_id reason gateway_error (clock 1))

  -- `refundedAmount && (refundedAmount + amount) > total`
  abbrev pub exceeds : Option N → N → N → Bool
  exceeds none amount total = false
  exceeds (some before) amount total = truthy before && lt total (r.add before amount)

  unfoldable pub refund : N → Text → Clock → Method (Payment N) (Unit {0})
  refund amount reason clock = do
    s ← gets (λ s. s)
    throw_if (not (is_status s.status completed))
        (domain_exception "Only completed payments can be refunded" [])
    throw_if (le amount nought) (domain_exception "Refund amount must be positive" [])
    throw_if (lt s.amount amount) (domain_exception "Refund amount cannot exceed payment amount" [])
    throw_if (exceeds s.refunded_amount amount s.amount)
        (domain_exception "Total refund amount cannot exceed payment amount" [])
    throw_if (is_blank reason) (domain_exception "Refund reason cannot be empty" [])
    sum ← gets (λ s. r.add (or_else s.refunded_amount nought) amount)
    modify (λ s. record s { refunded_amount = some sum; refunded_at = some (clock 0) })
    modify (λ s. if eq sum s.amount then record s { status = refunded } else s)
    add_event (payment_refunded s.id amount reason (clock 1))

  unfoldable pub cancel : Method (Payment N) (Unit {0})
  cancel = do
    status ← gets (λ s. s.status)
    throw_if (is_status status completed) (domain_exception "Cannot cancel completed payment" [])
    throw_if (is_status status cancelled) (domain_exception "Payment is already cancelled" [])
    modify (λ s. record s { status = cancelled })

  unfoldable pub is_fully_refunded : Payment N → Bool
  is_fully_refunded s = elim s.refunded_amount [ none ↦ false | some sum ↦ eq sum s.amount ]

  unfoldable pub is_partially_refunded : Payment N → Bool
  is_partially_refunded s =
      lt nought (or_else s.refunded_amount nought) && lt (or_else s.refunded_amount nought) s.amount
