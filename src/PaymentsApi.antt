-- ===== src/PaymentsApi.antt =====
-- `PaymentsController` of services/payments/src/api/controllers/payments.controller.ts, over the
-- repository of infrastructure/repositories/mongo-payment.repository.ts and the schema of
-- infrastructure/schemas/payment.schema.ts. Identifiers that MongoDB cannot read, bodies that leave
-- a field out and the reason of a failure are left out; the last is only stored.
pub mod Listing
pub mod Guards
pub mod Unique
use finvoice.Prelude.{
  true, Bool, not, ◌&&◌, ◌||◌, Option, none, some, List, [], ◌∷◌, map, any, filter, length,
  if◌then◌else◌, ltb,
}
use finvoice.Text.{given_text, Text, text, text_eq, is_empty}
use finvoice.Outcome.{
  ok, err, error, bad_request, not_found, invalid_document, duplicate_key, Method, ◌>>=◌, ◌>>◌,
  throw_if, gets, modify, call,
}
use finvoice.Runtime.{Date, Clock}
use finvoice.Collection.{Collection, find_one}

pub record CreatePaymentDto (N : Type 0) : Type 0 where
  pub payment_id : Text
  pub invoice_id : Text
  pub customer_id : Text
  pub amount : N
  pub currency : Text
  pub method : Text
  pub notes : Option Text

-- An update stores any text as the status: the enum of the schema holds for new documents only.
pub record PaymentDocument (N : Type 0) : Type 0 where
  pub id : Text
  pub payment_id : Text
  pub invoice_id : Text
  pub customer_id : Text
  pub amount : N
  pub currency : Text
  pub status : Text
  pub method : Text
  pub gateway_transaction_id : Option Text
  pub processed_at : Option Date
  pub failed_at : Option Date
  pub notes : Option Text
  pub created_at : Date
  pub updated_at : Date

pub record PaymentResponse (N : Type 0) : Type 0 where
  pub id : Text
  pub payment_id : Text
  pub invoice_id : Text
  pub customer_id : Text
  pub amount : N
  pub currency : Text
  pub status : Text
  pub method : Text
  pub gateway_transaction_id : Option Text
  pub notes : Option Text
  pub created_at : Date
  pub updated_at : Date

-- The body of a status update.
pub record StatusDto : Type 0 where
  pub status : Text
  pub gateway_transaction_id : Option Text

-- The stored payments and the rest of the world, in which the jobs are queued.
pub record Ledger (S W : Type 0) : Type 0 where
  pub payments : S
  pub world : W

-- The collection, the sort of the server and the job service.
pub record PaymentsEnvironment (N S W : Type 0) : Type 0 where
  pub documents : Collection S (PaymentDocument N)
  pub by_created_at : List (PaymentDocument N) → List (PaymentDocument N)
  pub add_job : (queue name payment_id action : Text) → Method W (Unit {0})

abbrev pub methods : List Text
methods =
    text "stripe"
    ∷ text "razorpay"
    ∷ text "paypal"
    ∷ text "bank_transfer"
    ∷ text "cash"
    ∷ text "check"
    ∷ []

module _ {N : Type 0} where
  abbrev pub has_id : Text → PaymentDocument N → Bool
  has_id id d = text_eq d.id id

  abbrev pub has_payment_id : Text → PaymentDocument N → Bool
  has_payment_id id d = text_eq d.payment_id id

  unfoldable pub map_to_response_dto : PaymentDocument N → PaymentResponse N
  map_to_response_dto d = record {
    id = d.id;
    payment_id = d.payment_id;
    invoice_id = d.invoice_id;
    customer_id = d.customer_id;
    amount = d.amount;
    currency = d.currency;
    status = d.status;
    method = d.method;
    gateway_transaction_id = d.gateway_transaction_id;
    notes = d.notes;
    created_at = d.created_at;
    updated_at = d.updated_at;
  }

  -- The document that MongoDB gives the identifier `id`.
  unfoldable pub payment_data : CreatePaymentDto N → (id : Text) → Clock → PaymentDocument N
  payment_data dto id clock = record {
    id = id;
    payment_id = dto.payment_id;
    invoice_id = dto.invoice_id;
    customer_id = dto.customer_id;
    amount = dto.amount;
    currency = dto.currency;
    status = text "pending";
    method = dto.method;
    gateway_transaction_id = none;
    processed_at = none;
    failed_at = none;
    notes = dto.notes;
    created_at = clock 0;
    updated_at = clock 1;
  }

  -- The validators of the schema.
  unfoldable pub is_valid_payment : PaymentDocument N → Bool
  is_valid_payment d =
      not (is_empty d.payment_id)
      && not (is_empty d.currency)
      && any (text_eq d.method) methods
      && elim d.notes [ none ↦ true | some notes ↦ not (ltb 1000 (length notes)) ]

  -- `$set` with the update data.
  unfoldable pub with_status : StatusDto → Clock → PaymentDocument N → PaymentDocument N
  with_status dto clock d =
      let completed = text_eq dto.status (text "completed") in
      let failed = text_eq dto.status (text "failed") in
      record d {
        status = dto.status;
        updated_at = clock 0;
        gateway_transaction_id = elim (given_text dto.gateway_transaction_id) [
          | none ↦ d.gateway_transaction_id
          | some id ↦ some id
        ];
        processed_at = if completed then some (clock 1) else d.processed_at;
        failed_at = if failed then some (clock 1) else d.failed_at;
      }

module _ {N S W : Type 0} (e : PaymentsEnvironment N S W) where
  open e use {documents}

  abbrev pub State : Type 0
  State = Ledger S W

  abbrev pub find_by_id : Text → State → Option (PaymentDocument N)
  find_by_id id s = find_one documents (has_id id) s.payments

  abbrev pub find_by_payment_id : Text → State → Option (PaymentDocument N)
  find_by_payment_id id s = find_one documents (has_payment_id id) s.payments

  -- `save` without an `_id`
  unfoldable pub save_new : PaymentDocument N → Method State (Unit {0})
  save_new d = do
    throw_if (not (is_valid_payment d)) (invalid_document "payments")
    existing ← gets (find_by_payment_id d.payment_id)
    elim existing [
      | none ↦ modify (λ s. record s { payments = documents.insert d s.payments })
      | some _ ↦ call (err (duplicate_key "paymentId"))
    ]

  -- `save` with the `_id` of a stored payment
  abbrev pub save : Text → (PaymentDocument N → PaymentDocument N) → Method State (Unit {0})
  save id f = modify (λ s. record s { payments = documents.update (has_id id) f s.payments })

  unfoldable pub find_or_throw : Text → Method State (PaymentDocument N)
  find_or_throw id s = elim (find_by_id id s) [
    | none ↦ (err (not_found "Payment with ID {} not found" (id ∷ [])), s)
    | some d ↦ (ok d, s)
  ]

  -- `mapToResponseDto`, which throws where there is no document.
  unfoldable pub respond : Option (PaymentDocument N) → Method State (PaymentResponse N)
  respond none = call (err (error "Cannot read properties of null (reading '_id')" []))
  respond (some d) = call (ok (map_to_response_dto d))

  -- `id` is the identifier that MongoDB would give.
  unfoldable pub create_payment :
      CreatePaymentDto N → (id : Text) → Clock → Method State (PaymentResponse N)
  create_payment dto id clock = do
    save_new (payment_data dto id clock)
    λ s.
        let (result, w) =
          e.add_job (text "payment-processing") (text "process-payment") dto.payment_id
            (text "process") s.world in
        (result, record s { world = w })
    payment ← gets (find_by_payment_id dto.payment_id)
    respond payment

  abbrev pub get_payment : Text → Method State (PaymentResponse N)
  get_payment id = find_or_throw id >>= λ d. call (ok (map_to_response_dto d))

  unfoldable pub update_payment_status : Text → StatusDto → Clock → Method State (PaymentResponse N)
  update_payment_status id dto clock = do
    d ← find_or_throw id
    save d.id (with_status dto clock)
    payment ← gets (find_by_id id)
    respond payment

  unfoldable pub delete_payment : Text → Method State (Unit {0})
  delete_payment id = do
    d ← find_or_throw id
    throw_if (text_eq d.status (text "completed") || text_eq d.status (text "processing"))
        (bad_request "Cannot delete payment with status: {}" (d.status ∷ []))
    modify (λ s. record s { payments = documents.remove (has_id id) s.payments })
