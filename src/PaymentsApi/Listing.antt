-- ===== src/PaymentsApi/Listing.antt =====
-- The listings of `PaymentsController`, with the queries of the repository.
use finvoice.Prelude.{Option, none, some, List, [], map, filter}
use finvoice.Text.{given_text, Text, text_eq}
use finvoice.PaymentsApi.{
  PaymentDocument, PaymentResponse, PaymentsEnvironment, State, map_to_response_dto,
}

module _ {N S W : Type 0} (e : PaymentsEnvironment N S W) where
  open e use {documents}

  unfoldable pub find_by_invoice_id : Text → State e → List (PaymentDocument N)
  find_by_invoice_id id s =
      e.by_created_at (filter (λ d. text_eq d.invoice_id id) (documents.docs s.payments))

  unfoldable pub find_by_customer_id : Text → State e → List (PaymentDocument N)
  find_by_customer_id id s =
      e.by_created_at (filter (λ d. text_eq d.customer_id id) (documents.docs s.payments))

  unfoldable pub list_payments :
      (invoice_id customer_id status : Option Text) → State e → List (PaymentResponse N)
  list_payments invoice_id customer_id status s =
      let payments : List (PaymentDocument N) = elim (given_text invoice_id) [
        | some id ↦ find_by_invoice_id id s
        | none ↦ elim (given_text customer_id) [ some id ↦ find_by_customer_id id s | none ↦ [] ]
      ] in
      map map_to_response_dto (elim (given_text status) [
        | none ↦ payments
        | some t ↦ filter (λ d. text_eq d.status t) payments
      ])

  abbrev pub get_payments_by_invoice : Text → State e → List (PaymentResponse N)
  get_payments_by_invoice id s = map map_to_response_dto (find_by_invoice_id id s)
