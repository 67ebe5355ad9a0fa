-- ===== src/Billing/Application/Listing.antt =====
-- The listing of stored invoices of services/billing/src/application/use-cases/list-invoices.usecase.ts,
-- with the queries of infrastructure/repositories/mongo-invoice.repository.ts.
use finvoice.Prelude.{◌≡◌, arith}
use finvoice.Prelude.{
  zero, suc, ◌-◌, ◌*◌, Bool, false, ◌&&◌, ◌||◌, Option, none, some, List, [], ◌∷◌, map, filter,
  length, ℕ, if◌then◌else◌, ◌==◌, ltb,
}
use finvoice.Text.{given_text, Text, text, text_eq}
use finvoice.Runtime.{Runtime, Date, Clock}
use finvoice.Billing.Invoice.{sent, viewed, is_status}
use finvoice.Billing.Application.{
  suc, InvoiceDocument, InvoiceResponse, map_to_response_dto, status_text, ShopEnvironment, State,
}

-- `xs.slice(start, end)` on positions that are not negative
abbrev pub drop : {A : Type 0} → ℕ → List A → List A
drop zero xs = xs
drop (suc n) [] = []
drop (suc n) (x ∷ xs) = drop n xs

abbrev pub take : {A : Type 0} → ℕ → List A → List A
take zero xs = []
take (suc n) [] = []
take (suc n) (x ∷ xs) = x ∷ take n xs

-- `ListInvoicesQueryDto`, with the page and the limit as whole numbers.
pub record ListQuery : Type 0 where
  pub customer_id : Option Text
  pub status : Option Text
  pub page : ℕ
  pub limit : ℕ

module _ {N S W : Type 0} ⦃r : Runtime N⦄ (e : ShopEnvironment N S W) where
  open e use {documents}

  unfoldable pub find_by_customer_id : Text → State e → List (InvoiceDocument N)
  find_by_customer_id customer s =
      e.by_created_at (filter (λ d. text_eq d.customer_id customer) (documents.docs s.invoices))

  unfoldable pub find_overdue_invoices : Date → State e → List (InvoiceDocument N)
  find_overdue_invoices today s = e.by_due_date (
      filter (λ d. (is_status d.status sent || is_status d.status viewed) && ltb d.due_date today)
        (documents.docs s.invoices))

  -- The invoices of a query before they are cut into pages.
  unfoldable pub selected : ListQuery → Date → State e → List (InvoiceDocument N)
  selected q now s =
      let is_overdue : Bool = elim q.status [
        | none ↦ false
        | some t ↦ text_eq t (text "overdue")
      ] in
      let invoices : List (InvoiceDocument N) = elim (given_text q.customer_id) [
        | some c ↦ find_by_customer_id c s
        | none ↦ if is_overdue then find_overdue_invoices now s else []
      ] in
      elim (given_text q.status) [
        | none ↦ invoices
        | some t ↦
            if is_overdue then invoices else filter (λ d. text_eq (status_text d.status) t) invoices
      ]

  -- The responses and the total. At page 0 the slice ends at 0.
  unfoldable pub list_invoices : ListQuery → Clock → State e → List (InvoiceResponse N) × ℕ
  list_invoices q clock s =
      let invoices = selected q (clock 0) s in
      (
        map map_to_response_dto
            (if q.page == 0 then [] else take q.limit (drop ((q.page - 1) * q.limit) invoices)),
        length invoices,
      )

  -- For a customer, the status `overdue` selects every invoice of the customer.
  pub selected_overdue :
      (q : ListQuery) (customer : Text) (now : Date) (s : State e)
      → given_text q.customer_id ≡ some customer
      → q.status ≡ some (text "overdue")
      → selected q now s ≡ find_by_customer_id customer s
  unfolding selected
  selected_overdue q customer now s named asked = ground (arith, named, asked)
