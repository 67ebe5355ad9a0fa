-- ===== src/Billing/Application/Pages.antt =====
-- The pages of the listing in services/billing/src/application/use-cases/list-invoices.usecase.ts.

use finvoice.Prelude.{◌∙◌, sym, ap, ◌≡◌, refl, ap, ◌∷◌, ◌++◌, map, length, ℕ, ◌+◌, arith}
use finvoice.Runtime.{Runtime, Clock, Date}
use mathlib.Core.List.{map-append}
use native.Mathlib.Nat.{add_comm, suc-mul}
use native.Mathlib.Numerals.{unary_clauses}
use finvoice.Text.{Text, text, text_eq, is_empty, given_text}
use finvoice.Prelude.{
  filter, ◌||◌, Option, none, some, Bool, true, false, Bool-cases, inl, inr, if◌then◌else◌, zero,
  suc, ◌*◌, ◌≤◌, List, [],
}
use finvoice.Billing.Application.{
  InvoiceDocument, status_text, InvoiceResponse, map_to_response_dto, ShopEnvironment, State,
}
use finvoice.Billing.Application.Listing.{
  find_by_customer_id, ListQuery, take, drop, selected, list_invoices,
}

module _ {A : Type 0} where
  take-drop : (l j : ℕ) (xs : List A) → take l xs ++ take j (drop l xs) ≡ take (j + l) xs
  take-drop zero j xs = simp unary_clauses refl
  take-drop (suc l) zero [] = simp unary_clauses refl
  take-drop (suc l) (suc j) [] = simp unary_clauses refl
  take-drop (suc l) j (x ∷ xs) = simp unary_clauses (ap (λ ys. x ∷ ys) (take-drop l j xs))

  drop-nil : (l : ℕ) → drop {A = A} l [] ≡ []
  drop-nil zero = refl
  drop-nil (suc l) = refl

  drop-drop : (l m : ℕ) (xs : List A) → drop l (drop m xs) ≡ drop (l + m) xs
  drop-drop l zero xs = simp unary_clauses refl
  drop-drop l (suc m) [] = simp unary_clauses (drop-nil l)
  drop-drop l (suc m) (x ∷ xs) = simp unary_clauses (drop-drop l m xs)

  take-all : (n : ℕ) (xs : List A) → length xs ≤ n → take n xs ≡ xs
  take-all zero [] h = refl
  take-all (suc n) [] h = refl
  take-all zero (x ∷ xs) h = absurd (omega arith)
  take-all (suc n) (x ∷ xs) h = ap (λ ys. x ∷ ys) (take-all n xs (omega arith))

module _ {N S W : Type 0} ⦃r : Runtime N⦄ (e : ShopEnvironment N S W) where
  -- The next `n` pages behind page `k`, one behind the other.
  unfoldable pub pages : ListQuery → (k n : ℕ) → Clock → State e → List (InvoiceResponse N)
  pages q k zero clock s = []
  pages q k (suc n) clock s =
      (list_invoices e (record q { page = suc k }) clock s).0 ++ pages q (suc k) n clock s

  page-take :
      (q : ListQuery) (k : ℕ) (clock : Clock) (s : State e)
      → (list_invoices e (record q { page = suc k }) clock s).0
        ≡ map map_to_response_dto (take q.limit (drop (k * q.limit) (selected e q (clock 0) s)))
  unfolding list_invoices selected
  page-take q k clock s = ground arith

  pages-take :
      (q : ListQuery) (k n : ℕ) (clock : Clock) (s : State e)
      → pages q k n clock s
        ≡ map map_to_response_dto
            (take (n * q.limit) (drop (k * q.limit) (selected e q (clock 0) s)))
  unfolding pages
  pages-take q k zero clock s =
      let none_left : 0 * q.limit ≡ 0 = omega arith in
      ap (λ m. map map_to_response_dto (take m (drop (k * q.limit) (selected e q (clock 0) s))))
        (sym none_left)
  pages-take q k (suc n) clock s =
      let all = selected e q (clock 0) s in
      let rest = drop (k * q.limit) all in
      let next : drop (suc k * q.limit) all ≡ drop q.limit rest =
        ap (λ m. drop m all) (suc-mul k q.limit ∙ add_comm (k * q.limit) q.limit)
        ∙ sym (drop-drop q.limit (k * q.limit) all) in
      rw (page-take q k clock s, pages-take q (suc k) n clock s, next, suc-mul n q.limit)
        (sym (
            map-append map_to_response_dto (take q.limit rest)
              (take (n * q.limit) (drop q.limit rest)))
          ∙ ap (map map_to_response_dto) (take-drop q.limit (n * q.limit) rest))

  pages-selected :
      (q : ListQuery) (n : ℕ) (clock : Clock) (s : State e)
      → length (selected e q (clock 0) s) ≤ n * q.limit
      → pages q 0 n clock s ≡ map map_to_response_dto (selected e q (clock 0) s)
  pages-selected q n clock s enough =
      let all = selected e q (clock 0) s in
      let first : 0 * q.limit ≡ 0 = omega arith in
      pages-take q 0 n clock s
      ∙ ap (λ m. map map_to_response_dto (take (n * q.limit) (drop m all))) first
      ∙ ap (map map_to_response_dto) (take-all (n * q.limit) all enough)

  -- The status is not given, is overdue, or is that of the invoice.
  abbrev pub asks : Option Text → InvoiceDocument N → Bool
  asks none d = true
  asks (some t) d = is_empty t || text_eq t (text "overdue") || text_eq (status_text d.status) t

  -- What a query for a customer asks for.
  abbrev pub wanted : (customer : Text) → Option Text → State e → List (InvoiceDocument N)
  wanted customer status s =
      filter (asks status) (
        e.by_created_at
          (filter (λ d. text_eq d.customer_id customer) (e.documents.docs s.invoices)))

  filter-all :
      (p : InvoiceDocument N → Bool) (ds : List (InvoiceDocument N))
      → ((d : InvoiceDocument N) → p d ≡ true)
      → filter p ds ≡ ds
  filter-all p [] h = refl
  filter-all p (d ∷ ds) h = rw (h d) (ap (λ xs. d ∷ xs) (filter-all p ds h))

  by_status :
      (o : Option Text) (ds : List (InvoiceDocument N))
      → elim (given_text o) [
        | none ↦ ds
        | some t ↦
            if elim o [ none ↦ false | some t' ↦ text_eq t' (text "overdue") ]
            then ds
            else filter (λ d. text_eq (status_text d.status) t) ds
      ]
        ≡ filter (asks o) ds
  by_status none ds = sym (filter-all (asks none) ds (λ d. refl))
  by_status (some t) ds = elim (Bool-cases (is_empty t)) [
    | inl empty ↦ rw empty (sym (filter-all (asks (some t)) ds (λ d. rw empty refl)))
    | inr full ↦ elim (Bool-cases (text_eq t (text "overdue"))) [
      | inl late ↦ rw (full, late) (sym (filter-all (asks (some t)) ds (λ d. rw (full, late) refl)))
      | inr other ↦
          let same : (d : InvoiceDocument N) → text_eq (status_text d.status) t ≡ asks (some t) d =
            λ d. rw (full, other) refl in
          rw (full, other) (λ i. filter (λ d. same d i) ds)
    ]
  ]

  selected-wanted :
      (q : ListQuery) (customer : Text) (now : Date) (s : State e)
      → given_text q.customer_id ≡ some customer
      → selected e q now s ≡ wanted customer q.status s
  unfolding selected find_by_customer_id
  selected-wanted q customer now s named =
      let found =
        e.by_created_at
          (filter (λ d. text_eq d.customer_id customer) (e.documents.docs s.invoices)) in
      let shape : selected e q now s ≡ elim (given_text q.status) [
        | none ↦ found
        | some t ↦
            if elim q.status [ none ↦ false | some t' ↦ text_eq t' (text "overdue") ]
            then found
            else filter (λ d. text_eq (status_text d.status) t) found
      ] =
        ground (arith, named) in
      shape ∙ by_status q.status found

  -- For a query that names a customer, enough pages hold, once and in the order of their creation that
  -- the server gives, the invoices of the customer that have the status asked for; all of them, where no
  -- status is asked for or it is overdue.
  pub pages-wanted :
      (q : ListQuery) (customer : Text) (n : ℕ) (clock : Clock) (s : State e)
      → given_text q.customer_id ≡ some customer
      → length (wanted customer q.status s) ≤ n * q.limit
      → pages q 0 n clock s ≡ map map_to_response_dto (wanted customer q.status s)
  pages-wanted q customer n clock s named enough =
      let same = selected-wanted q customer (clock 0) s named in
      pages-selected q n clock s (rw same enough) ∙ ap (map map_to_response_dto) same
