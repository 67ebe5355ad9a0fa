-- ===== src/Billing/Application/Laws.antt =====
-- Sending, updating and deleting stored invoices.
use finvoice.Prelude.{sym, subst}
use finvoice.Text.Laws.{text_eq_refl}
use finvoice.Prelude.{
  ◌≡◌, refl, true, some, List, [], ◌∷◌, find, if◌then◌else◌, arith, Option-cases, inl, inr,
}
use finvoice.Text.{Text, text}
use finvoice.Outcome.{bad_request, Result-cases}
use finvoice.Runtime.{Runtime, Clock}
use finvoice.Collection.{IsCollection}
use finvoice.Collection.Keys.{find-map}
use finvoice.Billing.Invoice.{draft, sent, is_status}
use finvoice.Billing.Application.{
  err, InvoiceDocument, ShopEnvironment, State, has_id, find_or_throw, mark_sent_at, respond,
  send_invoice,
}

module _ {N S W : Type 0} ⦃r : Runtime N⦄ (e : ShopEnvironment N S W) where
  open e use {documents}

  abbrev pub docs : State e → List (InvoiceDocument N)
  docs s = documents.docs s.invoices

  -- Whatever the job service does, an invoice that is sent is stored as sent.
  pub send_invoice-docs :
      (id : Text) (clock : Clock) (s : State e) {d : InvoiceDocument N}
      → find (has_id id) (docs s) ≡ some d
      → is_status d.status draft ≡ true
      → docs (send_invoice e id clock s).1
        ≡ documents.docs
            (documents.update (has_id d.id) (mark_sent_at (clock 0) (clock 1)) s.invoices)
  unfolding send_invoice find_or_throw respond
  send_invoice-docs id clock s {d} found ready =
      let first = e.add_job (text "invoice-processing") (text "send-invoice") id s.world in
      let second = e.add_job (text "invoice-processing") (text "generate-pdf") id first.1 in
      let s' : State e = record s {
        invoices = documents.update (has_id d.id) (mark_sent_at (clock 0) (clock 1)) s.invoices;
      } in
      elim (Result-cases first.0) [
        | inr (x, bad) ↦ ground (arith, found, ready, bad)
        | inl (_, good) ↦ elim (Result-cases second.0) [
          | inr (x, bad) ↦ ground (arith, found, ready, good, bad)
          | inl (_, good') ↦ elim (Option-cases (find (has_id id) (docs s'))) [
            | inl missing ↦ ground (arith, found, ready, good, good', missing)
            | inr (d', there) ↦ ground (arith, found, ready, good, good', there)
          ]
        ]
      ]

  find-sent :
      (laws : IsCollection S (InvoiceDocument N) documents) (id : Text) (clock : Clock)
      (s : State e) {d : InvoiceDocument N}
      → find (has_id id) (docs s) ≡ some d
      → is_status d.status draft ≡ true
      → find (has_id id) (docs (send_invoice e id clock s).1)
        ≡ some (mark_sent_at (clock 0) (clock 1) d)
  find-sent laws id clock s {d} found ready =
      let f = mark_sent_at {N = N} (clock 0) (clock 1) in
      subst (λ ds. find (has_id id) ds ≡ some (f d))
        (sym (send_invoice-docs id clock s found ready))
        (rw
          (
            laws.docs-update (has_id d.id) f s.invoices,
            find-map (λ (x : InvoiceDocument N). x.id) (λ x. if has_id d.id x then f x else x) id
                (docs s) (λ x. ground arith),
            found,
            text_eq_refl d.id,
          )
          refl)

  send_invoice-sent :
      (id : Text) (later : Clock) (s : State e) (d : InvoiceDocument N)
      → find (has_id id) (docs s) ≡ some d
      → d.status ≡ sent
      → send_invoice e id later s ≡ (
        err (
            bad_request "Cannot send invoice with status: {}. Only draft invoices can be sent."
              (text "sent" ∷ [])),
        s,
      )
  unfolding send_invoice find_or_throw
  send_invoice-sent id later s d there is_sent = ground (arith, there, is_sent)

  -- An invoice is sent at most once: after `send` of a draft, whether it returned or the job service
  -- threw, the invoice is stored as sent, and every other `send` of it is refused and changes nothing.
  pub send_invoice_once :
      (laws : IsCollection S (InvoiceDocument N) documents) (id : Text) (clock later : Clock)
      (s : State e) (d : InvoiceDocument N)
      → find (has_id id) (docs s) ≡ some d
      → is_status d.status draft ≡ true
      → (find (has_id id) (docs (send_invoice e id clock s).1)
          ≡ some (mark_sent_at (clock 0) (clock 1) d))
        × (send_invoice e id later (send_invoice e id clock s).1 ≡ (
          err (
              bad_request "Cannot send invoice with status: {}. Only draft invoices can be sent."
                (text "sent" ∷ [])),
          (send_invoice e id clock s).1,
        ))
  send_invoice_once laws id clock later s d found ready =
      let there = find-sent laws id clock s found ready in
      (
        there,
        send_invoice-sent id later (send_invoice e id clock s).1
            (mark_sent_at (clock 0) (clock 1) d) there refl,
      )
