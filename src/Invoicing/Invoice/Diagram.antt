-- ===== src/Invoicing/Invoice/Diagram.antt =====
-- The status diagram of the module's invoices, and what is left unchanged.
use finvoice.Prelude.{
  ◌≡◌, ◌≢◌, refl, true, ◌⊎◌, List, [], ◌∷◌, inl, inr, arith, Option-cases, find_index,
}
use finvoice.Text.{Text, text_eq}
use finvoice.Outcome.{Exception, ok, err, Result-cases}
use finvoice.Runtime.{Runtime, Clock}
use finvoice.Invoicing.Money.{Money, equals}
use finvoice.Invoicing.Item.{Item}
use finvoice.Invoicing.Invoice.{
  InvoiceStatus, draft, finalized, sent, partially_paid, paid, voided, overpaid, Invoice,
  ItemUpdates, add_item, remove_item, update_item, find_item, apply_updates, total_of,
}
use finvoice.Invoicing.Invoice.Payments.{
  finalize, send, void_it, record_payment, mark_as_paid, Call, put, drop_item, change, finalize_it,
  send_it, pay, pay_all, void_for, step_invoicing, run_invoicing,
}
use finvoice.Invoicing.Invoice.Laws.{record_payment-Recorded, settled_status, record_payment_atomic}

module _ {N : Type 0} ⦃r : Runtime N⦄ where
  remove_item_atomic :
      (id : Text) (s : Invoice N) {e : Exception}
      → (remove_item id s).0 ≡ err e
      → (remove_item id s).1 ≡ s
  unfolding remove_item
  remove_item_atomic id s h =
      elim (Option-cases (find_index (λ (i : Item N). text_eq i.id id) s.items)) [
        | inl e ↦ ground (arith, e)
        | inr (i, e) ↦ ground (arith, e)
      ]

  update_item_atomic :
      (id : Text) (u : ItemUpdates N) (s : Invoice N) {e : Exception}
      → (update_item id u s).0 ≡ err e
      → (update_item id u s).1 ≡ s
  unfolding update_item
  update_item_atomic id u s h = elim (Option-cases (find_item id s.items)) [
    | inl e ↦ ground (arith, e)
    | inr (e, found) ↦ elim (Result-cases (apply_updates s.currency u e.1)) [
      | inr (x, failed) ↦ ground (arith, found, failed)
      | inl (i, done) ↦ ground (arith, found, done)
    ]
  ]

  -- A method that throws leaves the invoice as it was, `recordPayment` too, which writes the sum
  -- paid before it compares it with the total.
  pub step_invoicing_atomic :
      (c : Call N) (clock : Clock) (s : Invoice N) {e : Exception}
      → (step_invoicing c clock s).0 ≡ err e
      → (step_invoicing c clock s).1 ≡ s
  unfolding step_invoicing add_item finalize send void_it mark_as_paid
  step_invoicing_atomic (put item) clock s h = ground arith
  step_invoicing_atomic (drop_item id) clock s h = remove_item_atomic id s h
  step_invoicing_atomic (change id u) clock s h = update_item_atomic id u s h
  step_invoicing_atomic finalize_it clock s h = ground arith
  step_invoicing_atomic send_it clock s h = ground arith
  step_invoicing_atomic (pay amount) clock s h = record_payment_atomic amount clock s h
  step_invoicing_atomic (pay_all amount) clock s {e} h =
      ground (arith, record_payment_atomic amount clock s {e = e})
  step_invoicing_atomic (void_for why) clock s h = ground arith

-- The status diagram that the methods implement.
infix 40 ◌⟶◌
pub data ◌⟶◌ : InvoiceStatus → InvoiceStatus → Type 0 where
  edit : draft ⟶ draft
  finalizing : draft ⟶ finalized
  sending : finalized ⟶ sent
  paying :
      {s t : InvoiceStatus}
      → (s ≡ sent) ⊎ (s ≡ partially_paid)
      → (t ≡ partially_paid) ⊎ ((t ≡ paid) ⊎ (t ≡ overpaid))
      → s ⟶ t
  voiding : {s : InvoiceStatus} → s ≢ paid → s ≢ voided → s ⟶ voided

-- No edge leaves these.
no_edge : {s t : InvoiceStatus} → (s ≡ paid) ⊎ (s ≡ voided) → s ⟶ t → ⊥
no_edge f edit = ground arith
no_edge f finalizing = ground arith
no_edge f sending = ground arith
no_edge f (paying p q) = ground arith
no_edge f (voiding p q) = ground arith

module _ {N : Type 0} ⦃r : Runtime N⦄ where
  remove_item-⟶ :
      (id : Text) (s : Invoice N)
      → (remove_item id s).0 ≡ ok tt
      → s.status ⟶ (remove_item id s).1.status
  unfolding remove_item
  remove_item-⟶ id s h =
      elim (Option-cases (find_index (λ (i : Item N). text_eq i.id id) s.items)) [
        | inl e ↦ absurd (ground (arith, e))
        | inr (i, e) ↦ grind (arith, e, edit)
      ]

  update_item-⟶ :
      (id : Text) (u : ItemUpdates N) (s : Invoice N)
      → (update_item id u s).0 ≡ ok tt
      → s.status ⟶ (update_item id u s).1.status
  unfolding update_item
  update_item-⟶ id u s h = elim (Option-cases (find_item id s.items)) [
    | inl e ↦ absurd (ground (arith, e))
    | inr (e, found) ↦ elim (Result-cases (apply_updates s.currency u e.1)) [
      | inr (x, failed) ↦ absurd (ground (arith, found, failed))
      | inl (i, done) ↦ grind (arith, found, done, edit)
    ]
  ]

  settled_status_cases :
      (m total : Money N)
      → (settled_status m total ≡ partially_paid)
        ⊎ ((settled_status m total ≡ paid) ⊎ (settled_status m total ≡ overpaid))
  settled_status_cases m total = ground arith

  record_payment-⟶ :
      (amount : Money N) (clock : Clock) (s : Invoice N)
      → (record_payment amount clock s).0 ≡ ok tt
      → s.status ⟶ (record_payment amount clock s).1.status
  record_payment-⟶ amount clock s h =
      let done = record_payment-Recorded amount clock s h in
      paying done.accepts (rw done.result (settled_status_cases done.sum done.total))

  pub mark_as_paid_ok :
      (amount : Money N) (clock : Clock) (s : Invoice N)
      → (mark_as_paid amount clock s).0 ≡ ok tt
      → (total : Money N) × (total_of s.currency s.items ≡ ok total)
        × (equals amount total ≡ true)
        × (mark_as_paid amount clock s ≡ record_payment amount clock s)
  unfolding mark_as_paid
  mark_as_paid_ok amount clock s h = elim (Result-cases (total_of s.currency s.items)) [
    | inl (total, e) ↦ (total, e, ground (arith, e), ground (arith, e))
    | inr (x, e) ↦ absurd (ground (arith, e))
  ]

  -- A method that returns follows an edge of the diagram.
  pub step_invoicing-⟶ :
      (c : Call N) (clock : Clock) (s : Invoice N)
      → (step_invoicing c clock s).0 ≡ ok tt
      → s.status ⟶ (step_invoicing c clock s).1.status
  unfolding step_invoicing add_item finalize send void_it
  step_invoicing-⟶ (put item) clock s h = grind (arith, edit)
  step_invoicing-⟶ (drop_item id) clock s h = remove_item-⟶ id s h
  step_invoicing-⟶ (change id u) clock s h = update_item-⟶ id u s h
  step_invoicing-⟶ finalize_it clock s h = grind (arith, finalizing)
  step_invoicing-⟶ send_it clock s h = grind (arith, sending)
  step_invoicing-⟶ (pay amount) clock s h = record_payment-⟶ amount clock s h
  step_invoicing-⟶ (pay_all amount) clock s h =
      let (_, _, _, same) = mark_as_paid_ok amount clock s h in
      let paid_now : (record_payment amount clock s).0 ≡ ok tt = rw same at h in
      rw same (record_payment-⟶ amount clock s paid_now)
  step_invoicing-⟶ (void_for why) clock s h = grind (arith, voiding)

  -- Paid and void invoices.
  abbrev pub IsFinal : Invoice N → Type 0
  IsFinal s = (s.status ≡ paid) ⊎ (s.status ≡ voided)

  step_invoicing_final :
      (c : Call N) (clock : Clock) (s : Invoice N) → IsFinal s → (step_invoicing c clock s).1 ≡ s
  step_invoicing_final c clock s f = elim (Result-cases (step_invoicing c clock s).0) [
    | inl (tt, h) ↦ absurd (no_edge f (step_invoicing-⟶ c clock s h))
    | inr (e, h) ↦ step_invoicing_atomic c clock s h
  ]

  -- A paid or void invoice never changes again, whatever is called on it.
  pub run_invoicing_final :
      (calls : List (Call N × Clock)) (s : Invoice N) → IsFinal s → run_invoicing calls s ≡ s
  unfolding run_invoicing
  run_invoicing_final [] s f = refl
  run_invoicing_final ((c, clock) ∷ calls) s f =
      rw (step_invoicing_final c clock s f) (run_invoicing_final calls s f)
