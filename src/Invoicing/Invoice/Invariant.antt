-- ===== src/Invoicing/Invoice/Invariant.antt =====
-- What holds of every invoice of the module between two calls.
use finvoice.Prelude.{
  find_index, ◌≡◌, ◌≢◌, refl, ◌≤◌, ◌<◌, ◌⊎◌, Option, none, some, List, [], ◌∷◌, inl, inr, arith,
  All, All-append, All-set, All-remove_at, length, length-append, length-set, Option-cases,
}
use finvoice.Text.{Text, text_eq}
use finvoice.Text.Laws.{text_eq_iff}
use finvoice.Outcome.{ok, Result-cases}
use finvoice.Runtime.{Runtime, Clock, Date}
use finvoice.Invoicing.Number.{InvoiceNumber}
use finvoice.Invoicing.Money.{Money}
use finvoice.Invoicing.Item.{Item, IsItem}
use finvoice.Invoicing.Invoice.{
  InvoiceStatus, draft, partially_paid, paid, overdue, cancelled, voided, overpaid, status_code,
  InvoiceType, InvoiceFrequency, recurring, Invoice, ItemUpdates, create, add_item, remove_item,
  update_item, find_item, apply_updates, total_of,
}
use finvoice.Invoicing.Invoice.Items.{Fits, find_item-Fits, apply_updates-Fits}
use finvoice.Invoicing.Invoice.Payments.{
  finalize, send, void_it, record_payment, mark_as_paid, Call, put, drop_item, change, finalize_it,
  send_it, pay, pay_all, void_for, step_invoicing, run_invoicing,
}
use finvoice.Invoicing.Invoice.Laws.{settled_status, record_payment_lem}

-- The status is one that a payment gives.
abbrev pub HasPayment : InvoiceStatus → Type 0
HasPayment status = (status ≡ partially_paid) ⊎ ((status ≡ paid) ⊎ (status ≡ overpaid))

module _ {N : Type 0} ⦃r : Runtime N⦄ where
  -- The recorded sum is in the currency of the invoice, and the status is what its comparison with
  -- the total gives.
  unfoldable pub IsSettled : InvoiceStatus → Option (Money N) → Text → List (Item N) → Type 0
  IsSettled status paid_amount currency items =
      (sum : Money N) × (total : Money N) × (paid_amount ≡ some sum)
      × (total_of currency items ≡ ok total)
      × (sum.currency ≡ currency)
      × (total.currency ≡ currency)
      × (status ≡ settled_status sum total)

  pub record IsConsistent (s : Invoice N) : Type 0 where
    pub items_fit : All (Fits s.currency) s.items
    pub repeats : s.type ≡ recurring → s.frequency ≢ none
    pub has_items : s.status ≢ draft → s.status ≢ voided → 0 < length s.items
    pub unused : (s.status ≢ overdue) × (s.status ≢ cancelled)
    pub unpaid : status_code s.status ≤ 2 → s.paid_amount ≡ none
    pub settled : HasPayment s.status → IsSettled s.status s.paid_amount s.currency s.items
    pub paid_dated : s.status ≡ paid → s.paid_at ≢ none
    pub void_dated : s.status ≡ voided → (s.voided_at ≢ none) × (s.void_reason ≢ none)

  pub add_item-IsConsistent :
      (item : Item N) (s : Invoice N)
      → IsItem item
      → IsConsistent s
      → IsConsistent (add_item item s).1
  unfolding add_item
  add_item-IsConsistent item s v h = ground (
    arith,
    length-append s.items (item ∷ []),
    text_eq_iff item.unit_price.currency s.currency,
    All-append (Fits s.currency) s.items (item ∷ []),
  )

  finalize-IsConsistent :
      (clock : Clock) (s : Invoice N) → IsConsistent s → IsConsistent (finalize clock s).1
  unfolding finalize
  finalize-IsConsistent clock s h = ground arith

  send-IsConsistent :
      (clock : Clock) (s : Invoice N) → IsConsistent s → IsConsistent (send clock s).1
  unfolding send
  send-IsConsistent clock s h = ground arith

  void_it-IsConsistent :
      (why : Text) (clock : Clock) (s : Invoice N)
      → IsConsistent s
      → IsConsistent (void_it why clock s).1
  unfolding void_it
  void_it-IsConsistent why clock s h = ground arith

  record_payment-IsConsistent :
      (amount : Money N) (clock : Clock) (s : Invoice N)
      → IsConsistent s
      → IsConsistent (record_payment amount clock s).1
  unfolding IsSettled
  record_payment-IsConsistent amount clock s h = elim (record_payment_lem amount clock s) [
    | inl (e, same) ↦ rw same h
    | inr (s', same, done) ↦
        rw (same, done.result)
          (record {
            items_fit = h.items_fit;
            repeats = h.repeats;
            has_items = λ _ _. ground (arith, h, done.accepts);
            unused = ground arith;
            unpaid = λ k. absurd (ground arith);
            settled = λ _.
                (done.sum, done.total, refl, done.is_total, done.common.0, done.common.1, refl);
            paid_dated = λ k. ground arith;
            void_dated = λ k. absurd (ground arith);
          })
  ]

  mark_as_paid-IsConsistent :
      (amount : Money N) (clock : Clock) (s : Invoice N)
      → IsConsistent s
      → IsConsistent (mark_as_paid amount clock s).1
  unfolding mark_as_paid
  mark_as_paid-IsConsistent amount clock s h =
      ground (arith, record_payment-IsConsistent amount clock s h)

  remove_item-IsConsistent :
      (id : Text) (s : Invoice N) → IsConsistent s → IsConsistent (remove_item id s).1
  unfolding remove_item
  remove_item-IsConsistent id s h =
      elim (Option-cases (find_index (λ (i : Item N). text_eq i.id id) s.items)) [
        | inl e ↦ ground (arith, e)
        | inr (i, e) ↦ ground (arith, e, All-remove_at (Fits s.currency) s.items i)
      ]

  update_item-IsConsistent :
      (id : Text) (u : ItemUpdates N) (s : Invoice N)
      → IsConsistent s
      → IsConsistent (update_item id u s).1
  unfolding update_item
  update_item-IsConsistent id u s h = elim (Option-cases (find_item id s.items)) [
    | inl e ↦ ground (arith, e)
    | inr (e, found) ↦ elim (Result-cases (apply_updates s.currency u e.1)) [
      | inr (x, failed) ↦ ground (arith, found, failed)
      | inl (i, done) ↦
          let fits =
            apply_updates-Fits s.currency u e.1 i
              (find_item-Fits s.currency id s.items e h.items_fit found) done in
          ground (
            arith,
            found,
            done,
            length-set s.items e.0 i,
            All-set (Fits s.currency) s.items e.0 i fits h.items_fit,
          )
    ]
  ]

  -- An item that is added comes from the constructor.
  abbrev pub IsBuilt : Call N → Type 0
  IsBuilt (put item) = IsItem item
  IsBuilt _ = Unit

  pub step_invoicing-IsConsistent :
      (c : Call N) (clock : Clock) (s : Invoice N)
      → IsBuilt c
      → IsConsistent s
      → IsConsistent (step_invoicing c clock s).1
  unfolding step_invoicing
  step_invoicing-IsConsistent (put item) clock s v h = add_item-IsConsistent item s v h
  step_invoicing-IsConsistent (drop_item id) clock s v h = remove_item-IsConsistent id s h
  step_invoicing-IsConsistent (change id u) clock s v h = update_item-IsConsistent id u s h
  step_invoicing-IsConsistent finalize_it clock s v h = finalize-IsConsistent clock s h
  step_invoicing-IsConsistent send_it clock s v h = send-IsConsistent clock s h
  step_invoicing-IsConsistent (pay amount) clock s v h =
      record_payment-IsConsistent amount clock s h
  step_invoicing-IsConsistent (pay_all amount) clock s v h =
      mark_as_paid-IsConsistent amount clock s h
  step_invoicing-IsConsistent (void_for why) clock s v h = void_it-IsConsistent why clock s h

  run_invoicing-IsConsistent :
      (calls : List (Call N × Clock)) (s : Invoice N)
      → All (λ (c : Call N × Clock). IsBuilt c.0) calls
      → IsConsistent s
      → IsConsistent (run_invoicing calls s)
  unfolding run_invoicing
  run_invoicing-IsConsistent [] s v h = h
  run_invoicing-IsConsistent ((c, clock) ∷ calls) s (v, vs) h =
      run_invoicing-IsConsistent calls (step_invoicing c clock s).1 vs
        (step_invoicing-IsConsistent c clock s v h)

  pub create-IsConsistent :
      (id : Text) (number : InvoiceNumber) (client_id issued_by : Text) (type : InvoiceType)
      (currency : Text) (due_date : Date) (project_id : Option Text)
      (frequency : Option InvoiceFrequency) (notes : Option Text) (clock : Clock) (s : Invoice N)
      → create id number client_id issued_by type currency due_date project_id frequency notes clock
        ≡ ok s
      → IsConsistent s
  unfolding create
  create-IsConsistent id number client_id issued_by type currency due_date project_id frequency
        notes clock s h =
      ground arith

  -- Every invoice that `create` returns and any calls then reach, with items from their
  -- constructor, keeps the invariant: its items are valid and in its currency; past the draft and
  -- not void it has an item; no status is overdue or cancelled; nothing is recorded as paid before
  -- it is sent; and it is paid, partially paid or overpaid as the sum recorded equals its total, is
  -- below it or is neither, in its currency.
  pub created_invoicing-IsConsistent :
      (id : Text) (number : InvoiceNumber) (client_id issued_by : Text) (type : InvoiceType)
      (currency : Text) (due_date : Date) (project_id : Option Text)
      (frequency : Option InvoiceFrequency) (notes : Option Text) (clock : Clock) (s : Invoice N)
      (calls : List (Call N × Clock))
      → create id number client_id issued_by type currency due_date project_id frequency notes clock
        ≡ ok s
      → All (λ (c : Call N × Clock). IsBuilt c.0) calls
      → IsConsistent (run_invoicing calls s)
  created_invoicing-IsConsistent id number client_id issued_by type currency due_date project_id
        frequency notes clock s calls h v =
      run_invoicing-IsConsistent calls s v (
        create-IsConsistent id number client_id issued_by type currency due_date project_id
          frequency notes clock s h)
