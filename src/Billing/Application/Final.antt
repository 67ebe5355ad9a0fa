-- ===== src/Billing/Application/Final.antt =====
-- Stored invoices that are paid or cancelled.
use finvoice.Prelude.{sym}
use finvoice.Prelude.{Option-cases}
use finvoice.Runtime.{Date}
use finvoice.Prelude.{
  ◌≡◌, refl, subst, Bool, true, false, not, ◌||◌, some, List, [], ◌∷◌, find, filter, if◌then◌else◌,
  arith, Bool-cases, inl, inr,
}
use finvoice.Text.{Text, text_eq}
use finvoice.Runtime.{Runtime, Clock}
use finvoice.Text.Laws.{text_eq_iff}
use finvoice.Collection.{IsCollection}
use finvoice.Collection.Keys.{find-true, find-map}
use finvoice.Billing.Invoice.{InvoiceStatus, draft, paid, cancelled, is_status}
use finvoice.Billing.Application.{
  InvoiceDocument, UpdateDto, ShopEnvironment, State, has_id, find_or_throw, mark_sent_at, updated,
  set_items, respond, send_invoice, update_invoice, delete_invoice,
}
use finvoice.Billing.Application.Laws.{docs, send_invoice-docs}

abbrev pub is_final : InvoiceStatus → Bool
is_final status = is_status status paid || is_status status cancelled

-- A call of the service that writes.
pub data ShopCall (N : Type 0) : Type 0 where
  to_update : Text → UpdateDto N → ShopCall N
  to_send to_delete : Text → ShopCall N

module _ {N : Type 0} where
  -- A document is found as before once another one is deleted.
  find-filter-other :
      (k id : Text) (ds : List (InvoiceDocument N))
      → text_eq id k ≡ false
      → find (has_id k) (filter (λ d. not (has_id id d)) ds) ≡ find (has_id k) ds
  find-filter-other k id [] h = refl
  find-filter-other k id (d ∷ ds) h = ground (
    arith,
    text_eq_iff d.id k,
    text_eq_iff d.id id,
    text_eq_iff id k,
    find-filter-other k id ds h,
  )

module _ {N S W : Type 0} ⦃r : Runtime N⦄ (e : ShopEnvironment N S W) where
  open e use {documents}

  unfoldable pub step_shop : ShopCall N → Clock → State e → State e
  step_shop (to_update id u) clock s = (update_invoice e id u clock s).1
  step_shop (to_send id) clock s = (send_invoice e id clock s).1
  step_shop (to_delete id) clock s = (delete_invoice e id s).1

  unfoldable pub run_shop : List (ShopCall N × Clock) → State e → State e
  run_shop [] s = s
  run_shop ((c, clock) ∷ calls) s = run_shop calls (step_shop c clock s)

  module _ (laws : IsCollection S (InvoiceDocument N) documents) where
    -- One document is found under one identifier.
    other_id :
        (k id : Text) (s : State e) (d d' : InvoiceDocument N)
        → find (has_id k) (docs e s) ≡ some d
        → is_final d.status ≡ true
        → find (has_id id) (docs e s) ≡ some d'
        → is_final d'.status ≡ false
        → text_eq id k ≡ false
    other_id k id s d d' here final there open' = elim (Bool-cases (text_eq id k)) [
      | inr other ↦ other
      | inl same ↦
          let q : id ≡ k = (text_eq_iff id k).0 same in
          let both : find (has_id k) (docs e s) ≡ some d' =
            subst (λ j. find (has_id j) (docs e s) ≡ some d') q there in
          absurd (ground (arith, here, both, final, open'))
    ]

    update-other :
        (k id : Text) (f : InvoiceDocument N → InvoiceDocument N) (s : State e)
        (d d' : InvoiceDocument N)
        → ((x : InvoiceDocument N) → (f x).id ≡ x.id)
        → find (has_id k) (docs e s) ≡ some d
        → is_final d.status ≡ true
        → find (has_id id) (docs e s) ≡ some d'
        → is_final d'.status ≡ false
        → find (has_id k) (documents.docs (documents.update (has_id d'.id) f s.invoices)) ≡ some d
    update-other k id f s d d' same here final there open' =
        let other = other_id k id s d d' here final there open' in
        let is_k : text_eq d.id k ≡ true = find-true (has_id k) (docs e s) here in
        let is_id : text_eq d'.id id ≡ true = find-true (has_id id) (docs e s) there in
        let kept =
          find-map (λ (x : InvoiceDocument N). x.id) (λ x. if has_id d'.id x then f x else x) k
            (docs e s) (λ x. ground (arith, same x)) in
        rw (laws.docs-update (has_id d'.id) f s.invoices, kept, here)
          (ground (
            arith,
            text_eq_iff d.id d'.id,
            text_eq_iff d.id k,
            text_eq_iff d'.id id,
            text_eq_iff id k,
            other,
            is_k,
            is_id,
          ))

    respond-state : (id : Text) (s : State e) → (respond e id s).1 ≡ s
    unfolding respond
    respond-state id s = elim (Option-cases (find (has_id id) (docs e s))) [
      | inl missing ↦ ground (arith, missing)
      | inr (d, there) ↦ ground (arith, there)
    ]

    updated-id :
        (u : UpdateDto N) (now : Date) (d : InvoiceDocument N) → (updated u now d).id ≡ d.id
    unfolding updated set_items
    updated-id u now d = elim (Option-cases u.line_items) [
      | inl same ↦ ground (arith, same)
      | inr (items, given) ↦ ground (arith, given)
    ]

    update_invoice-final :
        (id : Text) (u : UpdateDto N) (clock : Clock) (k : Text) (s : State e)
        (d : InvoiceDocument N)
        → find (has_id k) (docs e s) ≡ some d
        → is_final d.status ≡ true
        → find (has_id k) (docs e (update_invoice e id u clock s).1) ≡ some d
    unfolding update_invoice find_or_throw
    update_invoice-final id u clock k s d here final =
        elim (Option-cases (find (has_id id) (docs e s))) [
          | inl missing ↦ ground (arith, missing, here)
          | inr (d', there) ↦ elim (Bool-cases (is_final d'.status)) [
            | inl closed ↦ ground (arith, there, closed, here)
            | inr open' ↦
                let f = updated u (clock 0) in
                let s' : State e = record s {
                  invoices = documents.update (has_id d'.id) f s.invoices;
                } in
                ground (
                  arith,
                  there,
                  open',
                  respond-state id s',
                  update-other k id f s d d' (updated-id u (clock 0)) here final there open',
                )
          ]
        ]

    send_invoice-final :
        (id : Text) (clock : Clock) (k : Text) (s : State e) (d : InvoiceDocument N)
        → find (has_id k) (docs e s) ≡ some d
        → is_final d.status ≡ true
        → find (has_id k) (docs e (send_invoice e id clock s).1) ≡ some d
    send_invoice-final id clock k s d here final =
        elim (Option-cases (find (has_id id) (docs e s))) [
          | inl missing ↦ unfold send_invoice find_or_throw in ground (arith, missing, here)
          | inr (d', there) ↦ elim (Bool-cases (is_status d'.status draft)) [
            | inr other ↦ unfold send_invoice find_or_throw in ground (arith, there, other, here)
            | inl ready ↦
                let open' : is_final d'.status ≡ false = ground (arith, ready) in
                let f = mark_sent_at {N = N} (clock 0) (clock 1) in
                subst (λ ds. find (has_id k) ds ≡ some d)
                  (sym (send_invoice-docs e id clock s there ready))
                  (update-other k id f s d d' (λ x. refl) here final there open')
          ]
        ]

    delete_invoice-final :
        (id : Text) (k : Text) (s : State e) (d : InvoiceDocument N)
        → find (has_id k) (docs e s) ≡ some d
        → is_final d.status ≡ true
        → find (has_id k) (docs e (delete_invoice e id s).1) ≡ some d
    unfolding delete_invoice find_or_throw
    delete_invoice-final id k s d here final = elim (Option-cases (find (has_id id) (docs e s))) [
      | inl missing ↦ ground (arith, missing, here)
      | inr (d', there) ↦ elim (Bool-cases (is_status d'.status draft)) [
        | inr other ↦ ground (arith, there, other, here)
        | inl ready ↦
            let open' : is_final d'.status ≡ false = ground (arith, ready) in
            ground (
              arith,
              there,
              ready,
              here,
              laws.docs-remove (has_id id) s.invoices,
              find-filter-other k id (docs e s) (other_id k id s d d' here final there open'),
            )
      ]
    ]

    step_shop-final :
        (c : ShopCall N) (clock : Clock) (k : Text) (s : State e) (d : InvoiceDocument N)
        → find (has_id k) (docs e s) ≡ some d
        → is_final d.status ≡ true
        → find (has_id k) (docs e (step_shop c clock s)) ≡ some d
    unfolding step_shop
    step_shop-final (to_update id u) clock k s d here final =
        update_invoice-final id u clock k s d here final
    step_shop-final (to_send id) clock k s d here final =
        send_invoice-final id clock k s d here final
    step_shop-final (to_delete id) clock k s d here final = delete_invoice-final id k s d here final

    -- An invoice that is paid or cancelled is what it was after any sequence of calls.
    pub run_shop-final :
        (calls : List (ShopCall N × Clock)) (k : Text) (s : State e) (d : InvoiceDocument N)
        → find (has_id k) (docs e s) ≡ some d
        → is_final d.status ≡ true
        → find (has_id k) (docs e (run_shop calls s)) ≡ some d
    unfolding run_shop
    run_shop-final [] k s d here final = here
    run_shop-final ((c, clock) ∷ calls) k s d here final =
        run_shop-final calls k (step_shop c clock s) d (step_shop-final c clock k s d here final)
          final
