-- ===== src/PaymentsApi/Guards.antt =====
-- The guard on the deletion of a payment, `deletePayment` of `PaymentsController`, and the status
-- update that goes round it.
use finvoice.Prelude.{
  none, Option, ◌≡◌, refl, ap, false, not, some, List, [], ◌∷◌, map, find, filter, if◌then◌else◌,
  arith, Bool-cases, inl, inr,
}
use finvoice.Text.{Text, text, text_eq}
use finvoice.Text.Laws.{text_eq_iff}
use finvoice.Outcome.{err, bad_request}
use finvoice.Runtime.{Clock}
use finvoice.Collection.{IsCollection}
use finvoice.Collection.Keys.{find-true, find-map}
use finvoice.PaymentsApi.{
  PaymentDocument, StatusDto, PaymentsEnvironment, State, has_id, with_status, find_or_throw,
  respond, update_payment_status, delete_payment,
}

module _ {N : Type 0} where
  -- The update of one document of a list.
  abbrev at_id :
      (k : Text) → (PaymentDocument N → PaymentDocument N) → PaymentDocument N → PaymentDocument N
  at_id k f d = if has_id k d then f d else d

  -- A document that is removed anyway may be changed before.
  filter-map :
      (id : Text) (f : PaymentDocument N → PaymentDocument N) (ds : List (PaymentDocument N))
      → ((d : PaymentDocument N) → (f d).id ≡ d.id)
      → filter (λ d. not (has_id id d)) (map (at_id id f) ds) ≡ filter (λ d. not (has_id id d)) ds
  filter-map id f [] h = refl
  filter-map id f (d ∷ ds) h = elim (Bool-cases (has_id id d)) [
    | inl same ↦ rw (same, h d, same) (filter-map id f ds h)
    | inr other ↦ rw (other, other) (ap (λ xs. d ∷ xs) (filter-map id f ds h))
  ]

  with_status-id :
      (dto : StatusDto) (clock : Clock) (d : PaymentDocument N)
      → (with_status dto clock d).id ≡ d.id
  unfolding with_status
  with_status-id dto clock d = refl

  with_status-status :
      (dto : StatusDto) (clock : Clock) (d : PaymentDocument N)
      → (with_status dto clock d).status ≡ dto.status
  unfolding with_status
  with_status-status dto clock d = refl

  at_id-id :
      (k : Text) (f : PaymentDocument N → PaymentDocument N)
      → ((d : PaymentDocument N) → (f d).id ≡ d.id)
      → (d : PaymentDocument N) → (at_id k f d).id ≡ d.id
  at_id-id k f h d = ground (arith, h d)

module _ {N S W : Type 0} (e : PaymentsEnvironment N S W) where
  open e use {documents}

  abbrev pub docs : State e → List (PaymentDocument N)
  docs s = documents.docs s.payments

  delete_payment-found :
      (id : Text) (s : State e) (d : PaymentDocument N)
      → find (has_id id) (docs s) ≡ some d
      → text_eq d.status (text "completed") ≡ false
      → text_eq d.status (text "processing") ≡ false
      → (delete_payment e id s).1 ≡ record s { payments = documents.remove (has_id id) s.payments }
  unfolding delete_payment find_or_throw
  delete_payment-found id s d found c p = ground (arith, found, c, p)

  pub respond-state : (o : Option (PaymentDocument N)) (s : State e) → (respond e o s).1 ≡ s
  unfolding respond
  respond-state none s = refl
  respond-state (some d) s = refl

  pub update_payment_status-state :
      (id : Text) (dto : StatusDto) (clock : Clock) (s : State e) (d : PaymentDocument N)
      → find (has_id id) (docs s) ≡ some d
      → (update_payment_status e id dto clock s).1
        ≡ record s { payments = documents.update (has_id id) (with_status dto clock) s.payments }
  unfolding update_payment_status find_or_throw
  update_payment_status-state id dto clock s d found =
      let same : d.id ≡ id = (text_eq_iff d.id id).0 (find-true (has_id id) (docs s) found) in
      let s' : State e = record s {
        payments = documents.update (has_id id) (with_status dto clock) s.payments;
      } in
      ground (arith, found, same, respond-state (find (has_id id) (docs s')) s')

  -- A payment that is completed cannot be deleted, and the refusal changes nothing. But after a status
  -- update to anything except completed and processing, which is accepted in every status, the
  -- deletion goes through: the payment is gone, and the others are what they were.
  pub delete_payment_reset :
      (laws : IsCollection S (PaymentDocument N) documents) (id : Text) (dto : StatusDto)
      (clock : Clock) (s : State e) (d : PaymentDocument N)
      → find (has_id id) (docs s) ≡ some d
      → d.status ≡ text "completed"
      → text_eq dto.status (text "completed") ≡ false
      → text_eq dto.status (text "processing") ≡ false
      → (delete_payment e id s
          ≡ (err (bad_request "Cannot delete payment with status: {}" (text "completed" ∷ [])), s))
        × (docs (delete_payment e id (update_payment_status e id dto clock s).1).1
            ≡ filter (λ x. not (has_id id x)) (docs s))
  unfolding delete_payment find_or_throw
  delete_payment_reset laws id dto clock s d found done c p =
      let f = with_status {N = N} dto clock in
      let s' : State e = record s { payments = documents.update (has_id id) f s.payments } in
      let there : find (has_id id) (docs s') ≡ some (f d) =
        rw
          (
            laws.docs-update (has_id id) f s.payments,
            find-map (λ (x : PaymentDocument N). x.id) (at_id id f) id (docs s)
                (at_id-id id f (with_status-id dto clock)),
            found,
            (text_eq_iff d.id id).1
                ((text_eq_iff d.id id).0 (find-true (has_id id) (docs s) found)),
          )
          refl in
      (
        ground (arith, found, done),
        rw
            (
              update_payment_status-state id dto clock s d found,
              delete_payment-found id s' (f d) there (rw (with_status-status dto clock d) c)
                  (rw (with_status-status dto clock d) p),
              laws.docs-remove (has_id id) s'.payments,
              laws.docs-update (has_id id) f s.payments,
            )
            (filter-map id f (docs s) (with_status-id dto clock)),
      )
