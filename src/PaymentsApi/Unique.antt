-- ===== src/PaymentsApi/Unique.antt =====
-- Sequences of the calls of `PaymentsController` that write.
use finvoice.Prelude.{
  ◌||◌, ◌≡◌, sym, subst, not, List, [], ◌∷◌, find, if◌then◌else◌, arith, Bool-cases, Option-cases,
  inl, inr,
}
use finvoice.Text.{Text, text, text_eq}
use finvoice.Outcome.{Result-cases}
use finvoice.Runtime.{Clock}
use finvoice.Collection.{IsCollection}
use finvoice.Collection.Keys.{
  KeysDistinct, KeysDistinct-append, KeysDistinct-map, KeysDistinct-filter,
}
use finvoice.PaymentsApi.{
  CreatePaymentDto, PaymentDocument, StatusDto, PaymentsEnvironment, State, has_id, has_payment_id,
  payment_data, is_valid_payment, save_new, with_status, find_or_throw, create_payment,
  update_payment_status, delete_payment,
}
use finvoice.PaymentsApi.Guards.{docs, respond-state, update_payment_status-state}

-- `id` is the identifier that MongoDB gives a new payment.
pub data PaymentCall (N : Type 0) : Type 0 where
  to_create : CreatePaymentDto N → (id : Text) → PaymentCall N
  to_status : (id : Text) → StatusDto → PaymentCall N
  to_delete : (id : Text) → PaymentCall N

module _ {N S W : Type 0} (e : PaymentsEnvironment N S W) where
  open e use {documents}

  unfoldable pub run_call : PaymentCall N → Clock → State e → State e
  run_call (to_create dto id) clock s = (create_payment e dto id clock s).1
  run_call (to_status id dto) clock s = (update_payment_status e id dto clock s).1
  run_call (to_delete id) clock s = (delete_payment e id s).1

  unfoldable pub run_payments : List (PaymentCall N × Clock) → State e → State e
  run_payments [] s = s
  run_payments ((c, clock) ∷ calls) s = run_payments calls (run_call c clock s)

  abbrev pub AreUnique : State e → Type 0
  AreUnique s = KeysDistinct (λ (d : PaymentDocument N). d.payment_id) (docs e s)

  module _ (laws : IsCollection S (PaymentDocument N) documents) where
    save_new-AreUnique :
        (d : PaymentDocument N) (s : State e) → AreUnique s → AreUnique (save_new e d s).1
    unfolding save_new
    save_new-AreUnique d s h = elim (Bool-cases (is_valid_payment d)) [
      | inr bad ↦ ground (arith, bad, h)
      | inl good ↦ elim (Option-cases (find (has_payment_id d.payment_id) (docs e s))) [
        | inr (d', there) ↦ ground (arith, good, there, h)
        | inl new ↦
            let same : (save_new e d s).1 ≡ record s { payments = documents.insert d s.payments } =
              ground (arith, good, new) in
            subst AreUnique (sym same) (
              rw (laws.docs-insert d s.payments)
                (KeysDistinct-append (λ x. x.payment_id) (docs e s) d new h))
      ]
    ]

    -- What follows the save only writes to the world.
    create_payment-docs :
        (dto : CreatePaymentDto N) (id : Text) (clock : Clock) (s : State e)
        → docs e (create_payment e dto id clock s).1
          ≡ docs e (save_new e (payment_data dto id clock) s).1
    unfolding create_payment
    create_payment-docs dto id clock s =
        let m = save_new e (payment_data dto id clock) s in
        let job =
          e.add_job (text "payment-processing") (text "process-payment") dto.payment_id
            (text "process") m.1.world in
        let s' : State e = record m.1 { world = job.1 } in
        elim (Result-cases m.0) [
          | inr (x, bad) ↦ ground (arith, bad)
          | inl (_, good) ↦ elim (Result-cases job.0) [
            | inr (x, bad) ↦ ground (arith, good, bad)
            | inl (_, good') ↦ ground (
              arith,
              good,
              good',
              respond-state e (find (has_payment_id dto.payment_id) (docs e s')) s',
            )
          ]
        ]

    run_call-AreUnique :
        (c : PaymentCall N) (clock : Clock) (s : State e)
        → AreUnique s
        → AreUnique (run_call c clock s)
    unfolding run_call delete_payment find_or_throw update_payment_status with_status
    run_call-AreUnique (to_create dto id) clock s h =
        rw (create_payment-docs dto id clock s) (save_new-AreUnique (payment_data dto id clock) s h)
    run_call-AreUnique (to_status id dto) clock s h =
        elim (Option-cases (find (has_id id) (docs e s))) [
          | inl missing ↦ ground (arith, missing, h)
          | inr (d, there) ↦
              let same : (d : PaymentDocument N)
                  → (if has_id id d then with_status dto clock d else d).payment_id ≡ d.payment_id =
                λ d. ground arith in
              rw
                (
                  update_payment_status-state e id dto clock s d there,
                  laws.docs-update (has_id id) (with_status dto clock) s.payments,
                )
                (KeysDistinct-map (λ x. x.payment_id)
                  (λ d. if has_id id d then with_status dto clock d else d) (docs e s) same h)
        ]
    run_call-AreUnique (to_delete id) clock s h =
        elim (Option-cases (find (has_id id) (docs e s))) [
          | inl missing ↦ ground (arith, missing, h)
          | inr (d, there) ↦
              elim (Bool-cases
                (text_eq d.status (text "completed") || text_eq d.status (text "processing"))) [
                  | inl refused ↦ ground (arith, there, refused, h)
                  | inr free ↦
                      let same : (delete_payment e id s).1
                          ≡ record s { payments = documents.remove (has_id id) s.payments } =
                        ground (arith, there, free) in
                      rw (same, laws.docs-remove (has_id id) s.payments)
                        (KeysDistinct-filter (λ x. x.payment_id) (λ d. not (has_id id d)) (docs e s)
                          h)
                ]
        ]

    -- In any sequence of creations, status updates and deletions, whatever the job service does, no two
    -- stored payments get the same payment identifier.
    pub run_payments-AreUnique :
        (calls : List (PaymentCall N × Clock)) (s : State e)
        → AreUnique s
        → AreUnique (run_payments calls s)
    unfolding run_payments
    run_payments-AreUnique [] s h = h
    run_payments-AreUnique ((c, clock) ∷ calls) s h =
        run_payments-AreUnique calls (run_call c clock s) (run_call-AreUnique c clock s h)
