-- ===== src/Payment/Diagram.antt =====
-- The status diagram of a payment, and what a call that throws leaves behind.
use finvoice.Prelude.{◌⊎◌, inl, inr, refl, [], ◌≡◌, ◌≢◌, false, Option, arith}
use finvoice.Text.{Text, is_blank}
use finvoice.Outcome.{ok, err, Exception, Method}
use finvoice.Runtime.{Runtime, Clock}
use finvoice.Payment.{
  PaymentStatus, pending, processing, completed, failed, cancelled, refunded, Payment,
  mark_as_processing, mark_as_completed, mark_as_failed, refund, cancel, clear_events,
}

-- A call of a method that mutates the payment.
pub data Call (N : Type 0) : Type 0 where
  process cancel_it clear_it : Call N
  complete : Text → Call N
  fail : Text → Option Text → Call N
  give_back : N → Text → Call N

infix 40 ◌⟶◌
pub data ◌⟶◌ : PaymentStatus → PaymentStatus → Type 0 where
  starting : pending ⟶ processing
  completing_now : pending ⟶ completed
  completing : processing ⟶ completed
  refunding_part : completed ⟶ completed
  refunding_all : completed ⟶ refunded
  failing : {s : PaymentStatus} → s ≢ completed → s ⟶ failed
  cancelling : {s : PaymentStatus} → s ≢ completed → s ≢ cancelled → s ⟶ cancelled

module _ {N : Type 0} ⦃r : Runtime N⦄ where
  unfoldable pub step_payment : Call N → Clock → Method (Payment N) (Unit {0})
  step_payment process clock = mark_as_processing
  step_payment cancel_it clock = cancel
  step_payment clear_it clock = clear_events
  step_payment (complete transaction) clock = mark_as_completed transaction clock
  step_payment (fail reason error) clock = mark_as_failed reason error clock
  step_payment (give_back amount reason) clock = refund amount reason clock

  -- A method that throws leaves the payment as it was, with no event added.
  pub step_payment_atomic :
      (c : Call N) (clock : Clock) (s : Payment N) {e : Exception}
      → (step_payment c clock s).0 ≡ err e
      → (step_payment c clock s).1 ≡ s
  unfolding step_payment clear_events mark_as_processing mark_as_completed mark_as_failed refund
      cancel
  step_payment_atomic process clock s h = ground arith
  step_payment_atomic cancel_it clock s h = ground arith
  step_payment_atomic clear_it clock s h = ground arith
  step_payment_atomic (complete transaction) clock s h = ground arith
  step_payment_atomic (fail reason error) clock s h = ground arith
  step_payment_atomic (give_back amount reason) clock s h = ground arith

  -- A method that returns follows an edge of the diagram, or only takes the events away.
  pub step_payment-⟶ :
      (c : Call N) (clock : Clock) (s : Payment N)
      → (step_payment c clock s).0 ≡ ok tt
      → (s.status ⟶ (step_payment c clock s).1.status)
        ⊎ ((step_payment c clock s).1 ≡ record s { events = [] })
  unfolding step_payment clear_events mark_as_processing mark_as_completed mark_as_failed refund
      cancel
  step_payment-⟶ process clock s h = inl (grind (arith, starting))
  step_payment-⟶ cancel_it clock s h = inl (grind (arith, cancelling))
  step_payment-⟶ clear_it clock s h = inr refl
  step_payment-⟶ (complete transaction) clock s h = inl (grind (arith, completing, completing_now))
  step_payment-⟶ (fail reason error) clock s h = inl (grind (arith, failing))
  step_payment-⟶ (give_back amount reason) clock s h =
      inl (grind (arith, refunding_part, refunding_all))

  -- A refunded payment can be marked as failed, with a reason that is not blank, and can be
  -- cancelled.
  pub refunded_fails :
      (reason : Text) (error : Option Text) (clock : Clock) (s : Payment N)
      → s.status ≡ refunded
      → is_blank reason ≡ false
      → ((mark_as_failed reason error clock s).0 ≡ ok tt)
        × ((mark_as_failed reason error clock s).1.status ≡ failed)
        × ((cancel s).0 ≡ ok tt)
        × ((cancel s).1.status ≡ cancelled)
  unfolding mark_as_failed cancel
  refunded_fails reason error clock s h b = ground arith
