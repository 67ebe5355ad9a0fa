-- ===== src/Payment/Laws.antt =====
-- What holds of every payment between two calls. Amounts that are refunded are numbers: NaN passes
-- every guard of `refund` (see Payment/Refunds).
use finvoice.Prelude.{◌≡◌, ◌≢◌, true, false, Option, none, some, List, [], ◌∷◌, ◌⊎◌, arith, All}
use finvoice.Text.{Text}
use finvoice.Text.Laws.{IsClean, trim-IsClean}
use finvoice.Outcome.{ok}
use finvoice.Runtime.{Runtime, IsOrdered, Clock, nought, le, truthy, or_else}
use finvoice.Payment.{
  PaymentMethod, pending, processing, completed, refunded, Payment, create, mark_as_processing,
  mark_as_completed, mark_as_failed, refund, cancel, is_fully_refunded, exceeds, clear_events,
}
use finvoice.Payment.Diagram.{
  Call, process, cancel_it, clear_it, complete, fail, give_back, step_payment,
}

module _ {N : Type 0} ⦃r : Runtime N⦄ where
  -- Between zero and the amount that was paid.
  abbrev pub Within : Option N → N → Type 0
  Within none amount = Unit
  Within (some sum) amount = (r.lt nought sum ≡ true) × (r.lt amount sum ≡ false)

  pub record IsConsistent (s : Payment N) : Type 0 where
    pub invoice : IsClean s.invoice_id
    pub amount_pos : le s.amount nought ≡ false
    pub transaction :
        (s.status ≡ completed) ⊎ (s.status ≡ refunded)
        → (s.gateway_transaction_id ≢ none) × (s.processed_at ≢ none)
    pub refund_within : Within s.refunded_amount s.amount
    pub unrefunded : (s.status ≡ pending) ⊎ (s.status ≡ processing) → s.refunded_amount ≡ none
    pub full : s.status ≡ refunded → is_fully_refunded s ≡ true
    pub partial : s.status ≡ completed → is_fully_refunded s ≡ false

  -- A refund asks for a number.
  abbrev pub IsNumeric : Call N → Type 0
  IsNumeric (give_back amount reason) = r.eq amount amount ≡ true
  IsNumeric _ = Unit

  module _ (laws : IsOrdered N) where
    pub positive : (a : N) → r.eq a a ≡ true → le a nought ≡ false → r.lt nought a ≡ true
    positive a n h = ground (arith, laws.lt_total a nought, laws.nought_eq)

    pub positive-truthy : (a : N) → r.lt nought a ≡ true → truthy a ≡ true
    positive-truthy a h =
        ground (arith, laws.eq_of_lt nought a, laws.lt-eq a nought nought, laws.lt_irrefl nought)

    -- The new sum of a refund that passes the guards.
    sum-Within :
        (before : Option N) (amount total : N)
        → r.eq amount amount ≡ true
        → le amount nought ≡ false
        → r.lt total amount ≡ false
        → exceeds before amount total ≡ false
        → Within before total
        → Within (some (r.add (or_else before nought) amount)) total
    sum-Within none amount total n p h e w =
        let pos = positive amount n p in rw (laws.add_nought amount pos) (pos, h)
    sum-Within (some sum) amount total n p h e w = ground (
      arith,
      positive amount n p,
      positive-truthy sum w.0,
      laws.add_pos amount sum,
      laws.lt_asymm nought sum,
      laws.eq_of_lt nought sum,
    )

    pub refund-IsConsistent :
        (amount : N) (reason : Text) (clock : Clock) (s : Payment N)
        → r.eq amount amount ≡ true
        → IsConsistent s
        → IsConsistent (refund amount reason clock s).1
    unfolding refund is_fully_refunded
    refund-IsConsistent amount reason clock s n h =
        ground (arith, sum-Within s.refunded_amount amount s.amount n)

    -- Every method, whether it throws or not, keeps the invariant.
    pub step_payment-IsConsistent :
        (c : Call N) (clock : Clock) (s : Payment N)
        → IsNumeric c
        → IsConsistent s
        → IsConsistent (step_payment c clock s).1
    unfolding step_payment clear_events mark_as_processing mark_as_completed mark_as_failed cancel
        is_fully_refunded
    step_payment-IsConsistent process clock s n h = ground arith
    step_payment-IsConsistent cancel_it clock s n h = ground arith
    step_payment-IsConsistent clear_it clock s n h = ground arith
    step_payment-IsConsistent (complete transaction) clock s n h = ground arith
    step_payment-IsConsistent (fail reason error) clock s n h = ground arith
    step_payment-IsConsistent (give_back amount reason) clock s n h =
        refund-IsConsistent amount reason clock s n h

  -- A sequence of calls: a caller that catches an exception goes on with the payment.
  unfoldable pub run_payment : List (Call N × Clock) → Payment N → Payment N
  run_payment [] s = s
  run_payment ((c, clock) ∷ calls) s = run_payment calls (step_payment c clock s).1

  module _ (laws : IsOrdered N) where
    pub create-IsConsistent :
        (id invoice_id : Text) (amount : N) (currency : Text) (m : PaymentMethod)
        (gateway : Option Text) (s : Payment N)
        → create id invoice_id amount currency m gateway ≡ ok s
        → IsConsistent s
    unfolding create
    create-IsConsistent id invoice_id amount currency m gateway s h =
        ground (arith, trim-IsClean invoice_id)

    run_payment-IsConsistent :
        (calls : List (Call N × Clock)) (s : Payment N)
        → All (λ (c : Call N × Clock). IsNumeric c.0) calls
        → IsConsistent s
        → IsConsistent (run_payment calls s)
    unfolding run_payment
    run_payment-IsConsistent [] s n h = h
    run_payment-IsConsistent ((c, clock) ∷ calls) s (n, ns) h =
        run_payment-IsConsistent calls (step_payment c clock s).1 ns
          (step_payment-IsConsistent laws c clock s n h)

    -- Every payment that `create` returns and any calls then reach, with numbers as refunds, keeps
    -- the invariant: the sum refunded is positive and not above the amount paid, and a payment
    -- that is refunded, and no completed one, has it all refunded.
    pub created_payment-IsConsistent :
        (id invoice_id : Text) (amount : N) (currency : Text) (m : PaymentMethod)
        (gateway : Option Text) (s : Payment N) (calls : List (Call N × Clock))
        → create id invoice_id amount currency m gateway ≡ ok s
        → All (λ (c : Call N × Clock). IsNumeric c.0) calls
        → IsConsistent (run_payment calls s)
    created_payment-IsConsistent id invoice_id amount currency m gateway s calls h n =
        run_payment-IsConsistent calls s n
          (create-IsConsistent id invoice_id amount currency m gateway s h)
