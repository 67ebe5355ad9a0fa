-- ===== src/Payment/Refunds.antt =====
-- The ledger of refunds: what is recorded as refunded against the events that report refunds.
use mathlib.Core.List.{append-nil}
use finvoice.Prelude.{
  ℕ, ◌≡◌, refl, ap, ◌∙◌, true, false, Option, none, some, List, [], ◌∷◌, ◌++◌, arith, foldl, All,
}
use finvoice.Text.{Text, is_blank}
use finvoice.Outcome.{ok}
use finvoice.Runtime.{Runtime, IsOrdered, Clock, nought, le, or_else}
use finvoice.Payment.{
  PaymentEvent, payment_processed, payment_failed, payment_refunded, completed, refunded, Payment,
  mark_as_processing, mark_as_completed, mark_as_failed, refund, cancel, exceeds,
}
use finvoice.Payment.Diagram.{
  Call, process, cancel_it, clear_it, complete, fail, give_back, step_payment,
}
use finvoice.Payment.Laws.{
  positive, refund-IsConsistent, positive-truthy, IsConsistent, IsNumeric, run_payment,
  step_payment-IsConsistent,
}

module _ {N : Type 0} where
  -- The amounts of the refund events, in order.
  abbrev pub refund_amounts : List (PaymentEvent N) → List N
  refund_amounts [] = []
  refund_amounts (payment_refunded _ a _ _ ∷ es) = a ∷ refund_amounts es
  refund_amounts (_ ∷ es) = refund_amounts es

  refund_amounts-append :
      (es : List (PaymentEvent N)) (e : PaymentEvent N)
      → refund_amounts (es ++ (e ∷ [])) ≡ refund_amounts es ++ refund_amounts (e ∷ [])
  refund_amounts-append [] e = refl
  refund_amounts-append (payment_refunded _ a _ _ ∷ es) e =
      ap (λ t. a ∷ t) (refund_amounts-append es e)
  refund_amounts-append (_ ∷ es) e = refund_amounts-append es e

  foldl-snoc :
      (f : N → N → N) (z : N) (xs : List N) (x : N)
      → foldl f z (xs ++ (x ∷ [])) ≡ f (foldl f z xs) x
  foldl-snoc f z [] x = refl
  foldl-snoc f z (y ∷ xs) x = foldl-snoc f (f z y) xs x

module _ {N : Type 0} ⦃r : Runtime N⦄ where
  -- The refunds reported so far, added up in their order.
  abbrev pub reported : List (PaymentEvent N) → N
  reported es = foldl r.add nought (refund_amounts es)

  -- The recorded sum is the sum of the reported refunds.
  abbrev pub IsBooked : Payment N → Type 0
  IsBooked s = or_else s.refunded_amount nought ≡ reported s.events

  -- A refund asks for a number, and the events are not cleared.
  abbrev pub KeepsBooks : Call N → Type 0
  KeepsBooks (give_back amount reason) = r.eq amount amount ≡ true
  KeepsBooks clear_it = ⊥
  KeepsBooks _ = Unit

  IsNumeric-KeepsBooks : (c : Call N) → KeepsBooks c → IsNumeric c
  IsNumeric-KeepsBooks (give_back amount reason) h = h
  IsNumeric-KeepsBooks process h = tt
  IsNumeric-KeepsBooks cancel_it h = tt
  IsNumeric-KeepsBooks clear_it h = elim h [ ]
  IsNumeric-KeepsBooks (complete t) h = tt
  IsNumeric-KeepsBooks (fail reason error) h = tt

  reported-append :
      (es : List (PaymentEvent N)) (id reason : Text) (a : N) (d : ℕ)
      → reported (es ++ (payment_refunded id a reason d ∷ [])) ≡ r.add (reported es) a
  reported-append es id reason a d =
      ap (foldl r.add nought) (refund_amounts-append es (payment_refunded id a reason d))
      ∙ foldl-snoc r.add nought (refund_amounts es) a

  module _ (laws : IsOrdered N) where
    refund-IsBooked :
        (amount : N) (reason : Text) (clock : Clock) (s : Payment N)
        → r.eq amount amount ≡ true
        → IsConsistent s
        → IsBooked s
        → IsBooked (refund amount reason clock s).1
    unfolding refund
    refund-IsBooked amount reason clock s n h b =
        let sum = r.add (or_else s.refunded_amount nought) amount in
        let kept = refund-IsConsistent laws amount reason clock s n h in
        ground (
          arith,
          kept,
          positive-truthy laws sum,
          reported-append s.events s.id reason amount (clock 1),
        )

    step_payment-IsBooked :
        (c : Call N) (clock : Clock) (s : Payment N)
        → KeepsBooks c
        → IsConsistent s
        → IsBooked s
        → IsBooked (step_payment c clock s).1
    unfolding step_payment mark_as_processing mark_as_completed mark_as_failed cancel
    step_payment-IsBooked process clock s n h b = ground arith
    step_payment-IsBooked cancel_it clock s n h b = ground arith
    step_payment-IsBooked clear_it clock s n h b = absurd n
    step_payment-IsBooked (complete transaction) clock s n h b = ground (
      arith,
      refund_amounts-append s.events (
          payment_processed s.id s.invoice_id s.amount s.currency s.payment_method transaction
            (clock 1)),
      append-nil (refund_amounts s.events),
    )
    step_payment-IsBooked (fail reason error) clock s n h b = ground (
      arith,
      refund_amounts-append s.events (payment_failed s.id s.invoice_id reason error (clock 1)),
      append-nil (refund_amounts s.events),
    )
    step_payment-IsBooked (give_back amount reason) clock s n h b =
        refund-IsBooked amount reason clock s n h b

    -- After any calls but clearEvents, with numbers as refunds, the recorded sum of a consistent payment is what
    -- its refund events add up to, in their order.
    pub run_payment-IsBooked :
        (calls : List (Call N × Clock)) (s : Payment N)
        → All (λ (c : Call N × Clock). KeepsBooks c.0) calls
        → IsConsistent s
        → IsBooked s
        → IsBooked (run_payment calls s)
    unfolding run_payment
    run_payment-IsBooked [] s n h b = b
    run_payment-IsBooked ((c, clock) ∷ calls) s (n, ns) h b =
        run_payment-IsBooked calls (step_payment c clock s).1 ns
          (step_payment-IsConsistent laws c clock s (IsNumeric-KeepsBooks c n) h)
          (step_payment-IsBooked c clock s n h b)

    -- What a refund of NaN leaves behind.
    pub record Spoilt (s t : Payment N) : Type 0 where
      pub sum : N
      pub recorded : t.refunded_amount ≡ some sum
      pub sum_nan : r.eq sum sum ≡ false
      pub open_still : t.status ≡ completed
      pub same_amount : t.amount ≡ s.amount

    nan_incomparable :
        (nan x : N)
        → r.eq nan nan ≡ false
        → (r.lt nan x ≡ false) × (r.lt x nan ≡ false) × (r.eq nan x ≡ false)
    nan_incomparable nan x n = (
      ground (arith, laws.eq_of_lt nan x),
      ground (arith, laws.eq_of_lt x nan),
      ground (arith, laws.eq_refl_left nan x),
    )

    refund-Spoilt :
        (nan : N) (reason : Text) (clock : Clock) (s : Payment N)
        → r.eq nan nan ≡ false
        → s.status ≡ completed
        → is_blank reason ≡ false
        → ((refund nan reason clock s).0 ≡ ok tt) × Spoilt s (refund nan reason clock s).1
    unfolding refund
    refund-Spoilt nan reason clock s n st b =
        let sum = r.add (or_else s.refunded_amount nought) nan in
        let bad : r.eq sum sum ≡ false = laws.add_nan _ nan n in
        let a = nan_incomparable nan nought n in
        let c = nan_incomparable nan s.amount n in
        let d = nan_incomparable sum s.amount bad in
        let e : exceeds s.refunded_amount nan s.amount ≡ false = nan_exceeds s.refunded_amount in
        (
          ground arith,
          record {
            sum = sum;
            recorded = ground arith;
            sum_nan = bad;
            open_still = ground arith;
            same_amount = ground arith;
          },
        )
      where
        nan_exceeds : (o : Option N) → exceeds o nan s.amount ≡ false
        nan_exceeds none = refl
        nan_exceeds (some p) =
            ground (arith, laws.add_nan p nan n, laws.eq_of_lt s.amount (r.add p nan))

    refund_after :
        (reason : Text) (clock : Clock) (s t : Payment N)
        → Spoilt s t
        → is_blank reason ≡ false
        → r.eq s.amount s.amount ≡ true
        → le s.amount nought ≡ false
        → let (result, u) = refund s.amount reason clock t in
          (result ≡ ok tt) × (u.status ≡ refunded) × (u.refunded_amount ≡ some s.amount)
    unfolding refund
    refund_after reason clock s t sp b num p =
        let pos = positive laws s.amount num p in
        ground (arith, laws.add_nought s.amount, laws.lt_irrefl s.amount)

    -- On a completed payment of a positive amount a refund of NaN returns, and a refund of the
    -- whole amount after it returns too and makes the payment refunded, whatever had been
    -- refunded before; the reason is not blank.
    pub refund_nan :
        (nan : N) (reason : Text) (clock later : Clock) (s : Payment N)
        → r.eq nan nan ≡ false
        → s.status ≡ completed
        → is_blank reason ≡ false
        → r.eq s.amount s.amount ≡ true
        → le s.amount nought ≡ false
        → let (first, t) = refund nan reason clock s in
          let (second, u) = refund s.amount reason later t in
          (first ≡ ok tt)
          × (second ≡ ok tt)
          × (u.status ≡ refunded)
          × (u.refunded_amount ≡ some s.amount)
    refund_nan nan reason clock later s n st b num p =
        let (returned, spoilt) = refund-Spoilt nan reason clock s n st b in
        let rest = refund_after reason later s (refund nan reason clock s).1 spoilt b num p in
        (returned, rest.0, rest.1, rest.2)
