-- ===== src/Tests/Payment.antt =====
-- Payments at concrete inputs.
use finvoice.Prelude.{◌≡◌, refl, none, some, List, [], ◌∷◌}
use finvoice.Text.{usd, is_blank, is_bad_code}
use finvoice.Outcome.{ok}
use finvoice.Runtime.{Clock}
use finvoice.Runtime.Milli.{Milli, units, nan, milli_runtime, Milli-IsOrdered}
use finvoice.Payment.{
  stripe, pending, completed, refunded, Payment, create, mark_as_processing, mark_as_completed,
  refund,
}
use finvoice.Payment.Diagram.{Call, process, complete, give_back, step_payment}
use finvoice.Payment.Laws.{
  IsConsistent, run_payment, created_payment-IsConsistent, create-IsConsistent,
}
use finvoice.Payment.Refunds.{IsBooked, run_payment-IsBooked, refund_nan}
use finvoice.Text.{text}
use finvoice.Tests.Data.{clock}

abbrev payment : Payment Milli
payment = record {
  id = text "p1";
  invoice_id = text "i1";
  amount = units 50;
  currency = usd;
  payment_method = stripe;
  status = pending;
  gateway_transaction_id = none;
  gateway_payment_id = none;
  processed_at = none;
  failure_reason = none;
  refunded_amount = none;
  refunded_at = none;
  events = [];
}

made : create (text "p1") (text "i1") (units 50) (text "usd") stripe none ≡ ok payment
unfolding create is_blank is_bad_code
made = refl

abbrev calls : List (Call Milli × Clock)
calls =
    (process, clock)
    ∷ (complete (text "tx"), clock)
    ∷ (give_back (units 20) (text "damaged"), clock)
    ∷ (give_back (units 31) (text "too much"), clock)
    ∷ (give_back (units 30) (text "lost"), clock)
    ∷ []

run_refunds : (run_payment calls payment).status ≡ refunded
unfolding run_payment step_payment mark_as_processing mark_as_completed refund is_blank
run_refunds = refl

created_payment-IsConsistent_example : IsConsistent (run_payment calls payment)
created_payment-IsConsistent_example =
    created_payment-IsConsistent Milli-IsOrdered (text "p1") (text "i1") (units 50) (text "usd")
      stripe none payment calls made (tt, (tt, (refl, (refl, (refl, tt)))))

run_payment-IsBooked_example : IsBooked (run_payment calls payment)
run_payment-IsBooked_example =
    run_payment-IsBooked Milli-IsOrdered calls payment (tt, (tt, (refl, (refl, (refl, tt)))))
      (create-IsConsistent Milli-IsOrdered (text "p1") (text "i1") (units 50) (text "usd") stripe
        none payment made)
      refl

abbrev settled : Payment Milli
settled = record payment { status = completed; gateway_transaction_id = some (text "tx") }

refund_nan_example :
    let (first, t) = refund nan (text "lost") clock settled in
    let (second, u) = refund (units 50) (text "lost") clock t in
    (first ≡ ok tt)
    × (second ≡ ok tt)
    × (u.status ≡ refunded)
    × (u.refunded_amount ≡ some (units 50))
refund_nan_example =
    refund_nan Milli-IsOrdered nan (text "lost") clock clock settled refl refl
      (unfold is_blank in refl) refl refl
