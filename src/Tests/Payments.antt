-- ===== src/Tests/Payments.antt =====
-- The payments controller at concrete inputs. The job service is down, and counts its calls.
use finvoice.Prelude.{◌≡◌, refl, none, some, List, [], ◌∷◌, ℕ, ◌+◌}
use finvoice.Text.{text}
use finvoice.Outcome.{err, error, bad_request}
use finvoice.Runtime.Milli.{Milli, units}
use finvoice.Collection.Listed.{listed, listed-IsCollection}
use finvoice.PaymentsApi.{
  CreatePaymentDto, PaymentDocument, PaymentsEnvironment, Ledger, StatusDto, payment_data,
  is_valid_payment, save_new, create_payment, update_payment_status, delete_payment,
}
use finvoice.PaymentsApi.Guards.{docs, delete_payment_reset}
use finvoice.PaymentsApi.Unique.{
  PaymentCall, to_create, to_status, to_delete, AreUnique, run_payments, run_payments-AreUnique,
}
use finvoice.Tests.Data.{clock}

abbrev order : CreatePaymentDto Milli
order = record {
  payment_id = text "P-1";
  invoice_id = text "i1";
  customer_id = text "c1";
  amount = units 5;
  currency = text "EUR";
  method = text "stripe";
  notes = none;
}

abbrev received : PaymentDocument Milli
received = record {
  id = text "p1";
  payment_id = text "P-1";
  invoice_id = text "i1";
  customer_id = text "c1";
  amount = units 5;
  currency = text "EUR";
  status = text "completed";
  method = text "stripe";
  gateway_transaction_id = none;
  processed_at = some 7;
  failed_at = none;
  notes = none;
  created_at = 1;
  updated_at = 7;
}

abbrev environment : PaymentsEnvironment Milli (List (PaymentDocument Milli)) ℕ
environment = record {
  documents = listed;
  by_created_at = λ ds. ds;
  add_job = λ queue name payment_id action w. (err (error "down" []), w + 1);
}

abbrev start : Ledger (List (PaymentDocument Milli)) ℕ
start = record { payments = received ∷ []; world = 0 }

abbrev to_pending : StatusDto
to_pending = record { status = text "pending"; gateway_transaction_id = none }

-- The payment is stored though the creation throws, as the job service is down.
stored_anyway :
    (create_payment environment order (text "p2") clock (record start { payments = [] })).1
    ≡ record { payments = payment_data order (text "p2") clock ∷ []; world = 1 }
unfolding create_payment save_new payment_data is_valid_payment
stored_anyway = refl

delete_payment_reset_example :
    (delete_payment environment (text "p1") start
      ≡ (err (bad_request "Cannot delete payment with status: {}" (text "completed" ∷ [])), start))
    × (docs environment
          (delete_payment environment
            (text "p1")
            (update_payment_status environment (text "p1") to_pending clock start).1).1
        ≡ [])
delete_payment_reset_example =
    delete_payment_reset environment listed-IsCollection (text "p1") to_pending clock start received
      refl refl refl refl

abbrev calls : List (PaymentCall Milli × (ℕ → ℕ))
calls =
    (to_create order (text "p2"), clock)
    ∷ (to_status (text "p1") to_pending, clock)
    ∷ (to_delete (text "p1"), clock)
    ∷ (to_create order (text "p3"), clock)
    ∷ []

run_payments-AreUnique_example : AreUnique environment (run_payments environment calls start)
run_payments-AreUnique_example =
    run_payments-AreUnique environment listed-IsCollection calls start (refl, tt)
