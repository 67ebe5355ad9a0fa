-- ===== src/Tests/Invoicing.antt =====
-- Invoices of the monolith's billing module at concrete inputs.
use finvoice.Prelude.{arith, ◌*◌, ◌≡◌, refl, ◌⊎◌, none, some, List, [], ◌∷◌, true}
use finvoice.Text.{Text, text, usd, is_blank}
use finvoice.Outcome.{Exception, ok, err}
use finvoice.Runtime.{ceil_days, ms_per_day, Clock, Date}
use finvoice.Runtime.Milli.{Milli, units, cents, milli_runtime, Milli-IsOrdered}
use finvoice.Invoicing.Money.{
  Money, equals, new_money, add, multiply, is_positive, is_less_than, is_listed,
}
use finvoice.Invoicing.TaxRate.{calculate_tax}
use finvoice.Invoicing.Number.{
  matches_after, is_capital, is_digit, pad_start, decimal, digits, InvoiceNumber, generate, printed,
  new_number, has_format,
}
use finvoice.Invoicing.Number.Laws.{generate_lem}
use finvoice.Invoicing.Item.{Item, IsItem, new_item, calculate_subtotal, calculate_tax_amount}
use finvoice.Invoicing.Invoice.{
  Invoice, draft, sent, paid, overpaid, partially_paid, standard, recurring, monthly, create,
  add_item, total_of, subtotal_of, total_tax_of, sum_subtotals, sum_taxes,
}
use finvoice.Invoicing.Invoice.Payments.{
  Call, put, finalize_it, send_it, pay, finalize, send, current_paid, settle, record_payment,
  mark_as_paid, step_invoicing, run_invoicing,
}
use finvoice.Invoicing.Invoice.Laws.{Recorded, record_payment_lem}
use finvoice.Invoicing.Invoice.Invariant.{IsConsistent, created_invoicing-IsConsistent}
use finvoice.Invoicing.Invoice.Settlement.{mark_as_paid_partial}
use finvoice.Invoicing.Invoice.Prorate.{
  prorate, proration_factor, AreParts, prorate-AreParts, start_prorated, put_prorated, prorate_item,
}
use finvoice.Tests.Data.{clock}

abbrev number : InvoiceNumber
number = record { value = text "INV-001000" }

-- Three hours at 12.50, taxed at 20 percent: 45 in all.
abbrev hours : Item Milli
hours = record {
  id = text "item-1";
  description = text "Hours";
  quantity = units 3;
  unit_price = record { amount = cents 1250; currency = usd };
  tax_rate = record { rate = units 20; type = text "VAT" };
}

abbrev money : Milli → Money Milli
money a = record { amount = a; currency = usd }

abbrev invoice : Invoice Milli
invoice = record {
  id = text "i1";
  number = number;
  client_id = text "c1";
  issued_by = text "u1";
  type = recurring;
  currency = usd;
  due_date = 5000;
  project_id = none;
  frequency = some monthly;
  notes = none;
  items = [];
  status = draft;
  finalized_at = none;
  sent_at = none;
  paid_at = none;
  voided_at = none;
  paid_amount = none;
  void_reason = none;
}

made :
    create
      (text "i1")
      number
      (text "c1")
      (text "u1")
      recurring
      usd
      5000
      none
      (some monthly)
      none
      clock
    ≡ ok invoice
unfolding create
made = refl

abbrev calls : List (Call Milli × Clock)
calls =
    (put hours, clock)
    ∷ (finalize_it, clock)
    ∷ (send_it, clock)
    ∷ (pay (money (units 20)), clock)
    ∷ (pay (money (units 25)), clock)
    ∷ []

hours_built : IsItem hours
unfolding is_blank is_positive
hours_built = record { described = refl; quantity_pos = refl; price_pos = refl }

run_payments : (run_invoicing calls invoice).status ≡ paid
unfolding run_invoicing step_invoicing add_item finalize send record_payment settle current_paid
    total_of is_positive new_money is_blank is_listed add subtotal_of sum_subtotals
    calculate_subtotal multiply total_tax_of sum_taxes calculate_tax_amount calculate_tax equals
    is_less_than
run_payments = refl

created_invoicing-IsConsistent_example : IsConsistent (run_invoicing calls invoice)
created_invoicing-IsConsistent_example =
    created_invoicing-IsConsistent (text "i1") number (text "c1") (text "u1") recurring usd 5000
      none (some monthly) none clock invoice calls made (hours_built, (tt, (tt, (tt, (tt, tt)))))

-- The same invoice, sent and with nothing paid.
abbrev open_invoice : Invoice Milli
open_invoice = record invoice { items = hours ∷ []; status = sent }

abbrev part_paid : Invoice Milli
part_paid = record open_invoice { status = partially_paid; paid_amount = some (money (units 20)) }

record_payment_lem_example :
    ((e : Exception) × (record_payment (money (units 25)) clock part_paid ≡ (err e, part_paid)))
    ⊎ ((s' : Invoice Milli) × (record_payment (money (units 25)) clock part_paid ≡ (ok tt, s'))
        × Recorded (money (units 25)) clock part_paid s')
record_payment_lem_example = record_payment_lem (money (units 25)) clock part_paid

remainder_recorded :
    (record_payment (money (units 25)) clock part_paid).1.paid_amount ≡ some (money (units 45))
unfolding mark_as_paid record_payment settle current_paid total_of is_positive new_money is_blank
    is_listed add subtotal_of sum_subtotals calculate_subtotal multiply total_tax_of sum_taxes
    calculate_tax_amount calculate_tax equals is_less_than
remainder_recorded = refl

-- After a part is paid, `markAsPaid` still asks for the whole total, and the invoice is overpaid.
mark_as_paid_partial_example :
    (equals (money (units 45)) (money (units 45)) ≡ true)
    × ((mark_as_paid (money (units 45)) clock part_paid).1.status ≡ overpaid)
unfolding mark_as_paid record_payment settle current_paid total_of is_positive new_money is_blank
    is_listed add subtotal_of sum_subtotals calculate_subtotal multiply total_tax_of sum_taxes
    calculate_tax_amount calculate_tax equals is_less_than
mark_as_paid_partial_example =
    mark_as_paid_partial (money (units 45)) (money (units 20)) (money (units 45)) clock part_paid
      refl refl refl Milli-IsOrdered refl

abbrev paid_invoice : Invoice Milli
paid_invoice = record open_invoice { status = paid }

generate_lem_example :
    generate (text "INV") 1000 ≡ (ok (record { value = text "INV-001000" }), 1001)
unfolding is_capital printed pad_start decimal digits
generate_lem_example = generate_lem (text "INV") 1000 refl (omega arith) (omega arith)

abbrev next_number : InvoiceNumber
next_number = record { value = text "INV-001001" }

abbrev prorated : Invoice Milli
prorated = record invoice {
  number = record { value = text "PRO-001000" };
  type = standard;
  frequency = none;
  notes = some (text "Prorated invoice for period  to ");
  items =
      record hours { description = text "Hours (Prorated)"; unit_price = money (cents 625) } ∷ [];
}

abbrev no_day : Date → Text
no_day _ = []

abbrev month : Date
month = 15 * ms_per_day

prorate-AreParts_example :
    (draft ≡ draft)
    × (standard ≡ standard)
    × (text "c1" ≡ text "c1")
    × (text "u1" ≡ text "u1")
    × (usd ≡ usd)
    × (prorated.due_date ≡ invoice.due_date)
    × ((generate (text "PRO") 1000).0 ≡ ok prorated.number)
    × ((prorate no_day 0 month
          (text "i1")
          (λ _. text "item-1")
          clock
          (record invoice { items = hours ∷ [] })
          1000).1
        ≡ 1001)
    × AreParts (proration_factor 0 month) (hours ∷ []) prorated.items
    × IsConsistent prorated
unfolding prorate generate new_number is_blank printed pad_start decimal digits has_format
    matches_after is_capital is_digit start_prorated create put_prorated prorate_item multiply
    proration_factor add_item new_item is_listed is_positive new_money ceil_days
prorate-AreParts_example =
    prorate-AreParts no_day 0 month (text "i1") (λ _. text "item-1") clock
      (record invoice { items = hours ∷ [] }) prorated 1000 refl
