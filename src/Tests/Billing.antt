-- ===== src/Tests/Billing.antt =====
-- Invoices of services/billing at concrete inputs.
use finvoice.Prelude.{true, ◌⊎◌, All, ◌≡◌, refl, false, none, some, List, [], ◌∷◌, inl, arith, map}
use finvoice.Text.{Text, usd, trim, is_blank, is_bad_code}
use finvoice.Dict.{Dict, lookup, insert, IsMap}
use finvoice.Outcome.{ok}
use finvoice.Runtime.{Clock}
use finvoice.Runtime.Milli.{Milli, units, cents, thousandths, milli_runtime, Milli-IsOrdered}
use finvoice.Billing.Money.{Money, new_money, add, multiply}
use finvoice.Billing.TaxRate.{TaxRate}
use finvoice.Billing.LineItem.{LineItem, get_subtotal, get_tax_amount}
use finvoice.Billing.LineItem.Laws.{money}
use finvoice.Billing.Totals.{
  TaxLine, map_result, reduce_money, calculate_subtotal, put_tax, add_tax, collect_taxes, tax_line,
  calculate_tax_lines, sum_tax_lines, calculate_total_tax, calculate_total,
}
use finvoice.Billing.Totals.Sums.{ItemIn, Pays}
use finvoice.Billing.Totals.Laws.{calculate_total-Pays}
use finvoice.Billing.Totals.Lines.{tax_named, tax_lines_grouped}
use finvoice.Billing.Invoice.{
  Invoice, draft, sent, paid, invoice_created, create, mark_sent, mark_paid, cancel,
}
use finvoice.Billing.Invoice.Laws.{IsConsistent, created_invoice-IsConsistent}
use finvoice.Billing.Invoice.Lifecycle.{
  Call, mark_sent_to, mark_paid_with, cancel_it, step_invoice, ◌⟶◌, step_invoice-⟶, run_invoice,
}
use finvoice.Billing.Invoice.Edits.{IsFilled, IsDraft, create-ok}
use finvoice.Text.{text}
use finvoice.Tests.Data.{clock}

abbrev eur : Text
eur = text "EUR"

abbrev vat : TaxRate Milli
vat = record { rate = thousandths 200; name = text "VAT" }

-- Three hours at 12.50, taxed at 20 percent, and one book at 7, untaxed.
abbrev hours : LineItem Milli
hours = record {
  description = text "Hours";
  quantity = units 3;
  unit_price = money (cents 1250) usd;
  tax_rate = some vat;
}

abbrev book : LineItem Milli
book = record {
  description = text "Book";
  quantity = units 1;
  unit_price = money (units 7) usd;
  tax_rate = none;
}

abbrev euro_book : LineItem Milli
euro_book = record book { unit_price = money (units 7) eur }

abbrev invoice : Invoice Milli
invoice = record {
  id = text "i1";
  client_id = text "acme";
  invoice_number = text "N-1";
  issue_date = 10;
  due_date = 20;
  line_items = hours ∷ book ∷ [];
  notes = none;
  status = draft;
  sent_at = none;
  paid_at = none;
  paid_amount = none;
  events = invoice_created (text "i1") (text " acme ") (units 52) usd 1000 ∷ [];
}

-- The subtotal 44.50 and the tax 7.50 on the hours.
total-items : calculate_total (hours ∷ book ∷ []) ≡ ok (money (units 52) usd)
unfolding calculate_total calculate_subtotal map_result reduce_money get_subtotal multiply new_money
    is_bad_code calculate_total_tax calculate_tax_lines collect_taxes add_tax put_tax get_tax_amount
    add lookup insert sum_tax_lines
total-items = refl

made :
    create (text "i1") (text " acme ") (text "N-1") 10 20 (hours ∷ book ∷ []) none clock
    ≡ ok invoice
unfolding create is_blank
made = ground (arith, total-items)

hours-ItemIn : ItemIn usd hours
unfolding is_blank is_bad_code
hours-ItemIn = record {
  valid = record {
    described = refl;
    quantity_pos = refl;
    price = record { not_negative = refl; has_code = refl };
    tax = record {
      not_negative = refl;
      at_most_one = refl;
      clean = (unfold trim in refl, λ e. cc);
    };
  };
  same_currency = refl;
}

book-ItemIn :
    (c : Text) → is_bad_code c ≡ false → ItemIn c (record book { unit_price = money (units 7) c })
unfolding is_blank
book-ItemIn c h = record {
  valid = record {
    described = refl;
    quantity_pos = refl;
    price = record { not_negative = refl; has_code = h };
    tax = tt;
  };
  same_currency = refl;
}

calculate_total-Pays_example : Pays usd (calculate_total (hours ∷ book ∷ []))
unfolding is_bad_code
calculate_total-Pays_example =
    calculate_total-Pays Milli-IsOrdered usd hours (book ∷ [])
      (hours-ItemIn, (book-ItemIn usd refl, tt)) (inl refl)

tax_lines_grouped_example :
    (t : Dict (Money Milli)) × (record {
      tax_rate = some vat;
      amount = money (thousandths 15000) usd;
    }
        ∷ []
      ≡ map (tax_line (hours ∷ book ∷ hours ∷ [])) t)
    × IsMap t
    × ((k : Text) → tax_named k none (hours ∷ book ∷ hours ∷ []) ≡ ok (lookup k t))
    × All
        (λ (l : TaxLine Milli). (rate : TaxRate Milli) × (l.tax_rate ≡ some rate))
        (record { tax_rate = some vat; amount = money (thousandths 15000) usd } ∷ [])
unfolding calculate_tax_lines collect_taxes add_tax put_tax get_tax_amount get_subtotal multiply add
    new_money is_bad_code lookup insert
tax_lines_grouped_example =
    tax_lines_grouped (hours ∷ book ∷ hours ∷ [])
      (record { tax_rate = some vat; amount = money (thousandths 15000) usd } ∷ []) refl

filled : IsFilled (text " acme ") (text "N-1") 10 20
unfolding is_blank
filled = record { client = refl; number = refl; dates = omega arith }

create-ok_example :
    (s : Invoice Milli) × (create
        (text "i1")
        (text " acme ")
        (text "N-1")
        10
        20
        (hours ∷ book ∷ [])
        none
        clock
      ≡ ok s)
    × IsDraft (text "i1") (text " acme ") (text "N-1") 10 20 (hours ∷ book ∷ []) none clock s
unfolding is_bad_code
create-ok_example =
    create-ok Milli-IsOrdered (text "i1") (text " acme ") (text "N-1") 10 20 none clock filled usd
      hours (book ∷ []) (hours-ItemIn, (book-ItemIn usd refl, tt)) (inl refl)

-- The invoice is sent, then paid with too little, which throws, and then in full.
abbrev calls : List (Call Milli × Clock)
calls =
    (mark_sent_to (text "a@b.co"), clock)
    ∷ (mark_paid_with (money (units 51) usd) (text "card"), clock)
    ∷ (mark_paid_with (money (units 52) usd) (text "card"), clock)
    ∷ (cancel_it, clock)
    ∷ []

created_invoice-IsConsistent_example : IsConsistent (run_invoice calls invoice)
created_invoice-IsConsistent_example =
    created_invoice-IsConsistent (text "i1") (text " acme ") (text "N-1") 10 20 (hours ∷ book ∷ [])
      none clock invoice calls made

run_pays : (run_invoice calls invoice).status ≡ paid
unfolding run_invoice step_invoice mark_sent mark_paid cancel
run_pays = ground (arith, total-items)

step_invoice-⟶_example : (draft ⟶ sent) ⊎ ((false ≡ true) × (sent ≡ draft))
unfolding step_invoice mark_sent
step_invoice-⟶_example = step_invoice-⟶ (mark_sent_to (text "a@b.co")) clock invoice refl
