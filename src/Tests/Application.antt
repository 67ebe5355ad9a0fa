-- ===== src/Tests/Application.antt =====
-- The use cases of the invoice service at concrete inputs. The world counts calls.
use finvoice.Prelude.{◌≡◌, refl, none, some, List, [], ◌∷◌, find, ℕ, ◌+◌, arith}
use finvoice.Text.{text}
use finvoice.Outcome.{err, ok, error, bad_request}
use finvoice.Runtime.{Clock}
use finvoice.Runtime.Milli.{Milli, units, milli_runtime}
use finvoice.Collection.Listed.{listed, listed-IsCollection}
use finvoice.Text.{usd, is_blank, is_bad_code}
use finvoice.Billing.Invoice.{clear_events, draft, paid, create}
use finvoice.Billing.Money.{new_money, add, multiply}
use finvoice.Billing.LineItem.{new_line_item, get_subtotal, get_tax_amount}
use finvoice.Billing.Totals.{
  map_result, reduce_from, reduce_money, calculate_subtotal, put_tax, add_tax, collect_taxes,
  calculate_tax_lines, sum_tax_lines, calculate_total_tax, calculate_total,
}
use finvoice.Billing.Application.{
  InvoiceDocument, StoredMoney, Shop, ShopEnvironment, UpdateDto, has_id, mark_sent_at,
  map_to_response_dto, send_invoice,
}
use finvoice.Billing.Application.Create.{
  CreateInvoiceCommand, CreateInvoiceResult, Ports, to_line_item, build, execute, Executed,
  execute-Executed,
}
use finvoice.Billing.Application.Laws.{send_invoice_once}
use finvoice.Billing.Application.Final.{
  ShopCall, to_update, to_send, to_delete, run_shop, run_shop-final,
}
use finvoice.Billing.Application.Listing.{ListQuery}
use finvoice.Billing.Application.Pages.{pages, pages-wanted}
use finvoice.Tests.Data.{clock}

abbrev money : StoredMoney Milli
money = record { amount = units 5; currency = usd }

abbrev document : InvoiceDocument Milli
document = record {
  id = text "i1";
  invoice_number = text "INV-1";
  customer_id = text "c1";
  issue_date = 0;
  due_date = 10;
  status = draft;
  line_items =
      record { description = text "work"; quantity = units 1; unit_price = money; total = money }
      ∷ [];
  subtotal = money;
  total_amount = money;
  notes = none;
  sent_at = none;
  updated_at = 0;
}

abbrev settled : InvoiceDocument Milli
settled = record document { id = text "i2"; status = paid }

-- The job service is down.
abbrev environment : ShopEnvironment Milli (List (InvoiceDocument Milli)) ℕ
environment = record {
  documents = listed;
  by_created_at = λ ds. ds;
  by_due_date = λ ds. ds;
  add_job = λ queue name id w. (err (error "down" []), w + 1);
}

abbrev start : Shop (List (InvoiceDocument Milli)) ℕ
start = record { invoices = document ∷ settled ∷ []; world = 0 }

send_invoice_once_example :
    (find (has_id (text "i1")) (send_invoice environment (text "i1") clock start).1.invoices
      ≡ some (mark_sent_at 1000 1001 document))
    × (send_invoice environment
          (text "i1")
          clock
          (send_invoice environment (text "i1") clock start).1
        ≡ (
          err (
              bad_request "Cannot send invoice with status: {}. Only draft invoices can be sent."
                (text "sent" ∷ [])),
          (send_invoice environment (text "i1") clock start).1,
        ))
send_invoice_once_example =
    send_invoice_once environment listed-IsCollection (text "i1") clock clock start document refl
      refl

abbrev no_update : UpdateDto Milli
no_update = record {
  customer_id = none;
  due_date = none;
  line_items = none;
  notes = some (text "x");
}

abbrev calls : List (ShopCall Milli × Clock)
calls =
    (to_update (text "i2") no_update, clock)
    ∷ (to_delete (text "i1"), clock)
    ∷ (to_send (text "i2"), clock)
    ∷ []

run_shop-final_example :
    find (has_id (text "i2")) (run_shop environment calls start).invoices ≡ some settled
run_shop-final_example =
    run_shop-final environment listed-IsCollection calls (text "i2") start settled refl refl

abbrev query : ListQuery
query = record { customer_id = some (text "c1"); status = some (text "paid"); page = 1; limit = 1 }

pages-wanted_example : pages environment query 0 2 clock start ≡ map_to_response_dto settled ∷ []
pages-wanted_example = pages-wanted environment query (text "c1") 2 clock start refl (omega arith)

abbrev ports : Ports Milli ℕ
ports = record {
  find_by_invoice_number = λ number w. (ok none, w + 1);
  save = λ invoice w. (ok tt, w + 1);
  publish_many = λ events w. (ok tt, w + 1);
}

abbrev command : CreateInvoiceCommand Milli
command = record {
  client_id = text "c1";
  invoice_number = text "INV-1";
  issue_date = 0;
  due_date = 10;
  line_items =
      record {
        description = text "work";
        quantity = units 1;
        unit_price = units 5;
        currency = usd;
        tax_rate = none;
      }
      ∷ [];
  notes = none;
}

abbrev result : CreateInvoiceResult Milli
result = record {
  invoice_id = text "a1";
  invoice_number = text "INV-1";
  total = record { amount = units 5; currency = usd };
}

executed : (execute ports (text "a1") command clock 0).0 ≡ ok result
unfolding clear_events execute build to_line_item new_money new_line_item map_result create
    calculate_total calculate_subtotal calculate_total_tax calculate_tax_lines collect_taxes add_tax
    put_tax sum_tax_lines reduce_money reduce_from get_subtotal get_tax_amount multiply add is_blank
    is_bad_code
executed = refl

execute-Executed_example :
    Executed ports (text "a1") command clock 0 (execute ports (text "a1") command clock 0).1 result
execute-Executed_example = execute-Executed ports (text "a1") command clock 0 executed
