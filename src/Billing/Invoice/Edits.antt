-- ===== src/Billing/Invoice/Edits.antt =====
-- Creating an invoice, and editing the items of a draft.
use finvoice.Prelude.{
  ap, remove_at, length-append, ◌≤◌, ◌<◌, ◌≡◌, refl, true, false, Option, none, List, [], ◌∷◌, ◌++◌,
  ◌⊎◌, arith, length, any, All,
}
use mathlib.Core.Option
use finvoice.Text.{Text, text_eq, usd, is_blank, trim}
use finvoice.Text.Laws.{IsClean, trim-IsClean}
use finvoice.Outcome.{ok, err, error}
use finvoice.Runtime.{Runtime, IsOrdered, Clock, Date}
use finvoice.Billing.LineItem.{LineItem}
use finvoice.Billing.Totals.Sums.{ItemIn, is_taxed}
use finvoice.Billing.Totals.Laws.{calculate_total-Pays, calculate_total_untaxed}
use finvoice.Billing.Invoice.{
  calculate_total, Money, draft, Invoice, invoice_created, at, create, add_line_item,
  remove_line_item,
}

-- What the guards of `create` ask of its texts and dates.
pub record IsFilled (client_id invoice_number : Text) (issue_date due_date : Date) : Type 0 where
  pub client : is_blank client_id ≡ false
  pub number : is_blank invoice_number ≡ false
  pub dates : issue_date ≤ due_date

module _ {N : Type 0} ⦃r : Runtime N⦄ where
  -- A new invoice with these fields: the texts trimmed, and the creation as its only event.
  pub record IsDraft (id client_id invoice_number : Text) (issue_date due_date : Date)
      (items : List (LineItem N)) (notes : Option Text) (clock : Clock) (s : Invoice N)
      : Type 0 where
    pub same_id : s.id ≡ id
    pub status : s.status ≡ draft
    pub line_items : s.line_items ≡ items
    pub client : (s.client_id ≡ trim client_id) × IsClean s.client_id
    pub number : (s.invoice_number ≡ trim invoice_number) × IsClean s.invoice_number
    pub dates : (s.issue_date ≡ issue_date) × (s.due_date ≡ due_date)
    pub same_notes : s.notes ≡ Option.map trim notes
    pub unsent : s.sent_at ≡ none
    pub unpaid : (s.paid_at ≡ none) × (s.paid_amount ≡ none)
    pub total : Money N
    pub is_total : calculate_total items ≡ ok total
    pub events : s.events ≡ invoice_created id client_id total.amount total.currency (clock 0) ∷ []

  module _ (laws : IsOrdered N) (id client_id invoice_number : Text) (issue_date due_date : Date)
      (notes : Option Text) (clock : Clock)
      (filled : IsFilled client_id invoice_number issue_date due_date) (c : Text) (i : LineItem N)
      (items : List (LineItem N)) (valid : All (ItemIn c) (i ∷ items)) where
    -- From filled-in fields and at least one item, all valid and in one currency, `create` makes a
    -- draft with those items and dates and the given texts trimmed, which are then clean, with
    -- nothing sent or paid and the creation as the only event, if an item is taxed or the
    -- currency is USD.
    pub create-ok :
        (any is_taxed (i ∷ items) ≡ true) ⊎ (c ≡ usd)
        → (s : Invoice N) × (create id client_id invoice_number issue_date due_date
              (i ∷ items)
              notes
              clock
            ≡ ok s)
          × IsDraft id client_id invoice_number issue_date due_date (i ∷ items) notes clock s
    unfolding create
    create-ok o =
        let (total, e, _) = calculate_total-Pays laws c i items valid o in
        (
          record {
            id = id;
            client_id = trim client_id;
            invoice_number = trim invoice_number;
            issue_date = issue_date;
            due_date = due_date;
            line_items = i ∷ items;
            notes = Option.map trim notes;
            status = draft;
            sent_at = none;
            paid_at = none;
            paid_amount = none;
            events = invoice_created id client_id total.amount total.currency (clock 0) ∷ [];
          },
          ground (arith, e),
          record {
            same_id = refl;
            status = refl;
            line_items = refl;
            client = (refl, trim-IsClean client_id filled.client);
            number = (refl, trim-IsClean invoice_number filled.number);
            dates = (refl, refl);
            same_notes = refl;
            unsent = refl;
            unpaid = (refl, refl);
            total = total;
            is_total = e;
            events = refl;
          },
        )

    -- In another currency no invoice without a taxed item can be created.
    pub create_untaxed :
        any is_taxed (i ∷ items) ≡ false
        → text_eq c usd ≡ false
        → create id client_id invoice_number issue_date due_date (i ∷ items) notes clock
          ≡ err (error "Cannot add money with different currencies" [])
    unfolding create
    create_untaxed h k = ground (arith, calculate_total_untaxed laws c i items valid h k)

  remove_at-append :
      (xs : List (LineItem N)) (x : LineItem N) → remove_at (xs ++ (x ∷ [])) (length xs) ≡ xs
  remove_at-append [] x = refl
  remove_at-append (y ∷ xs) x = ap (λ t. y ∷ t) (remove_at-append xs x)

  -- Removing the item that was just added to a draft brings the draft back.
  pub remove_line_item-add_line_item :
      (item : LineItem N) (s : Invoice N)
      → s.status ≡ draft
      → 0 < length s.line_items
      → remove_line_item (at (length s.line_items)) (add_line_item item s).1 ≡ (ok tt, s)
  unfolding add_line_item remove_line_item
  remove_line_item-add_line_item item s h k =
      ground (arith, length-append s.line_items (item ∷ []), remove_at-append s.line_items item)
