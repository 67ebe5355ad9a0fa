-- ===== src/Invoicing/Invoice/Items.antt =====
-- What the methods on items keep of the list, and the currency of the totals.
use finvoice.Prelude.{
  Option-cases, ℕ, ◌∙◌, ◌≡◌, Option, none, some, List, [], ◌∷◌, inl, inr, arith, All,
}
use finvoice.Text.{Text}
use finvoice.Text.Laws.{text_eq_iff}
use finvoice.Outcome.{ok, Result-cases, and_then-eq-ok}
use finvoice.Runtime.{Runtime, nought}
use finvoice.Invoicing.Money.{Money, new_money-IsMoney, add-currency}
use finvoice.Invoicing.Item.{
  Item, IsItem, new_item-IsItem, update_description, update_quantity, update_unit_price,
}
use finvoice.Invoicing.Invoice.{
  Result, ItemUpdates, find_item, updated, change_price, apply_updates, sum_subtotals, subtotal_of,
  total_tax_of, total_of,
}

module _ {N : Type 0} ⦃r : Runtime N⦄ where
  -- A valid item with a price in the currency.
  abbrev pub Fits : Text → Item N → Type 0
  Fits currency item = IsItem item × (item.unit_price.currency ≡ currency)

  subtotal_of-currency :
      (c : Text) (items : List (Item N)) {m : Money N} → subtotal_of c items ≡ ok m → m.currency ≡ c
  unfolding subtotal_of
  subtotal_of-currency c items {m} h = elim (Result-cases (sum_subtotals nought items)) [
    | inl (t, e) ↦
        ground (arith, e, new_money-IsMoney nought c {m = m}, new_money-IsMoney t c {m = m})
    | inr (x, e) ↦ ground (arith, e, new_money-IsMoney nought c {m = m})
  ]

  -- The total is in the currency of the invoice.
  pub total_of-currency :
      (c : Text) (items : List (Item N)) {m : Money N} → total_of c items ≡ ok m → m.currency ≡ c
  unfolding total_of
  total_of-currency c items {m} h =
      let (subtotal, e, f) = and_then-eq-ok (subtotal_of c items) _ h in
      let (tax, e', f') = and_then-eq-ok (total_tax_of c items) _ f in
      (add-currency subtotal tax f').0 ∙ subtotal_of-currency c items e

  pub find_item-Fits :
      (c id : Text) (items : List (Item N)) (e : ℕ × Item N)
      → All (Fits c) items
      → find_item id items ≡ some e
      → Fits c e.1
  find_item-Fits c id [] e h f = cc
  find_item-Fits c id (i ∷ items) e (h, hs) f = elim (Option-cases (find_item id items)) [
    | inl none_found ↦ ground (arith, none_found)
    | inr (e', found) ↦ ground (arith, found, find_item-Fits c id items e' hs found)
  ]

  updated-Fits :
      (c : Text) {A : Type 0} (o : Option A) (f : A → Item N → Result (Item N)) (item i : Item N)
      → ((a : A) (j k : Item N) → Fits c j → f a j ≡ ok k → Fits c k)
      → Fits c item
      → updated o f item ≡ ok i
      → Fits c i
  updated-Fits c none f item i step h e = ground (arith, e)
  updated-Fits c (some a) f item i step h e = step a item i h e

  pub apply_updates-Fits :
      (c : Text) (u : ItemUpdates N) (item i : Item N)
      → Fits c item
      → apply_updates c u item ≡ ok i
      → Fits c i
  unfolding apply_updates change_price update_description update_quantity update_unit_price
  apply_updates-Fits c u item i h e =
      let (described, e1, f1) =
        and_then-eq-ok (updated u.description update_description item) _ e in
      let (counted, e2, f2) = and_then-eq-ok (updated u.quantity update_quantity described) _ f1 in
      updated-Fits c u.unit_price (change_price c) counted i
        (λ p j k h e. ground (
          arith,
          text_eq_iff p.currency c,
          new_item-IsItem j.id j.description j.quantity p j.tax_rate {item = k},
        ))
        (updated-Fits c u.quantity update_quantity described counted
          (λ q j k h e.
            ground (arith, new_item-IsItem j.id j.description q j.unit_price j.tax_rate {item = k}))
          (updated-Fits c u.description update_description item described
            (λ d j k h e.
              ground (arith, new_item-IsItem j.id d j.quantity j.unit_price j.tax_rate {item = k}))
            h e1)
          e2)
        f2
