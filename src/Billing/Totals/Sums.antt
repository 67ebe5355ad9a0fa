-- ===== src/Billing/Totals/Sums.antt =====
-- Sums of valid amounts in one currency, and the subtotal of an invoice.
use finvoice.Prelude.{none, some, ◌≡◌, refl, Bool, true, false, none, some, List, [], ◌∷◌, All}
use finvoice.Text.{Text}
use finvoice.Outcome.{Result, ok}
use finvoice.Runtime.{Runtime, IsOrdered}
use finvoice.Billing.Money.{Money, add}
use finvoice.Billing.Money.Laws.{IsMoney, add-ok, add-IsMoney}
use finvoice.Billing.LineItem.{LineItem, get_subtotal, get_tax_amount}
use finvoice.Billing.LineItem.Laws.{
  IsLineItem, subtotal, tax_of, money, subtotal-IsMoney, get_subtotal-ok, tax-IsMoney,
  get_tax_amount-ok,
}
use finvoice.Billing.Totals.{map_result, reduce_from, reduce_money, calculate_subtotal}

module _ {N : Type 0} ⦃r : Runtime N⦄ where
  -- A valid amount in currency `c`.
  pub record MoneyIn (c : Text) (m : Money N) : Type 0 where
    pub valid : IsMoney m
    pub same_currency : m.currency ≡ c

  -- A valid line item priced in currency `c`.
  pub record ItemIn (c : Text) (item : LineItem N) : Type 0 where
    pub valid : IsLineItem item
    pub same_currency : item.unit_price.currency ≡ c

  -- The call returns a valid amount in currency `c`.
  abbrev pub Pays : Text → Result (Money N) → Type 0
  Pays c m = (a : Money N) × (m ≡ ok a) × MoneyIn c a

  -- The item carries a tax rate.
  abbrev pub is_taxed : LineItem N → Bool
  is_taxed item = elim item.tax_rate [ none ↦ false | some _ ↦ true ]

  module _ (laws : IsOrdered N) (c : Text) where
    pub add-Pays : (m n : Money N) → MoneyIn c m → MoneyIn c n → Pays c (add m n)
    add-Pays m n hm hn =
        let s = money (r.add m.amount n.amount) m.currency in
        let e : add m n ≡ ok s = add-ok laws m n hm.valid hn.valid (cc) in
        (s, e, record { valid = add-IsMoney m n e; same_currency = hm.same_currency })

    pub reduce_from-Pays :
        (t : Money N) (ms : List (Money N))
        → MoneyIn c t
        → All (MoneyIn c) ms
        → Pays c (reduce_from t ms)
    unfolding reduce_from
    reduce_from-Pays t [] h hs = (t, refl, h)
    reduce_from-Pays t (m ∷ ms) h (hm, hs) =
        let (s, e, hs') = add-Pays t m h hm in rw e (reduce_from-Pays s ms hs' hs)

    -- Amounts that exist for every item exist for the list.
    map_result-MoneyIn :
        (f : LineItem N → Result (Money N)) (items : List (LineItem N))
        → ((i : LineItem N) → ItemIn c i → Pays c (f i))
        → All (ItemIn c) items
        → (ms : List (Money N)) × (map_result f items ≡ ok ms) × All (MoneyIn c) ms
    unfolding map_result
    map_result-MoneyIn f [] pays h = ([], refl, tt)
    map_result-MoneyIn f (i ∷ items) pays (h, hs) =
        let (m, e, hm) = pays i h in
        let (ms, es, hms) = map_result-MoneyIn f items pays hs in
        (m ∷ ms, rw (e, es) refl, (hm, hms))

    get_subtotal-Pays : (i : LineItem N) → ItemIn c i → Pays c (get_subtotal i)
    get_subtotal-Pays i h = (
      money (subtotal i) i.unit_price.currency,
      get_subtotal-ok laws i h.valid,
      record { valid = subtotal-IsMoney laws i h.valid; same_currency = h.same_currency },
    )

    pub get_tax_amount-Pays : (i : LineItem N) → ItemIn c i → Pays c (get_tax_amount i)
    get_tax_amount-Pays i h = (
      money (tax_of (subtotal i) i.tax_rate) i.unit_price.currency,
      get_tax_amount-ok laws i h.valid,
      record { valid = tax-IsMoney laws i h.valid; same_currency = h.same_currency },
    )

    -- The subtotal of at least one item is an amount in the currency of the items.
    pub calculate_subtotal-Pays :
        (i : LineItem N) (items : List (LineItem N))
        → All (ItemIn c) (i ∷ items)
        → Pays c (calculate_subtotal (i ∷ items))
    unfolding calculate_subtotal map_result reduce_money
    calculate_subtotal-Pays i items (h, hs) =
        let (m, e, hm) = get_subtotal-Pays i h in
        let (ms, es, hms) = map_result-MoneyIn get_subtotal items get_subtotal-Pays hs in
        rw (e, es) (reduce_from-Pays m ms hm hms)
