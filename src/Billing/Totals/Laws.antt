-- ===== src/Billing/Totals/Laws.antt =====
-- When the amounts of an invoice exist. The items are valid and share one currency, and the
-- amount that an invoice without taxes gets for its tax is in US dollars.
use finvoice.Prelude.{
  Option, none, some, ◌≡◌, refl, ◌≢◌, sym, Bool, true, false, none, some, List, [], ◌∷◌, map, ◌||◌,
  All, any, inl, inr, ◌⊎◌, Option-cases, Bool-cases,
}
use finvoice.Text.{Text, text_eq, usd}
use finvoice.Text.Laws.{usd_code}
use finvoice.Dict.{Dict, lookup, insert, All-insert, All-lookup, insert-ne-nil}
use finvoice.Outcome.{Result, ok, err, error, and_then}
use finvoice.Runtime.{Runtime, IsOrdered, nought}
use finvoice.Billing.Money.{Money, add}
use finvoice.Billing.Money.Laws.{new_money-ok, add_mixed}
use finvoice.Billing.LineItem.{LineItem}
use finvoice.Billing.LineItem.Laws.{money}
use finvoice.Billing.Totals.Sums.{
  MoneyIn, ItemIn, Pays, is_taxed, add-Pays, reduce_from-Pays, get_tax_amount-Pays,
  calculate_subtotal-Pays,
}
use finvoice.Billing.Totals.{
  plus, put_tax, reduce_money, add_tax, collect_taxes, tax_line, calculate_tax_lines, sum_tax_lines,
  calculate_total_tax, calculate_total,
}

module _ {N : Type 0} ⦃r : Runtime N⦄ where
  module _ (laws : IsOrdered N) (c : Text) where
    -- The map of taxes so far: valid amounts in the currency of the items.
    abbrev pub TaxesIn : Dict (Money N) → Type 0
    TaxesIn = All (λ (e : Text × Money N). MoneyIn c e.1)

    plus-Pays :
        (o : Option (Money N)) (amount : Money N)
        → MoneyIn c amount
        → ((old : Money N) → o ≡ some old → MoneyIn c old)
        → Pays c (plus o amount)
    plus-Pays none amount ha h = (amount, refl, ha)
    plus-Pays (some old) amount ha h = add-Pays laws c old amount (h old refl) ha

    put_tax-TaxesIn :
        (name : Text) (amount : Money N) (taxes : Dict (Money N))
        → MoneyIn c amount
        → TaxesIn taxes
        → (m : Dict (Money N)) × (put_tax name amount taxes ≡ ok m) × TaxesIn m × (m ≢ [])
    unfolding put_tax
    put_tax-TaxesIn name amount taxes ha h =
        let (s, e, hs) =
          plus-Pays (lookup name taxes) amount ha
            (λ old found. All-lookup (MoneyIn c) name old taxes h found) in
        (
          insert name s taxes,
          rw e refl,
          All-insert (λ e. MoneyIn c e.1) name s taxes (λ _. hs) h,
          insert-ne-nil name s taxes,
        )

    -- What one item does to the map: it adds its tax, and without a rate it changes nothing.
    abbrev Taxes : Bool → Dict (Money N) → Result (Dict (Money N)) → Type 0
    Taxes true taxes m = (t : Dict (Money N)) × (m ≡ ok t) × TaxesIn t × (t ≢ [])
    Taxes false taxes m = m ≡ ok taxes

    add_tax-Taxes :
        (taxes : Dict (Money N)) (i : LineItem N)
        → TaxesIn taxes
        → ItemIn c i
        → Taxes (is_taxed i) taxes (add_tax taxes i)
    unfolding add_tax
    add_tax-Taxes taxes i h hi = elim (Option-cases i.tax_rate) [
      | inl untaxed ↦ rw untaxed refl
      | inr (t, taxed) ↦
          let (a, e, ha) = get_tax_amount-Pays laws c i hi in
          simp (taxed, e, add_tax, is_taxed) (put_tax-TaxesIn t.name a taxes ha h)
    ]

    abbrev pub any_taxed : List (LineItem N) → Bool
    any_taxed items = any is_taxed items

    -- After one item, the rest of the items.
    Taxes-then :
        (b rest : Bool) (taxes : Dict (Money N)) (m : Result (Dict (Money N)))
        (f : Dict (Money N) → Result (Dict (Money N)))
        → Taxes b taxes m
        → Taxes rest taxes (f taxes)
        → ((t : Dict (Money N)) → TaxesIn t → t ≢ [] → Taxes true t (f t))
        → Taxes (b || rest) taxes (and_then m f)
    Taxes-then true rest taxes m f (t, e, ht, ne) _ on = rw e (on t ht ne)
    Taxes-then false rest taxes m f e here _ = rw e here

    collect_taxes_kept :
        (taxes : Dict (Money N)) (items : List (LineItem N))
        → TaxesIn taxes
        → taxes ≢ []
        → All (ItemIn c) items
        → Taxes true taxes (collect_taxes taxes items)
    unfolding collect_taxes
    collect_taxes_kept taxes [] h ne hi = (taxes, refl, h, ne)
    collect_taxes_kept taxes (i ∷ items) h ne (hi, his) =
        let step = add_tax-Taxes taxes i h hi in
        let rest = collect_taxes_kept taxes items h ne his in
        elim (Bool-cases (is_taxed i)) [
          | inl taxed ↦
              Taxes-then true true taxes _ (λ m. collect_taxes m items) (rw taxed at step) rest
                (λ t ht ne'. collect_taxes_kept t items ht ne' his)
          | inr untaxed ↦
              Taxes-then false true taxes _ (λ m. collect_taxes m items) (rw untaxed at step) rest
                (λ t ht ne'. collect_taxes_kept t items ht ne' his)
        ]

    -- The map of all taxes: unchanged without a taxed item, else one that has an entry.
    collect_taxes-Taxes :
        (taxes : Dict (Money N)) (items : List (LineItem N))
        → TaxesIn taxes
        → All (ItemIn c) items
        → Taxes (any is_taxed items) taxes (collect_taxes taxes items)
    unfolding collect_taxes
    collect_taxes-Taxes taxes [] h hi = refl
    collect_taxes-Taxes taxes (i ∷ items) h (hi, his) =
        Taxes-then (is_taxed i) (any is_taxed items) taxes _ (λ m. collect_taxes m items)
          (add_tax-Taxes taxes i h hi) (collect_taxes-Taxes taxes items h his)
          (λ t ht ne. collect_taxes_kept t items ht ne his)

    -- The tax of valid items in currency `c`: in that currency if one is taxed, and otherwise
    -- zero US dollars, whatever the currency.
    abbrev TaxTotal : Bool → Result (Money N) → Type 0
    TaxTotal true m = Pays c m
    TaxTotal false m = m ≡ ok (money nought usd)

    amounts-MoneyIn :
        (items : List (LineItem N)) (t : Dict (Money N))
        → TaxesIn t
        → All (MoneyIn c) (map (λ l. l.amount) (map (tax_line items) t))
    amounts-MoneyIn items [] h = tt
    amounts-MoneyIn items (e ∷ t) (h, hs) = (h, amounts-MoneyIn items t hs)

    sum_tax_lines-Pays :
        (items : List (LineItem N)) (t : Dict (Money N))
        → TaxesIn t
        → t ≢ []
        → Pays c (sum_tax_lines (map (tax_line items) t))
    unfolding sum_tax_lines reduce_money
    sum_tax_lines-Pays items [] h ne = absurd (ne refl)
    sum_tax_lines-Pays items (e ∷ t) (h, hs) ne =
        reduce_from-Pays laws c e.1 _ h (amounts-MoneyIn items t hs)

    calculate_total_tax-TaxTotal :
        (items : List (LineItem N))
        → All (ItemIn c) items
        → TaxTotal (any is_taxed items) (calculate_total_tax items)
    unfolding calculate_total_tax calculate_tax_lines sum_tax_lines reduce_money
    calculate_total_tax-TaxTotal items h =
        total (any is_taxed items) (collect_taxes-Taxes [] items tt h)
      where
        total :
            (b : Bool)
            → Taxes b [] (collect_taxes [] items)
            → TaxTotal b (calculate_total_tax items)
        total true (t, e, ht, ne) = rw e (sum_tax_lines-Pays items t ht ne)
        total false e = rw e (new_money-ok nought usd (laws.lt_irrefl nought) usd_code)

    plus_tax-Pays :
        (s : Money N) (b : Bool) (m : Result (Money N))
        → MoneyIn c s
        → (b ≡ true) ⊎ (c ≡ usd)
        → TaxTotal b m
        → Pays c (and_then m (λ tax. add s tax))
    plus_tax-Pays s true m h o (t, e, ht) = rw e (add-Pays laws c s t h ht)
    plus_tax-Pays s false m h (inl e) t = cc
    plus_tax-Pays s false m h (inr e) t = rw t (
        add-Pays laws c s (money nought usd) h (record {
          valid = record { not_negative = laws.lt_irrefl nought; has_code = usd_code };
          same_currency = sym e;
        }))

    -- Valid items in one currency have a total if one of them is taxed, or if the currency is USD.
    pub calculate_total-Pays :
        (i : LineItem N) (items : List (LineItem N))
        → All (ItemIn c) (i ∷ items)
        → (any is_taxed (i ∷ items) ≡ true) ⊎ (c ≡ usd)
        → Pays c (calculate_total (i ∷ items))
    unfolding calculate_total
    calculate_total-Pays i items h o =
        let (s, e, hs) = calculate_subtotal-Pays laws c i items h in
        rw e (
          plus_tax-Pays s (any is_taxed (i ∷ items)) _ hs o
            (calculate_total_tax-TaxTotal (i ∷ items) h))

    -- Without a taxed item the total of valid items in another currency than USD is the exception
    -- of adding amounts in different currencies.
    pub calculate_total_untaxed :
        (i : LineItem N) (items : List (LineItem N))
        → All (ItemIn c) (i ∷ items)
        → any is_taxed (i ∷ items) ≡ false
        → text_eq c usd ≡ false
        → calculate_total (i ∷ items) ≡ err (error "Cannot add money with different currencies" [])
    unfolding calculate_total
    calculate_total_untaxed i items h none_taxed other =
        let (s, e, hs) = calculate_subtotal-Pays laws c i items h in
        let t : TaxTotal false (calculate_total_tax (i ∷ items)) =
          rw none_taxed at (calculate_total_tax-TaxTotal (i ∷ items) h) in
        rw (e, t) (add_mixed s (money nought usd) (rw hs.same_currency other))
