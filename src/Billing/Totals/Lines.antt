-- ===== src/Billing/Totals/Lines.antt =====
-- What `calculateTaxLines` returns: the taxes of the items, grouped by the name of their rate.
use finvoice.Prelude.{
  sym, All, map, true, any, ◌≡◌, refl, false, Option, none, some, List, [], ◌∷◌, inl, inr,
  Bool-cases, if◌then◌else◌, ◌≢◌, subst, All-map, All-mono, ◌∙◌,
}
use finvoice.Text.{Text, text_eq}
use finvoice.Text.Laws.{text_eq_iff}
use finvoice.Dict.{keys_found, insert-IsMap, IsMap, Dict, lookup, insert, lookup-insert}
use finvoice.Outcome.{Result, ok, and_then, and_then-eq-ok}
use finvoice.Runtime.{Runtime}
use finvoice.Billing.Money.{Money, add}
use finvoice.Billing.TaxRate.{TaxRate}
use finvoice.Billing.LineItem.{LineItem, get_tax_amount}
use finvoice.Billing.Totals.{
  tax_line, rate_named, TaxLine, calculate_tax_lines, plus, put_tax, add_tax, collect_taxes,
  has_rate,
}

module _ {N : Type 0} ⦃r : Runtime N⦄ where
  -- The first amount, or the old sum and the amount added.
  abbrev pub joined : Option (Money N) → Money N → Result (Money N)
  joined none amount = ok amount
  joined (some old) amount = add old amount

  plus-joined : (o : Option (Money N)) (amount : Money N) → plus o amount ≡ joined o amount
  plus-joined none amount = refl
  plus-joined (some old) amount = refl

  -- The tax under one name, with no map: the taxes of the items of that name, in their order.
  pub tax_named : Text → Option (Money N) → List (LineItem N) → Result (Option (Money N))
  tax_named name acc [] = ok acc
  tax_named name acc (i ∷ items) =
      let rest = λ (o : Option (Money N)). tax_named name o items in
      if has_rate name i
      then and_then (get_tax_amount i) (λ amount. and_then (joined acc amount) (λ s. rest (some s)))
      else rest acc

  -- One entry of the map, and the same amount without the map.
  put_tax-named :
      (name k : Text) (amount : Money N) (taxes t : Dict (Money N))
      (rest : Option (Money N) → Result (Option (Money N)))
      → put_tax name amount taxes ≡ ok t
      → (if text_eq name k
          then and_then (joined (lookup k taxes) amount) (λ s. rest (some s))
          else rest (lookup k taxes))
        ≡ rest (lookup k t)
  unfolding put_tax
  put_tax-named name k amount taxes t rest h =
      let (s, e, f) =
        and_then-eq-ok (plus (lookup name taxes) amount) (λ s. ok (insert name s taxes)) h in
      let g : insert name s taxes ≡ t = cc in
      let q = lookup-insert name k s taxes in
      elim (Bool-cases (text_eq name k)) [
        | inl same ↦
            let n : name ≡ k = (text_eq_iff name k).0 same in
            let e' : joined (lookup k taxes) amount ≡ ok s =
              sym (plus-joined (lookup k taxes) amount) ∙ (rw n at e) in
            let q' : lookup k t ≡ some s = rw (g, same) at q in rw (same, e', q') refl
        | inr other ↦
            let q' : lookup k t ≡ lookup k taxes = rw (g, other) at q in rw (other, q') refl
      ]

  add_tax-named :
      (k : Text) (taxes : Dict (Money N)) (i : LineItem N) (t : Dict (Money N))
      (rest : Option (Money N) → Result (Option (Money N)))
      → add_tax taxes i ≡ ok t
      → (if has_rate k i
          then and_then
              (get_tax_amount i)
              (λ amount. and_then (joined (lookup k taxes) amount) (λ s. rest (some s)))
          else rest (lookup k taxes))
        ≡ rest (lookup k t)
  unfolding add_tax
  add_tax-named k taxes i t rest h = by_rate i.tax_rate h
    where
      by_rate :
          (o : Option (TaxRate N))
          → elim o [
            | none ↦ ok taxes
            | some t ↦ and_then (get_tax_amount i) (λ amount. put_tax t.name amount taxes)
          ]
            ≡ ok t
          → (if elim o [ none ↦ false | some t ↦ text_eq t.name k ]
              then and_then
                  (get_tax_amount i)
                  (λ amount. and_then (joined (lookup k taxes) amount) (λ s. rest (some s)))
              else rest (lookup k taxes))
            ≡ rest (lookup k t)
      by_rate none e = let e' : taxes ≡ t = cc in rw e'
      by_rate (some rate) e =
          let (amount, ea, ep) =
            and_then-eq-ok (get_tax_amount i) (λ amount. put_tax rate.name amount taxes) e in
          rw ea (put_tax-named rate.name k amount taxes t rest ep)

  collect_taxes-named :
      (k : Text) (taxes : Dict (Money N)) (items : List (LineItem N)) (t : Dict (Money N))
      → collect_taxes taxes items ≡ ok t
      → tax_named k (lookup k taxes) items ≡ ok (lookup k t)
  unfolding collect_taxes tax_named
  collect_taxes-named k taxes [] t h = let e : taxes ≡ t = cc in rw e
  collect_taxes-named k taxes (i ∷ items) t h =
      let (t', e, e') = and_then-eq-ok (add_tax taxes i) (λ m. collect_taxes m items) h in
      add_tax-named k taxes i t' (λ o. tax_named k o items) e ∙ collect_taxes-named k t' items t e'

  -- A name that no item carries gets no tax.
  tax_named_absent :
      (k : Text) (acc : Option (Money N)) (items : List (LineItem N))
      → any (has_rate k) items ≡ false
      → tax_named k acc items ≡ ok acc
  unfolding tax_named
  tax_named_absent k acc [] h = refl
  tax_named_absent k acc (i ∷ items) h = elim (Bool-cases (has_rate k i)) [
    | inl has ↦ cc
    | inr lacks ↦ rw lacks (tax_named_absent k acc items (rw lacks at h))
  ]

  put_tax-IsMap :
      (name : Text) (amount : Money N) (taxes t : Dict (Money N))
      → put_tax name amount taxes ≡ ok t
      → IsMap taxes
      → IsMap t
  unfolding put_tax
  put_tax-IsMap name amount taxes t h m =
      let (s, e, f) =
        and_then-eq-ok (plus (lookup name taxes) amount) (λ s. ok (insert name s taxes)) h in
      let g : insert name s taxes ≡ t = cc in subst IsMap g (insert-IsMap name s taxes m)

  add_tax-IsMap :
      (taxes : Dict (Money N)) (i : LineItem N) (t : Dict (Money N))
      → add_tax taxes i ≡ ok t
      → IsMap taxes
      → IsMap t
  unfolding add_tax
  add_tax-IsMap taxes i t h m = by_rate i.tax_rate h
    where
      by_rate :
          (o : Option (TaxRate N))
          → elim o [
            | none ↦ ok taxes
            | some t ↦ and_then (get_tax_amount i) (λ amount. put_tax t.name amount taxes)
          ]
            ≡ ok t
          → IsMap t
      by_rate none e = let e' : taxes ≡ t = cc in subst IsMap e' m
      by_rate (some rate) e =
          let (amount, ea, ep) =
            and_then-eq-ok (get_tax_amount i) (λ amount. put_tax rate.name amount taxes) e in
          put_tax-IsMap rate.name amount taxes t ep m

  collect_taxes-IsMap :
      (taxes : Dict (Money N)) (items : List (LineItem N)) (t : Dict (Money N))
      → collect_taxes taxes items ≡ ok t
      → IsMap taxes
      → IsMap t
  unfolding collect_taxes
  collect_taxes-IsMap taxes [] t h m = let e : taxes ≡ t = cc in subst IsMap e m
  collect_taxes-IsMap taxes (i ∷ items) t h m =
      let (t', e, e') = and_then-eq-ok (add_tax taxes i) (λ m. collect_taxes m items) h in
      collect_taxes-IsMap t' items t e' (add_tax-IsMap taxes i t' e m)

  rate_named_found :
      (k : Text) (items : List (LineItem N))
      → any (has_rate k) items ≡ true
      → (t : TaxRate N) × (rate_named k items ≡ some t) × (t.name ≡ k)
  rate_named_found k [] h = cc
  rate_named_found k (i ∷ items) h = elim (Bool-cases (has_rate k i)) [
    | inl has ↦ rw (has, rate_named) (named i.tax_rate has)
    | inr lacks ↦ rw (lacks, rate_named) (rate_named_found k items (rw lacks at h))
  ]
    where
      named :
          (o : Option (TaxRate N))
          → elim o [ none ↦ false | some t ↦ text_eq t.name k ] ≡ true
          → (t : TaxRate N) × (o ≡ some t) × (t.name ≡ k)
      named none e = cc
      named (some t) e = (t, refl, (text_eq_iff t.name k).0 e)

  -- The tax lines are the entries of a map from names to amounts. Under each name stands what the
  -- items of that name add up to in their order, and under another name nothing. Every line has
  -- a rate, the first of its name among the items.
  pub tax_lines_grouped :
      (items : List (LineItem N)) (lines : List (TaxLine N))
      → calculate_tax_lines items ≡ ok lines
      → (t : Dict (Money N)) × (lines ≡ map (tax_line items) t)
        × IsMap t
        × ((k : Text) → tax_named k none items ≡ ok (lookup k t))
        × All (λ (l : TaxLine N). (rate : TaxRate N) × (l.tax_rate ≡ some rate)) lines
  unfolding calculate_tax_lines
  tax_lines_grouped items lines h =
      let (t, e, f) =
        and_then-eq-ok (collect_taxes [] items) (λ taxes. ok (map (tax_line items) taxes)) h in
      let g : lines ≡ map (tax_line items) t = cc in
      let named : (k : Text) → tax_named k none items ≡ ok (lookup k t) =
        λ k. unfold lookup in collect_taxes-named k [] items t e in
      (
        t,
        g,
        collect_taxes-IsMap [] items t e tt,
        named,
        rw g (
            All-map _ (tax_line items) t
              (All-mono t (λ e' found. rated e'.0 found (named e'.0)) (keys_found t))),
      )
    where
      rated :
          {o : Option (Money N)} (k : Text)
          → o ≢ none
          → tax_named k none items ≡ ok o
          → (rate : TaxRate N) × (rate_named k items ≡ some rate)
      rated k found named = elim (Bool-cases (any (has_rate k) items)) [
        | inl has ↦ let (t, e, _) = rate_named_found k items has in (t, e)
        | inr lacks ↦ let e = tax_named_absent k none items lacks in absurd (found (cc))
      ]
