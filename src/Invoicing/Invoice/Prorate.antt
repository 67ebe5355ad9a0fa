-- ===== src/Invoicing/Invoice/Prorate.antt =====
-- `InvoiceAggregate.prorate`: a standard invoice for part of a month of 30 days, with a number from
-- the counter of `InvoiceNumber`.
use finvoice.Prelude.{
  subst, ◌≡◌, ℕ, suc, not, none, some, List, [], ◌∷◌, ◌++◌, leb, arith, inl, inr,
}
use mathlib.Core.List.{append_assoc, append-nil}
use finvoice.Text.{Text, text}
use finvoice.Outcome.{
  Result, ok, business_rule, and_then, and_then-eq-ok, Method, ◌>>=◌, ◌>>◌, throw_if, call,
  Result-cases,
}
use finvoice.Runtime.{Runtime, Date, Clock, ceil_days}
use finvoice.Invoicing.Money.{multiply}
use finvoice.Invoicing.Number.{InvoiceNumber, generate}
use finvoice.Invoicing.Number.Laws.{generate-counter}
use finvoice.Invoicing.Item.{Item, IsItem, new_item, new_item-IsItem}
use finvoice.Invoicing.Invoice.{draft, standard, is_recurring, Invoice, create, add_item}
use finvoice.Invoicing.Invoice.Invariant.{create-IsConsistent, add_item-IsConsistent, IsConsistent}

-- `${start} to ${end}`, with the days as `day` prints them
abbrev prorated_notes : (day : Date → Text) → Date → Date → Text
prorated_notes day start_date end_date =
    text "Prorated invoice for period " ++ day start_date ++ text " to " ++ day end_date

module _ {N : Type 0} ⦃r : Runtime N⦄ where
  -- The item for the part of the month; `id` is generated.
  unfoldable pub prorate_item : N → Text → Item N → Result (Item N)
  prorate_item factor id item = and_then (multiply item.unit_price factor) (λ price.
      new_item id (item.description ++ text " (Prorated)") item.quantity price item.tax_rate)

  -- The callback of `forEach`, for each item; `ids k` is the k-th identifier that is generated.
  unfoldable pub put_prorated :
      (ids : ℕ → Text) → N → List (Item N) → Invoice N → Result (Invoice N)
  put_prorated ids factor [] s = ok s
  put_prorated ids factor (item ∷ items) s = and_then (prorate_item factor (ids 0) item) (λ i.
      let (result, s') = add_item i s in
      and_then result (λ _. put_prorated (λ k. ids (suc k)) factor items s'))

  -- `actualDays / 30`
  unfoldable pub proration_factor : Date → Date → N
  proration_factor start_date end_date =
      r.div (r.number (ceil_days start_date end_date)) (r.number 30)

  -- The new invoice, with no items yet. `day` is `toISOString().split('T')[0]`.
  unfoldable pub start_prorated :
      (day : Date → Text)
      → (start_date end_date : Date) → Text
      → Clock
      → Invoice N
      → InvoiceNumber
      → Result (Invoice N)
  start_prorated day start_date end_date id clock s number =
      create id number s.client_id s.issued_by standard s.currency s.due_date s.project_id none
        (some (prorated_notes day start_date end_date)) clock

  -- The state is the counter of invoice numbers; `id` is the identifier of the new invoice.
  unfoldable pub prorate :
      (day : Date → Text)
      → (start_date end_date : Date) → Text
      → (ids : ℕ → Text) → Clock
      → Invoice N
      → Method ℕ (Invoice N)
  prorate day start_date end_date id ids clock s = do
    throw_if (not (is_recurring s.type))
        (business_rule "Only recurring invoices can be prorated" [])
    throw_if (leb end_date start_date) (business_rule "Start date must be before end date" [])
    number ← generate (text "PRO")
    created ← call (start_prorated day start_date end_date id clock s number)
    call (put_prorated ids (proration_factor start_date end_date) s.items created)

  -- The second item is the first for part of the month.
  pub record IsPart (factor : N) (i j : Item N) : Type 0 where
    pub description : j.description ≡ i.description ++ text " (Prorated)"
    pub quantity : j.quantity ≡ i.quantity
    pub tax_rate : j.tax_rate ≡ i.tax_rate
    pub price : multiply i.unit_price factor ≡ ok j.unit_price

  -- The lists have the same length, and their items correspond.
  abbrev pub AreParts : N → List (Item N) → List (Item N) → Type 0
  AreParts factor [] [] = Unit
  AreParts factor [] (_ ∷ _) = ⊥
  AreParts factor (_ ∷ _) [] = ⊥
  AreParts factor (i ∷ items) (j ∷ parts) = IsPart factor i j × AreParts factor items parts

  prorate_item-IsPart :
      (factor : N) (id : Text) (i j : Item N)
      → prorate_item factor id i ≡ ok j
      → IsPart factor i j × IsItem j
  unfolding prorate_item new_item
  prorate_item-IsPart factor id i j h = elim (Result-cases (multiply i.unit_price factor)) [
    | inl (price, e) ↦
        let built : new_item id (i.description ++ text " (Prorated)") i.quantity price i.tax_rate
            ≡ ok j =
          rw e at h in
        (
          ground (arith, e, built),
          (new_item-IsItem id (i.description ++ text " (Prorated)") i.quantity price i.tax_rate
              built).0,
        )
    | inr (x, e) ↦ absurd (ground (arith, e))
  ]

  add_item-ok :
      (i : Item N) (s : Invoice N)
      → (add_item i s).0 ≡ ok tt
      → (add_item i s).1 ≡ record s { items = s.items ++ (i ∷ []) }
  unfolding add_item
  add_item-ok i s h = ground arith

  put_prorated-AreParts :
      (ids : ℕ → Text) (factor : N) (items : List (Item N)) (s p : Invoice N)
      → IsConsistent s
      → put_prorated ids factor items s ≡ ok p
      → (parts : List (Item N)) × (p ≡ record s { items = s.items ++ parts })
        × AreParts factor items parts
        × IsConsistent p
  unfolding put_prorated
  put_prorated-AreParts ids factor [] s p c h =
      ([], ground (arith, append-nil s.items), tt, ground (arith, h, c))
  put_prorated-AreParts ids factor (item ∷ items) s p c h =
      let (i, e, f) = and_then-eq-ok (prorate_item factor (ids 0) item) _ h in
      let (part, valid) = prorate_item-IsPart factor (ids 0) item i e in
      let (_, added, g) = and_then-eq-ok (add_item i s).0 _ f in
      let s1 = record s { items = s.items ++ (i ∷ []) } in
      let next : (add_item i s).1 ≡ s1 = add_item-ok i s (ground (arith, added)) in
      let g' : put_prorated (λ k. ids (suc k)) factor items s1 ≡ ok p = rw next at g in
      let c' : IsConsistent s1 = subst IsConsistent next (add_item-IsConsistent i s valid c) in
      let (parts, same, are_parts, consistent) =
        put_prorated-AreParts (λ k. ids (suc k)) factor items s1 p c' g' in
      (
        i ∷ parts,
        ground (arith, same, append_assoc s.items (i ∷ []) parts),
        (part, are_parts),
        consistent,
      )

  start_prorated-IsConsistent :
      (day : Date → Text) (start_date end_date : Date) (id : Text) (clock : Clock) (s : Invoice N)
      (number : InvoiceNumber) (s0 : Invoice N)
      → start_prorated day start_date end_date id clock s number ≡ ok s0
      → IsConsistent s0
  unfolding start_prorated
  start_prorated-IsConsistent day start_date end_date id clock s number s0 h =
      create-IsConsistent id number s.client_id s.issued_by standard s.currency s.due_date
        s.project_id none (some (prorated_notes day start_date end_date)) clock s0 h

  start_prorated-fields :
      (day : Date → Text) (start_date end_date : Date) (id : Text) (clock : Clock) (s : Invoice N)
      (number : InvoiceNumber) (s0 : Invoice N)
      → start_prorated day start_date end_date id clock s number ≡ ok s0
      → (s0.status ≡ draft)
        × (s0.type ≡ standard)
        × (s0.client_id ≡ s.client_id)
        × (s0.issued_by ≡ s.issued_by)
        × (s0.currency ≡ s.currency)
        × (s0.due_date ≡ s.due_date)
        × (s0.number ≡ number)
        × (s0.items ≡ [])
  unfolding start_prorated create
  start_prorated-fields day start_date end_date id clock s number s0 h = ground (arith, h)

  -- Where `prorate` returns, the new invoice is a standard draft of the same client, issuer,
  -- currency and due date, with a number of the counter, which moves on by one. It has an item for
  -- each of the old one in the same order, with the same quantity and tax rate and the part of the
  -- price, and it keeps the invariant of invoices.
  pub prorate-AreParts :
      (day : Date → Text) (start_date end_date : Date) (id : Text) (ids : ℕ → Text) (clock : Clock)
      (s p : Invoice N) (n : ℕ)
      → (prorate day start_date end_date id ids clock s n).0 ≡ ok p
      → (p.status ≡ draft)
        × (p.type ≡ standard)
        × (p.client_id ≡ s.client_id)
        × (p.issued_by ≡ s.issued_by)
        × (p.currency ≡ s.currency)
        × (p.due_date ≡ s.due_date)
        × ((generate (text "PRO") n).0 ≡ ok p.number)
        × ((prorate day start_date end_date id ids clock s n).1 ≡ suc n)
        × AreParts (proration_factor start_date end_date) s.items p.items
        × IsConsistent p
  unfolding prorate
  prorate-AreParts day start_date end_date id ids clock s p n h =
      elim (Result-cases (generate (text "PRO") n).0) [
        | inr (x, e) ↦ absurd (ground (arith, e))
        | inl (number, e) ↦
            elim (Result-cases (start_prorated day start_date end_date id clock s number)) [
              | inr (x, e') ↦ absurd (ground (arith, e, e'))
              | inl (s0, e') ↦
                  let put : put_prorated ids (proration_factor start_date end_date) s.items s0
                      ≡ ok p =
                    ground (arith, e, e', h) in
                  let (parts, same, are_parts, valid) =
                    put_prorated-AreParts ids (proration_factor start_date end_date) s.items s0 p
                      (start_prorated-IsConsistent day start_date end_date id clock s number s0 e')
                      put in
                  ground (
                    arith,
                    e,
                    e',
                    h,
                    same,
                    are_parts,
                    valid,
                    start_prorated-fields day start_date end_date id clock s number s0 e',
                    generate-counter (text "PRO") n,
                  )
            ]
      ]
