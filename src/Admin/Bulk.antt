-- ===== src/Admin/Bulk.antt =====
-- The loops of the bulk creations and imports of src/modules/admin/services: each entry is tried, and
-- what it throws is collected. Each round has its own reading of the clock.
use finvoice.Prelude.{suc, ◌≡◌, sym, false, List, [], ◌∷◌, ◌++◌, arith, inl, inr, ◌⊎◌}
use finvoice.Text.{Text}
use finvoice.Outcome.{ok, err, Method, is_ok, Result-cases}
use finvoice.Runtime.{Date, Clock}
use mathlib.Core.List.{append-nil, append_assoc}

-- What a bulk creation returns: the documents, and the names of the entries that were refused.
pub record Created (D : Type 0) : Type 0 where
  pub created : List D
  pub errors : List Text

-- What becomes of the entries of a request, in their order, on the documents `before`: each is made into
-- a document behind them, or there is a reason to refuse it and its name is reported.
pub data Accounts {D X : Type 0} (Makes : X → D → Type 0) (Refuses : List D → X → Type 0)
    (name : X → Text) : List D → List X → List D → List Text → Type 0 where
  all_done : {before : List D} → Accounts Makes Refuses name before [] [] []
  made :
      {before : List D} {x : X} {d : D} {xs : List X} {ds : List D} {es : List Text}
      → Makes x d
      → Accounts Makes Refuses name (before ++ (d ∷ [])) xs ds es
      → Accounts Makes Refuses name before (x ∷ xs) (d ∷ ds) es
  reported :
      {before : List D} {x : X} {xs : List X} {ds : List D} {es : List Text}
      → Refuses before x
      → Accounts Makes Refuses name before xs ds es
      → Accounts Makes Refuses name before (x ∷ xs) ds (name x ∷ es)

module _ {S D X : Type 0} (one : X → Date → Method S D) (name : X → Text) where
  unfoldable pub create_each : List X → Clock → S → Created D × S
  create_each [] clock s = (record { created = []; errors = [] }, s)
  create_each (x ∷ xs) clock s =
      let (result, s') = one x (clock 0) s in
      let (rest, s'') = create_each xs (λ k. clock (suc k)) s' in
      (
        elim result [
          | ok d ↦ record rest { created = d ∷ rest.created }
          | err _ ↦ record rest { errors = name x ∷ rest.errors }
        ],
        s'',
      )

  -- What one round does: it adds a document and keeps the property, or throws and adds nothing.
  abbrev pub AddsOne :
      (X → D → Type 0) → (List D → X → Type 0) → (docs : S → List D) → (List D → Type 0) → Type 0
  AddsOne Makes Refuses docs Good =
      (x : X) (now : Date) (s : S)
      → Good (docs s)
      → ((d : D) × Makes x d
          × ((one x now s).0 ≡ ok d)
          × (docs (one x now s).1 ≡ docs s ++ (d ∷ []))
          × Good (docs s ++ (d ∷ [])))
        ⊎ (Refuses (docs s) x × (is_ok (one x now s).0 ≡ false) × (docs (one x now s).1 ≡ docs s))

  pub create_each-docs :
      (Makes : X → D → Type 0) (Refuses : List D → X → Type 0) (docs : S → List D)
      (Good : List D → Type 0)
      → AddsOne Makes Refuses docs Good
      → (xs : List X) (clock : Clock) (s : S) → Good (docs s)
      → let (result, s') = create_each xs clock s in
        (docs s' ≡ docs s ++ result.created)
        × Accounts Makes Refuses name (docs s) xs result.created result.errors
        × Good (docs s')
  unfolding create_each
  create_each-docs Makes Refuses docs Good step [] clock s h =
      (sym (append-nil (docs s)), all_done, h)
  create_each-docs Makes Refuses docs Good step (x ∷ xs) clock s h =
      let s' = (one x (clock 0) s).1 in
      let next : Clock = λ k. clock (suc k) in
      elim (step x (clock 0) s h) [
        | inl (d, makes, good, added, kept) ↦
            let (grown, counted, last) =
              create_each-docs Makes Refuses docs Good step xs next s' (rw added kept) in
            (
              ground (
                arith,
                good,
                added,
                grown,
                append_assoc (docs s) (d ∷ []) (create_each xs next s').0.created,
              ),
              rw good (made makes (rw (sym added) counted)),
              last,
            )
        | inr (refuses, bad, same) ↦
            let (grown, counted, last) =
              create_each-docs Makes Refuses docs Good step xs next s' (rw same h) in
            elim (Result-cases (one x (clock 0) s).0) [
              | inl (d, good) ↦ absurd (ground (arith, good, bad))
              | inr (e, thrown) ↦ (
                ground (arith, thrown, same, grown),
                rw thrown (reported refuses (rw (sym same) counted)),
                last,
              )
            ]
      ]
