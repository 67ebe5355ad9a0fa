-- ===== src/Collection/Keys.antt =====
-- Documents that a text tells apart: a unique path, or the identifier.
use finvoice.Prelude.{
  ◌≡◌, refl, Bool, true, false, none, some, List, [], ◌∷◌, ◌++◌, map, find, filter, arith,
  Bool-cases, inl, inr,
}
use mathlib.Core.Option
use finvoice.Text.{Text, text_eq}
use finvoice.Text.Laws.{text_eq_iff}

module _ {D : Type 0} where
  pub find-true : (p : D → Bool) (ds : List D) {d : D} → find p ds ≡ some d → p d ≡ true
  find-true p [] h = cc
  find-true p (x ∷ ds) {d} h = ground (arith, find-true p ds {d = d})

  pub find-never : (p : D → Bool) (ds : List D) → ((d : D) → p d ≡ false) → find p ds ≡ none
  find-never p [] h = refl
  find-never p (d ∷ ds) h = rw (h d) (find-never p ds h)

module _ {D : Type 0} (key : D → Text) where
  abbrev pub has_key : Text → D → Bool
  has_key k d = text_eq (key d) k

  -- No two documents have the same key.
  abbrev pub KeysDistinct : List D → Type 0
  KeysDistinct [] = Unit
  KeysDistinct (d ∷ ds) = (find (has_key (key d)) ds ≡ none) × KeysDistinct ds

  find-append_none :
      (k : Text) (ds : List D) (d : D)
      → find (has_key k) ds ≡ none
      → text_eq (key d) k ≡ false
      → find (has_key k) (ds ++ (d ∷ [])) ≡ none
  find-append_none k [] d h e = ground (arith, e)
  find-append_none k (x ∷ ds) d h e = ground (arith, find-append_none k ds d, e)

  pub KeysDistinct-append :
      (ds : List D) (d : D)
      → find (has_key (key d)) ds ≡ none
      → KeysDistinct ds
      → KeysDistinct (ds ++ (d ∷ []))
  KeysDistinct-append [] d h u = (refl, tt)
  KeysDistinct-append (x ∷ ds) d h (new, u) = ground (
    arith,
    find-append_none (key x) ds d new,
    text_eq_iff (key x) (key d),
    text_eq_iff (key d) (key x),
    KeysDistinct-append ds d,
  )

  pub find-map :
      (f : D → D) (k : Text) (ds : List D)
      → ((d : D) → key (f d) ≡ key d)
      → find (has_key k) (map f ds) ≡ Option.map f (find (has_key k) ds)
  find-map f k [] h = refl
  find-map f k (d ∷ ds) h = elim (Bool-cases (text_eq (key d) k)) [
    | inl same ↦ rw (h d, same) refl
    | inr other ↦ rw (h d, other) (find-map f k ds h)
  ]

  pub KeysDistinct-map :
      (f : D → D) (ds : List D)
      → ((d : D) → key (f d) ≡ key d)
      → KeysDistinct ds
      → KeysDistinct (map f ds)
  KeysDistinct-map f [] h u = tt
  KeysDistinct-map f (d ∷ ds) h (new, u) =
      (rw (h d, find-map f (key d) ds h, new) refl, KeysDistinct-map f ds h u)

  find-filter-none :
      (p : D → Bool) (k : Text) (ds : List D)
      → find (has_key k) ds ≡ none
      → find (has_key k) (filter p ds) ≡ none
  find-filter-none p k [] h = refl
  find-filter-none p k (d ∷ ds) h = ground (arith, find-filter-none p k ds)

  pub KeysDistinct-filter :
      (p : D → Bool) (ds : List D) → KeysDistinct ds → KeysDistinct (filter p ds)
  KeysDistinct-filter p [] u = tt
  KeysDistinct-filter p (d ∷ ds) (new, u) =
      ground (arith, find-filter-none p (key d) ds new, KeysDistinct-filter p ds u)

  find-none_key :
      (p : D → Bool) (k : Text) (ds : List D) {d : D}
      → find (has_key k) ds ≡ none
      → find p ds ≡ some d
      → text_eq (key d) k ≡ false
  find-none_key p k [] n h = cc
  find-none_key p k (x ∷ ds) {d} n h = ground (arith, find-none_key p k ds {d = d})

  -- A document that is found by any filter is found by its key.
  pub find-by_key :
      (p : D → Bool) (ds : List D) {d : D}
      → KeysDistinct ds
      → find p ds ≡ some d
      → find (has_key (key d)) ds ≡ some d
  find-by_key p [] u h = cc
  find-by_key p (x ∷ ds) {d} (new, u) h = ground (
    arith,
    find-by_key p ds {d = d} u,
    find-none_key p (key x) ds {d = d} new,
    text_eq_iff (key x) (key d),
    text_eq_iff (key d) (key x),
  )
