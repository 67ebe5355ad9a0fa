-- ===== src/Dict.antt =====
-- A JavaScript `Map` from strings, in insertion order.
use finvoice.Prelude.{
  ◌≡◌, ◌≢◌, refl, Option, none, some, List, [], ◌∷◌, arith, if◌then◌else◌, All, All-mono, inl, inr,
  subst, Bool-cases,
}
use finvoice.Text.{Text, text_eq}
use finvoice.Text.Laws.{text_eq_refl, text_eq_iff}

abbrev pub Dict {ℓ} : Type ℓ → Type ℓ
Dict V = List (Text × V)

module _ {ℓ} {V : Type ℓ} where
  -- `m.get(k)`
  unfoldable pub lookup : Text → Dict V → Option V
  lookup k [] = none
  lookup k ((j, v) ∷ m) = if text_eq j k then some v else lookup k m

  -- `m.set(k, v)`: a key that is there keeps its place.
  unfoldable pub insert : Text → V → Dict V → Dict V
  insert k v [] = (k, v) ∷ []
  insert k v ((j, w) ∷ m) = if text_eq j k then (j, v) ∷ m else (j, w) ∷ insert k v m

  -- `m.delete(k)`
  unfoldable pub erase : Text → Dict V → Dict V
  erase k [] = []
  erase k ((j, w) ∷ m) = if text_eq j k then m else (j, w) ∷ erase k m

  -- Reading after a write.
  pub lookup-insert :
      (k j : Text) (v : V) (m : Dict V)
      → lookup j (insert k v m) ≡ (if text_eq k j then some v else lookup j m)
  unfolding lookup insert
  lookup-insert k j v [] = refl
  lookup-insert k j v ((i, w) ∷ m) =
      ground (arith, text_eq_iff k j, text_eq_iff i k, text_eq_iff i j, lookup-insert k j v m)

  pub insert-insert : (k : Text) (u v : V) (m : Dict V) → insert k v (insert k u m) ≡ insert k v m
  unfolding insert
  insert-insert k u v [] = rw (text_eq_refl k) refl
  insert-insert k u v ((j, w) ∷ m) = ground (arith, insert-insert k u v m)

  pub All-insert {κ} :
      (P : Text × V → Type κ) (k : Text) (v : V) (m : Dict V)
      → ((j : Text) → P (j, v))
      → All P m
      → All P (insert k v m)
  unfolding insert
  All-insert P k v [] q h = (q k, tt)
  All-insert P k v ((j, w) ∷ m) q (p, ps) = ground (arith, q j, All-insert P k v m q ps)

  pub All-lookup {κ} :
      (P : V → Type κ) (k : Text) (v : V) (m : Dict V)
      → All (λ e. P e.1) m
      → lookup k m ≡ some v
      → P v
  unfolding lookup
  All-lookup P k v [] h e = cc
  All-lookup P k v ((j, w) ∷ m) (p, ps) e = elim (Bool-cases (text_eq j k)) [
    | inl same ↦ let q : w ≡ v = ground arith in subst P q p
    | inr other ↦ All-lookup P k v m ps (rw other at e)
  ]

  -- `m` holds no key twice.
  abbrev pub IsMap : Dict V → Type ℓ
  IsMap [] = Unit
  IsMap ((k, _) ∷ m) = (lookup k m ≡ none) × IsMap m

  -- Each entry is what its key finds.
  pub lookup-All : (m : Dict V) → IsMap m → All (λ e. lookup e.0 m ≡ some e.1) m
  unfolding lookup
  lookup-All [] h = tt
  lookup-All ((k, v) ∷ m) (new, h) = (
    rw (text_eq_refl k) refl,
    All-mono m (λ e p. ground (arith, text_eq_iff k e.0, p, new)) (lookup-All m h),
  )

  pub insert-IsMap : (k : Text) (v : V) (m : Dict V) → IsMap m → IsMap (insert k v m)
  unfolding insert lookup
  insert-IsMap k v [] h = (refl, tt)
  insert-IsMap k v ((j, w) ∷ m) (new, h) =
      ground (arith, text_eq_iff k j, text_eq_iff j k, insert-IsMap k v m h, lookup-insert k j v m)

  pub insert-ne-nil : (k : Text) (v : V) (m : Dict V) → insert k v m ≢ []
  unfolding insert
  insert-ne-nil k v [] = λ e. cc
  insert-ne-nil k v ((j, w) ∷ m) = λ e. ground arith

  -- Every key that is listed is found.
  pub keys_found : (m : Dict V) → All (λ (e : Text × V). lookup e.0 m ≢ none) m
  unfolding lookup
  keys_found [] = tt
  keys_found ((j, w) ∷ m) = (
    λ h. ground (arith, text_eq_refl j),
    All-mono m (λ e found h. found (ground arith)) (keys_found m),
  )

  -- Reading after a deletion.
  pub lookup-erase :
      (k j : Text) (m : Dict V)
      → IsMap m
      → lookup j (erase k m) ≡ (if text_eq k j then none else lookup j m)
  unfolding lookup erase
  lookup-erase k j [] h = ground arith
  lookup-erase k j ((i, w) ∷ m) (new, h) =
      ground (arith, text_eq_iff k j, text_eq_iff i k, text_eq_iff i j, lookup-erase k j m h)

  pub erase-IsMap : (k : Text) (m : Dict V) → IsMap m → IsMap (erase k m)
  unfolding lookup erase
  erase-IsMap k [] h = tt
  erase-IsMap k ((i, w) ∷ m) (new, h) =
      ground (arith, new, h, erase-IsMap k m h, lookup-erase k i m h)
