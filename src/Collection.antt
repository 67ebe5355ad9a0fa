-- ===== src/Collection.antt =====
-- What the services use of Mongoose: the documents of a collection, in the order in which the server
-- returns them, and three writes. Connections that fail are not modelled.
pub mod Listed
pub mod Keys
use finvoice.Prelude.{
  ◌≡◌, Bool, not, Option, List, [], ◌∷◌, ◌++◌, map, find, filter, length, ℕ, if◌then◌else◌,
}

pub record Collection (S D : Type 0) : Type 0 where
  pub docs : S → List D
  pub insert : D → S → S
  -- `updateMany`, and `findByIdAndUpdate` with a filter on the identifier
  pub update : (D → Bool) → (D → D) → S → S
  -- `deleteMany`, and `findByIdAndDelete`
  pub remove : (D → Bool) → S → S

-- What the server's manual says of the writes.
pub record IsCollection (S D : Type 0) (c : Collection S D) : Type 0 where
  pub docs-insert : (d : D) (s : S) → c.docs (c.insert d s) ≡ c.docs s ++ (d ∷ [])
  pub docs-update :
      (p : D → Bool) (f : D → D) (s : S)
      → c.docs (c.update p f s) ≡ map (λ d. if p d then f d else d) (c.docs s)
  pub docs-remove :
      (p : D → Bool) (s : S) → c.docs (c.remove p s) ≡ filter (λ d. not (p d)) (c.docs s)

module _ {S D : Type 0} (c : Collection S D) where
  -- `findOne` and `findById`
  abbrev pub find_one : (D → Bool) → S → Option D
  find_one p s = find p (c.docs s)

  abbrev pub count : (D → Bool) → S → ℕ
  count p s = length (filter p (c.docs s))
