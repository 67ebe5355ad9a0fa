-- ===== src/Collection/Listed.antt =====
-- A collection that is the list of its documents.
use finvoice.Prelude.{refl, not, List, [], ◌∷◌, ◌++◌, map, filter, if◌then◌else◌}
use finvoice.Collection.{Collection, IsCollection}

module _ {D : Type 0} where
  abbrev pub listed : Collection (List D) D
  listed = record {
    docs = λ s. s;
    insert = λ d s. s ++ (d ∷ []);
    update = λ p f s. map (λ d. if p d then f d else d) s;
    remove = λ p s. filter (λ d. not (p d)) s;
  }

  pub listed-IsCollection : IsCollection (List D) D listed
  listed-IsCollection = record {
    docs-insert = λ d s. refl;
    docs-update = λ p f s. refl;
    docs-remove = λ p s. refl;
  }
