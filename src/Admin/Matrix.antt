-- ===== src/Admin/Matrix.antt =====
-- `validatePermissionMatrix` and `generatePermissionMatrix` of
-- src/modules/admin/services/permissions.service.ts.
use finvoice.Text.Laws.{text_eq_iff}
use finvoice.Prelude.{
  map, ◌≡◌, refl, Bool, true, false, not, List, [], ◌∷◌, ◌++◌, filter, if◌then◌else◌, arith,
  Bool-cases, inl, inr, ◌↔◌, All,
}
use finvoice.Text.{Text, text}
use finvoice.Admin.{Role, Permission, is_in}
use finvoice.Admin.Sync.{SystemPermission, get_system_permissions}

-- An entry of a matrix that a request holds.
pub record Grant : Type 0 where
  pub resource : Text
  pub action : Text

-- `${perm.resource}:${perm.action}`
unfoldable pub grant_key : (resource action : Text) → Text
grant_key resource action = resource ++ (text ":" ++ action)

-- The loop over the keys with the set of those seen.
unfoldable pub find_duplicates : (seen keys : List Text) → List Text
find_duplicates seen [] = []
find_duplicates seen (key ∷ keys) =
    let rest = find_duplicates (key ∷ seen) keys in if is_in seen key then key ∷ rest else rest

-- The messages are left out; there is a warning exactly if a system permission is missing.
pub record MatrixValidation : Type 0 where
  pub is_valid : Bool
  pub duplicates : List Text
  pub missing : List Text

unfoldable pub matrix_keys : List Grant → List Text
matrix_keys = map (λ (g : Grant). grant_key g.resource g.action)

unfoldable pub system_keys : List Text
system_keys = map (λ (p : SystemPermission). grant_key p.resource p.action) get_system_permissions

abbrev pub is_nil : List Text → Bool
is_nil [] = true
is_nil (_ ∷ _) = false

unfoldable pub validate_permission_matrix : List Grant → MatrixValidation
validate_permission_matrix grants =
    let duplicates = find_duplicates [] (matrix_keys grants) in
    record {
      is_valid = is_nil duplicates;
      duplicates = duplicates;
      missing = filter (λ key. not (is_in (matrix_keys grants) key)) system_keys;
    }

-- `matrix[role][permission]`
unfoldable pub generate_matrix : List Permission → List Role → List (Text × List (Text × Bool))
generate_matrix permissions =
    map
      (λ (r : Role). (r.id, map (λ (p : Permission). (p.id, is_in r.permissions p.id)) permissions))

-- No key twice.
abbrev pub AreDistinct : List Text → Type 0
AreDistinct [] = Unit
AreDistinct (key ∷ keys) = (is_in keys key ≡ false) × AreDistinct keys

unseen-cons :
    (seen keys : List Text) (key : Text)
    → All (λ k. is_in (key ∷ seen) k ≡ false) keys
      ↔ ((is_in keys key ≡ false) × All (λ k. is_in seen k ≡ false) keys)
unseen-cons seen [] key = (λ _. (refl, tt), λ _. tt)
unseen-cons seen (k ∷ keys) key =
    let (to, from) = unseen-cons seen keys key in
    (
      λ (p, ps).
          let (q, qs) = to ps in
          (ground (arith, text_eq_iff k key, text_eq_iff key k, p, q), (ground (arith, p), qs)),
      λ (p, (q, qs)). (
        ground (arith, text_eq_iff k key, text_eq_iff key k, p, q),
        from (ground (arith, p), qs),
      ),
    )

-- The loop finds nothing exactly if no key was seen before or comes twice.
find_duplicates-nil :
    (seen keys : List Text)
    → (find_duplicates seen keys ≡ []) ↔ (All (λ k. is_in seen k ≡ false) keys × AreDistinct keys)
unfolding find_duplicates
find_duplicates-nil seen [] = (λ _. (tt, tt), λ _. refl)
find_duplicates-nil seen (key ∷ keys) =
    let (to, from) = find_duplicates-nil (key ∷ seen) keys in
    let (split, join) = unseen-cons seen keys key in
    elim (Bool-cases (is_in seen key)) [
      | inl old ↦
          (λ h. absurd (ground (arith, old, h)), λ ((p, _), _). absurd (ground (arith, old, p)))
      | inr new ↦ (
        λ h.
            let (ps, qs) = to (ground (arith, new, h)) in
            let (q, ps') = split ps in ((new, ps'), (q, qs)),
        λ ((_, ps), (q, qs)). let r = from (join (q, ps), qs) in ground (arith, new, r),
      )
    ]

is_nil_iff : (l : List Text) → (is_nil l ≡ true) ↔ (l ≡ [])
is_nil_iff [] = (λ _. refl, λ _. refl)
is_nil_iff (x ∷ l) = (λ h. cc, λ h. cc)

unseen-nil : (keys : List Text) → All (λ k. is_in [] k ≡ false) keys
unseen-nil [] = tt
unseen-nil (k ∷ keys) = (refl, unseen-nil keys)

-- A matrix is valid exactly if no two of its entries have the same key.
pub validate_permission_matrix-AreDistinct :
    (grants : List Grant)
    → ((validate_permission_matrix grants).is_valid ≡ true) ↔ AreDistinct (matrix_keys grants)
unfolding validate_permission_matrix
validate_permission_matrix-AreDistinct grants =
    let (to, from) = find_duplicates-nil [] (matrix_keys grants) in
    let (nil, test) = is_nil_iff (find_duplicates [] (matrix_keys grants)) in
    (λ h. (to (nil h)).1, λ h. test (from (unseen-nil (matrix_keys grants), h)))
