-- ===== src/Admin/Counting.antt =====
-- `assignPermissions` of src/modules/admin/services/roles.service.ts compares two counts.
use finvoice.Prelude.{true, some, map, Option-cases}
use finvoice.Outcome.{is_ok}
use finvoice.Runtime.{Clock, Date}
use finvoice.Collection.{IsCollection}
use finvoice.Prelude.{
  ◌≤◌, ◌≡◌, refl, ap, subst, Bool, false, not, ◌&&◌, none, List, [], ◌∷◌, find, filter, length, ℕ,
  if◌then◌else◌, ◌+◌, arith, Bool-cases, inl, inr, ◌↔◌, is_none,
}
use finvoice.Text.{Text, text_eq}
use finvoice.Text.Laws.{text_eq_iff}
use finvoice.Collection.Keys.{KeysDistinct, has_key}
use finvoice.Admin.{Role, Permission, is_in, one_of, log_action}
use finvoice.Admin.Roles.{
  RolesEnvironment, State, changed, no_change, has_id, find_role, get_role_by_id, write_role,
  assign_permissions,
}

module _ {D : Type 0} (key : D → Text) where
  hits : List Text → List D → ℕ
  hits ids ds = length (filter (one_of key ids) ds)

  -- Distinct keys, each of some document.
  abbrev pub AreKeys : List D → List Text → Type 0
  AreKeys ds [] = Unit
  AreKeys ds (id ∷ ids) =
      (is_none (find (has_key key id) ds) ≡ false) × (is_in ids id ≡ false) × AreKeys ds ids

  is_hit : List Text → List D → Text → Bool
  is_hit ids ds id = not (is_none (find (has_key key id) ds)) && not (is_in ids id)

  hits-cons :
      (id : Text) (ids : List Text) (ds : List D)
      → KeysDistinct key ds
      → hits (id ∷ ids) ds ≡ hits ids ds + (if is_hit ids ds id then 1 else 0)
  unfolding hits is_hit
  hits-cons id ids [] u = refl
  hits-cons id ids (d ∷ ds) (new, u) = elim (Bool-cases (text_eq (key d) id)) [
    | inr other ↦ ground (arith, other, hits-cons id ids ds u)
    | inl same ↦
        let q : key d ≡ id = (text_eq_iff (key d) id).0 same in
        let n : find (has_key key id) ds ≡ none =
          subst (λ k. find (has_key key k) ds ≡ none) q new in
        let m : is_in ids (key d) ≡ is_in ids id = ap (is_in ids) q in
        ground (arith, same, n, m, hits-cons id ids ds u)
  ]

  hits-nil : (ds : List D) → hits [] ds ≡ 0
  unfolding hits
  hits-nil [] = refl
  hits-nil (d ∷ ds) = hits-nil ds

  hits_le : (ids : List Text) (ds : List D) → KeysDistinct key ds → hits ids ds ≤ length ids
  hits_le [] ds u = omega (arith, hits-nil ds)
  hits_le (id ∷ ids) ds u = ground (arith, hits-cons id ids ds u, hits_le ids ds u)

  hits-AreKeys :
      (ids : List Text) (ds : List D)
      → KeysDistinct key ds
      → (hits ids ds ≡ length ids) ↔ AreKeys ds ids
  unfolding is_hit
  hits-AreKeys [] ds u = (λ _. tt, λ _. hits-nil ds)
  hits-AreKeys (id ∷ ids) ds u =
      let (to, from) = hits-AreKeys ids ds u in
      (
        λ h. ground (arith, hits-cons id ids ds u, hits_le ids ds u, to, h),
        λ (found, new, rest). ground (arith, hits-cons id ids ds u, from rest, found, new),
      )

-- The role of the identifier with the permissions.
abbrev pub assigned : Text → List Text → Date → Role → Role
assigned id ids now r = if has_id id r then record r { permissions = ids; updated_at = now } else r

module _ {R L : Type 0} (e : RolesEnvironment R L) where
  open e use {roles, permissions}

  -- Permissions are assigned exactly if the role exists and the identifiers are distinct ones of
  -- permissions. Then the role has those permissions, with a new date, and the other roles are what
  -- they were; otherwise nothing changes.
  pub assign_permissions-AreKeys :
      (laws : IsCollection R Role roles) (id : Text) (ids : List Text) (clock : Clock) (s : State e)
      → KeysDistinct (λ (p : Permission). p.id) permissions
      → ((is_ok (assign_permissions e id ids clock s).0 ≡ true)
          ↔ ((is_none (find_role e (has_id id) s) ≡ false) × AreKeys (λ p. p.id) permissions ids))
        × ((is_ok (assign_permissions e id ids clock s).0 ≡ true)
            → roles.docs (assign_permissions e id ids clock s).1.main
              ≡ map (assigned id ids (clock 0)) (roles.docs s.main))
        × ((is_ok (assign_permissions e id ids clock s).0 ≡ false)
            → (assign_permissions e id ids clock s).1 ≡ s)
  unfolding assign_permissions get_role_by_id write_role log_action changed hits
  assign_permissions-AreKeys laws id ids clock s distinct =
      let keys = hits-AreKeys (λ (p : Permission). p.id) ids permissions distinct in
      elim (Option-cases (find (has_id id) (roles.docs s.main))) [
        | inl missing ↦ ground (arith, missing)
        | inr (role, found) ↦
            let written =
              laws.docs-update (has_id id)
                (changed (record no_change { permissions = some ids }) (clock 0)) s.main in
            ground (arith, found, keys, written)
      ]
