-- ===== src/Admin/RoleLaws.antt =====
-- What the calls on roles guarantee.

use finvoice.Prelude.{
  map, some, if◌then◌else◌, ◌≡◌, refl, true, false, not, ◌||◌, none, List, [], ◌∷◌, ◌++◌, find,
  filter, arith, Bool-cases, Option-cases, inl, inr, ◌⊎◌, is_none,
}
use finvoice.Collection.Keys.{find-map, find-true, KeysDistinct, KeysDistinct-append}
use finvoice.Outcome.{ok, is_ok}
use finvoice.Text.{text_eq, Text, is_empty}
use finvoice.Runtime.{Date, Clock}
use finvoice.Collection.{IsCollection}
use finvoice.Admin.Bulk.{Accounts, create_each-docs}
use finvoice.Admin.Roles.{
  pulled, remove_permission, RolesEnvironment, RoleData, State, has_id, has_name, new_role,
  save_role, get_role_by_id, clone_role, clone_of,
}
use finvoice.Admin.{Role, log_action}
use finvoice.Admin.BulkRoles.{create_all, create_one}

-- What a role has of the entry that it was made from.
pub record Asked (dto : RoleData) (role : Role) : Type 0 where
  pub id : role.id ≡ dto.id
  pub name : role.name ≡ dto.name
  pub display_name : role.display_name ≡ dto.display_name
  pub permissions : role.permissions ≡ dto.permissions
  pub status : role.status ≡ dto.status

-- Why an entry is refused: a name is missing, or its name is taken.
abbrev pub IsRefused : List Role → RoleData → Type 0
IsRefused before dto =
    ((is_empty dto.name || is_empty dto.display_name) ≡ true)
    ⊎ (is_none (find (has_name dto.name) before) ≡ false)

new_role-Asked : (dto : RoleData) (now : Date) → Asked dto (new_role dto now)
unfolding new_role
new_role-Asked dto now = record {
  id = refl;
  name = refl;
  display_name = refl;
  permissions = refl;
  status = refl;
}

module _ {R L : Type 0} (e : RolesEnvironment R L) where
  open e use {roles}

  abbrev docs : State e → List Role
  docs s = roles.docs s.main

  -- No role is cloned: whatever the arguments, `cloneRole` throws, and neither the roles nor the audit
  -- log change.
  pub clone_role_refused :
      (id new_id new_name : Text) (clock : Clock) (s : State e)
      → (is_ok (clone_role e id new_id new_name clock s).0 ≡ false)
        × ((clone_role e id new_id new_name clock s).1 ≡ s)
  unfolding clone_role clone_of save_role get_role_by_id
  clone_role_refused id new_id new_name clock s = elim (Option-cases (find (has_id id) (docs s))) [
    | inl missing ↦ ground (arith, missing)
    | inr (role, found) ↦ elim (Option-cases (find (has_name new_name) (docs s))) [
      | inl new ↦ ground (arith, found, new)
      | inr (other, taken) ↦ ground (arith, found, taken)
    ]
  ]

  -- One creation adds the new role, whose name is new, or throws and changes nothing.
  create_one-docs :
      (laws : IsCollection R Role roles) (action : Text) (dto : RoleData) (now : Date) (s : State e)
      → (((create_one e action dto now s).0 ≡ ok (new_role dto now))
          × (docs (create_one e action dto now s).1 ≡ docs s ++ (new_role dto now ∷ []))
          × (find (has_name dto.name) (docs s) ≡ none))
        ⊎ (IsRefused (docs s) dto
            × (is_ok (create_one e action dto now s).0 ≡ false)
            × (docs (create_one e action dto now s).1 ≡ docs s))
  unfolding create_one save_role new_role log_action
  create_one-docs laws action dto now s = elim (Option-cases (find (has_name dto.name) (docs s))) [
    | inr (role, taken) ↦ inr (inr (rw taken refl), ground (arith, taken), ground (arith, taken))
    | inl new ↦ elim (Bool-cases (is_empty dto.name || is_empty dto.display_name)) [
      | inl empty ↦ inr (inl empty, ground (arith, new, empty), ground (arith, new, empty))
      | inr full ↦ inl (ground (arith, new, full, laws.docs-insert (new_role dto now) s.main))
    ]
  ]

  -- A bulk creation or an import goes through the roles of the request in their order: each is created,
  -- with the identifier, names, permissions and status that are asked for, or its name is reported,
  -- which happens only if a name is missing or taken by a role that is there by then. The
  -- created ones are added behind the roles that were there, and no two roles get the same name.
  pub create_all-docs :
      (laws : IsCollection R Role roles) (action : Text) (dtos : List RoleData) (clock : Clock)
      (s : State e)
      → KeysDistinct (λ r. r.name) (docs s)
      → let (result, s') = create_all e action dtos clock s in
        (docs s' ≡ docs s ++ result.created)
        × Accounts Asked IsRefused (λ dto. dto.name) (docs s) dtos result.created result.errors
        × KeysDistinct (λ r. r.name) (docs s')
  unfolding create_all
  create_all-docs laws action dtos clock s h =
      create_each-docs (create_one e action) (λ dto. dto.name) Asked IsRefused docs
        (KeysDistinct (λ r. r.name))
        (λ dto now s' h'. elim (create_one-docs laws action dto now s') [
          | inl (good, added, new) ↦ inl (
            new_role dto now,
            new_role-Asked dto now,
            good,
            added,
            KeysDistinct-append (λ r. r.name) (docs s') (new_role dto now) (unfold new_role in new)
                h',
          )
          | inr (refused, bad, same) ↦ inr (refused, bad, same)
        ])
        dtos clock s h

  pulled-id :
      (id permission_id : Text) (now : Date) (r : Role)
      → (if has_id id r then pulled permission_id now r else r).id ≡ r.id
  unfolding pulled
  pulled-id id permission_id now r = ground arith

  others-map :
      (id permission_id : Text) (now : Date) (rs : List Role)
      → filter
          (λ r. not (has_id id r))
          (map (λ r. if has_id id r then pulled permission_id now r else r) rs)
        ≡ filter (λ r. not (has_id id r)) rs
  unfolding pulled
  others-map id permission_id now [] = refl
  others-map id permission_id now (r ∷ rs) = ground (arith, others-map id permission_id now rs)

  -- Where the role exists, the call returns it without the permission and otherwise as it was, and no
  -- other role changes.
  pub remove_permission-docs :
      (laws : IsCollection R Role roles) (id permission_id : Text) (clock : Clock) (s : State e)
      (role : Role)
      → find (has_id id) (docs s) ≡ some role
      → ((remove_permission e id permission_id clock s).0
          ≡ ok (
              some (record role {
                permissions = filter (λ p. not (text_eq p permission_id)) role.permissions;
                updated_at = clock 0;
              })))
        × (filter (λ r. not (has_id id r)) (docs (remove_permission e id permission_id clock s).1)
            ≡ filter (λ r. not (has_id id r)) (docs s))
  unfolding remove_permission get_role_by_id log_action
  remove_permission-docs laws id permission_id clock s role found =
      let f = pulled permission_id (clock 0) in
      let written = laws.docs-update (has_id id) f s.main in
      let shown : f role ≡ record role {
        permissions = filter (λ p. not (text_eq p permission_id)) role.permissions;
        updated_at = clock 0;
      } =
        unfold pulled in refl in
      let is_id : has_id id role ≡ true = find-true (has_id id) (docs s) found in
      let kept =
        find-map (λ (r : Role). r.id) (λ r. if has_id id r then f r else r) id (docs s)
          (pulled-id id permission_id (clock 0)) in
      (
        ground (arith, found, written, kept, is_id, shown),
        ground (arith, found, written, others-map id permission_id (clock 0) (docs s)),
      )
