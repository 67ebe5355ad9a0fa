-- ===== src/Admin/Permissions.antt =====
-- `PermissionsService` of src/modules/admin/services/permissions.service.ts, the calls on one
-- permission. Identifiers that MongoDB cannot read are left out.
use finvoice.Prelude.{
  Bool, not, ◌&&◌, ◌||◌, Option, none, some, List, [], ◌∷◌, ◌++◌, any, filter, length, ℕ,
  if◌then◌else◌, ◌==◌, ltb, is_none,
}
use finvoice.Text.{Text, text, text_eq, is_empty}
use finvoice.Outcome.{
  Exception, ok, err, not_found, conflict, invalid_document, duplicate_key, Method, ◌>>=◌, ◌>>◌,
  throw_if, gets, modify, call,
}
use finvoice.Runtime.{Date, Clock}
use finvoice.Collection.{Collection, find_one}
use finvoice.Admin.{Role, Permission, AuditLog, Stored, is_in, on_main, log_action}
use finvoice.Admin.Roles.{given}

-- The collections; this service only reads the roles.
pub record PermissionsEnvironment (P L : Type 0) : Type 0 where
  pub permissions : Collection P Permission
  pub logs : Collection L AuditLog
  pub roles : List Role

-- A permission of a request, with the identifier that it will get.
pub record PermissionData : Type 0 where
  pub id : Text
  pub name : Text
  pub display_name : Text
  pub resource : Text
  pub action : Text
  pub category : Option Text

-- The fields that an update gives.
pub record PermissionUpdate : Type 0 where
  pub name : Option Text
  pub display_name : Option Text
  pub resource : Option Text
  pub action : Option Text
  pub category : Option Text

-- What `validatePermission` returns, with the messages as flags.
pub record PermissionValidation : Type 0 where
  pub is_valid : Bool
  pub missing_name : Bool
  pub missing_resource : Bool
  pub missing_action : Bool
  pub unassigned : Bool

abbrev pub has_id : Text → Permission → Bool
has_id id p = text_eq p.id id

abbrev pub has_name : Text → Permission → Bool
has_name name p = text_eq p.name name

-- The filter `{ resource, action }`.
abbrev pub grants : (resource action : Text) → Permission → Bool
grants resource action p = text_eq p.resource resource && text_eq p.action action

unfoldable pub new_permission : PermissionData → Date → Permission
new_permission dto now = record {
  id = dto.id;
  name = dto.name;
  display_name = dto.display_name;
  resource = dto.resource;
  action = dto.action;
  category = dto.category;
  updated_at = now;
}

unfoldable pub changed : PermissionUpdate → Date → Permission → Permission
changed u now p = record p {
  name = given u.name p.name;
  display_name = given u.display_name p.display_name;
  resource = given u.resource p.resource;
  action = given u.action p.action;
  category = elim u.category [ none ↦ p.category | some v ↦ some v ];
  updated_at = now;
}

-- `clonedPermissionData`, which has no display name
unfoldable pub clone_of : Permission → (id name : Text) → Date → Permission
clone_of original id name now = record {
  id = id;
  name = name;
  display_name = text "";
  resource = original.resource ++ text "_clone";
  action = original.action;
  category = original.category;
  updated_at = now;
}

-- `u || old`
abbrev pub or_old : Option Text → Text → Text
or_old none old = old
or_old (some new) old = if is_empty new then old else new

abbrev pub permission_not_found : Exception
permission_not_found = not_found "Permission not found" []

abbrev pub pair_taken : Exception
pair_taken = conflict "Permission for this resource and action already exists" []

module _ {P L : Type 0} (e : PermissionsEnvironment P L) where
  open e use {permissions}

  abbrev pub State : Type 0
  State = Stored P L

  abbrev pub log_permission : (action id : Text) → Method State (Unit {0})
  log_permission action id = log_action e.logs (text "permission") action id

  abbrev pub find_permission : (Permission → Bool) → State → Option Permission
  find_permission q s = find_one permissions q s.main

  -- `permission.save()`: the required paths are not empty, and the unique one is new.
  unfoldable pub save_permission : Permission → Method State (Unit {0})
  save_permission p = do
    throw_if
        (is_empty p.name || is_empty p.display_name || is_empty p.resource || is_empty p.action)
        (invalid_document "permissions")
    existing ← gets (find_permission (has_name p.name))
    elim existing [
      | none ↦ modify (on_main (permissions.insert p))
      | some _ ↦ call (err (duplicate_key "name"))
    ]

  -- One document's update on the server: no validation, but the unique index.
  unfoldable pub write_permission : Text → PermissionUpdate → Date → Method State (Unit {0})
  write_permission id u now = do
    taken ← gets (λ s. elim u.name [
      | none ↦ none
      | some name ↦ find_permission (λ p. has_name name p && not (has_id id p)) s
    ])
    elim taken [
      | none ↦ modify (on_main (permissions.update (has_id id) (changed u now)))
      | some _ ↦ call (err (duplicate_key "name"))
    ]

  unfoldable pub get_permission_by_id : Text → Method State Permission
  get_permission_by_id id s = elim (find_permission (has_id id) s) [
    | none ↦ (err permission_not_found, s)
    | some p ↦ (ok p, s)
  ]

  unfoldable pub check_permission_exists : (resource action : Text) → State → Option Permission
  check_permission_exists resource action = find_permission (grants resource action)

  -- `createPermission`, and the body of the loops of the bulk creation and the import, with the
  -- exception for a pair that is taken and the action that is logged
  unfoldable pub create_with :
      (taken : Exception) (logged : Text) → PermissionData → Date → Method State Permission
  create_with taken logged dto now = do
    existing ← gets (check_permission_exists dto.resource dto.action)
    elim existing [
      | some _ ↦ call (err taken)
      | none ↦
          let p = new_permission dto now in
          save_permission p >> log_permission logged dto.id >> call (ok p)
    ]

  abbrev pub create_permission : PermissionData → Clock → Method State Permission
  create_permission dto clock = create_with pair_taken (text "permission_created") dto (clock 0)

  -- `updateData.resource || updateData.action`
  abbrev pub regrants : PermissionUpdate → Bool
  regrants u =
      not (is_empty (or_old u.resource (text ""))) || not (is_empty (or_old u.action (text "")))

  unfoldable pub update_permission :
      Text → PermissionUpdate → Clock → Method State (Option Permission)
  update_permission id u clock = do
    p ← get_permission_by_id id
    existing ← gets (λ s.
        if regrants u
        then find_permission
            (λ q.
              grants (or_old u.resource p.resource) (or_old u.action p.action) q
              && not (has_id id q))
            s
        else none)
    throw_if (not (is_none existing)) pair_taken
    write_permission id u (clock 0)
    updated ← gets (find_permission (has_id id))
    log_permission (text "permission_updated") id
    call (ok updated)

  -- `roleModel.countDocuments({ permissions: { $in: ids } })`, for strings
  unfoldable pub roles_with : List Text → ℕ
  roles_with ids = length (filter (λ (r : Role). any (is_in ids) r.permissions) e.roles)

  unfoldable pub delete_permission : Text → Method State (Unit {0})
  delete_permission id = do
    get_permission_by_id id
    throw_if (ltb 0 (roles_with (id ∷ [])))
        (conflict "Cannot delete permission that is assigned to roles" [])
    modify (on_main (permissions.remove (has_id id)))
    log_permission (text "permission_deleted") id

  unfoldable pub clone_permission : (id new_id new_name : Text) → Clock → Method State Permission
  clone_permission id new_id new_name clock = do
    original ← get_permission_by_id id
    let p = clone_of original new_id new_name (clock 0)
    save_permission p
    log_permission (text "permission_cloned") new_id
    call (ok p)

  unfoldable pub validate_permission : Text → Method State PermissionValidation
  validate_permission id = do
    p ← get_permission_by_id id
    log_permission (text "permission_validated") id
    call (
        ok (record {
          is_valid = not (is_empty p.name) && not (is_empty p.resource) && not (is_empty p.action);
          missing_name = is_empty p.name;
          missing_resource = is_empty p.resource;
          missing_action = is_empty p.action;
          unassigned = roles_with (id ∷ []) == 0;
        }))
