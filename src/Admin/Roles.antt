-- ===== src/Admin/Roles.antt =====
-- `RolesService` of src/modules/admin/services/roles.service.ts, the calls on one role. `populate`
-- finds no reference in the schema, so the permissions of a role are the identifiers. Identifiers that
-- MongoDB cannot read are left out.

use finvoice.Outcome.{◌>>=◌}
use finvoice.Prelude.{
  Bool, false, not, ◌&&◌, ◌||◌, Option, none, some, List, [], ◌∷◌, any, filter, length, ℕ,
  if◌then◌else◌, ◌==◌, ltb, is_none,
}
use finvoice.Text.{Text, text, text_eq, is_empty}
use finvoice.Outcome.{
  Exception, ok, err, not_found, conflict, invalid_document, duplicate_key, Method, ◌>>◌, throw_if,
  gets, modify, call,
}
use finvoice.Runtime.{Date, Clock}
use finvoice.Collection.{Collection, find_one}
use finvoice.Auth.{User}
use finvoice.Admin.{Role, Permission, AuditLog, Stored, is_in, one_of, on_main, log_action}

-- The collections; this service only reads the permissions and the users.
pub record RolesEnvironment (R L : Type 0) : Type 0 where
  pub roles : Collection R Role
  pub logs : Collection L AuditLog
  pub permissions : List Permission
  pub users : List User

-- A role of a request, with the identifier that it will get.
pub record RoleData : Type 0 where
  pub id : Text
  pub name : Text
  pub display_name : Text
  pub permissions : List Text
  pub status : Option Text

-- The fields that an update gives.
pub record RoleUpdate : Type 0 where
  pub name : Option Text
  pub display_name : Option Text
  pub permissions : Option (List Text)
  pub status : Option Text

abbrev pub has_id : Text → Role → Bool
has_id id r = text_eq r.id id

abbrev pub has_name : Text → Role → Bool
has_name name r = text_eq r.name name

abbrev pub given : {A : Type 0} → Option A → A → A
given none old = old
given (some new) old = new

unfoldable pub new_role : RoleData → Date → Role
new_role dto now = record {
  id = dto.id;
  name = dto.name;
  display_name = dto.display_name;
  permissions = dto.permissions;
  status = dto.status;
  updated_at = now;
}

unfoldable pub changed : RoleUpdate → Date → Role → Role
changed u now r = record r {
  name = given u.name r.name;
  display_name = given u.display_name r.display_name;
  permissions = given u.permissions r.permissions;
  status = elim u.status [ none ↦ r.status | some v ↦ some v ];
  updated_at = now;
}

abbrev pub no_change : RoleUpdate
no_change = record { name = none; display_name = none; permissions = none; status = none }

abbrev pub role_not_found : Exception
role_not_found = not_found "Role not found" []

abbrev pub name_taken : Exception
name_taken = conflict "Role with this name already exists" []

-- `$pull`
unfoldable pub pulled : (permission_id : Text) → Date → Role → Role
pulled permission_id now r = record r {
  permissions = filter (λ p. not (text_eq p permission_id)) r.permissions;
  updated_at = now;
}

-- `clonedRoleData`, which has no display name
unfoldable pub clone_of : Role → (id name : Text) → Date → Role
clone_of original id name now = record {
  id = id;
  name = name;
  display_name = text "";
  permissions = original.permissions;
  status = none;
  updated_at = now;
}

module _ {R L : Type 0} (e : RolesEnvironment R L) where
  open e use {roles}

  abbrev pub State : Type 0
  State = Stored R L

  abbrev pub log_role : (action id : Text) → Method State (Unit {0})
  log_role action id = log_action e.logs (text "role") action id

  abbrev pub find_role : (Role → Bool) → State → Option Role
  find_role p s = find_one roles p s.main

  -- `role.save()`: the required paths are not empty, and the unique one is new.
  unfoldable pub save_role : Role → Method State (Unit {0})
  save_role role = do
    throw_if (is_empty role.name || is_empty role.display_name) (invalid_document "roles")
    existing ← gets (find_role (has_name role.name))
    elim existing [
      | none ↦ modify (on_main (roles.insert role))
      | some _ ↦ call (err (duplicate_key "name"))
    ]

  -- One document's update on the server: no validation, but the unique index.
  unfoldable pub write_role : Text → RoleUpdate → Date → Method State (Unit {0})
  write_role id u now = do
    taken ← gets (λ s. elim u.name [
      | none ↦ none
      | some name ↦ find_role (λ r. has_name name r && not (has_id id r)) s
    ])
    elim taken [
      | none ↦ modify (on_main (roles.update (has_id id) (changed u now)))
      | some _ ↦ call (err (duplicate_key "name"))
    ]

  unfoldable pub get_role_by_id : Text → Method State Role
  get_role_by_id id s = elim (find_role (has_id id) s) [
    | none ↦ (err role_not_found, s)
    | some role ↦ (ok role, s)
  ]

  unfoldable pub create_role : RoleData → Clock → Method State Role
  create_role dto clock = do
    existing ← gets (find_role (has_name dto.name))
    elim existing [
      | some _ ↦ call (err name_taken)
      | none ↦
          let role = new_role dto (clock 0) in
          save_role role >> log_role (text "role_created") dto.id >> call (ok role)
    ]

  -- `updateData.name && updateData.name !== role.name`
  abbrev pub renames : RoleUpdate → Role → Bool
  renames u role = elim u.name [
    | none ↦ false
    | some name ↦ not (is_empty name) && not (text_eq name role.name)
  ]

  unfoldable pub update_role : Text → RoleUpdate → Clock → Method State (Option Role)
  update_role id u clock = do
    role ← get_role_by_id id
    existing ←
        gets (λ s. if renames u role then find_role (has_name (given u.name (text ""))) s else none)
    throw_if (not (is_none existing)) name_taken
    write_role id u (clock 0)
    updated ← gets (find_role (has_id id))
    log_role (text "role_updated") id
    call (ok updated)

  unfoldable pub assign_permissions : Text → List Text → Clock → Method State (Option Role)
  assign_permissions id ids clock = do
    get_role_by_id id
    throw_if
        (not (length (filter (one_of (λ (p : Permission). p.id) ids) e.permissions) == length ids))
        (not_found "One or more permissions not found" [])
    write_role id (record no_change { permissions = some ids }) (clock 0)
    updated ← gets (find_role (has_id id))
    log_role (text "permissions_assigned") id
    call (ok updated)

  unfoldable pub remove_permission : Text → Text → Clock → Method State (Option Role)
  remove_permission id permission_id clock = do
    get_role_by_id id
    modify (on_main (roles.update (has_id id) (pulled permission_id (clock 0))))
    updated ← gets (find_role (has_id id))
    log_role (text "permission_removed") id
    call (ok updated)

  -- `activateRole` and `deactivateRole`
  unfoldable pub set_status : (status action : Text) → Text → Clock → Method State Role
  set_status status action id clock = do
    write_role id (record no_change { status = some status }) (clock 0)
    role ← get_role_by_id id
    log_role action id
    call (ok role)

  abbrev pub activate_role : Text → Clock → Method State Role
  activate_role = set_status (text "active") (text "role_activated")

  abbrev pub deactivate_role : Text → Clock → Method State Role
  deactivate_role = set_status (text "inactive") (text "role_deactivated")

  -- `userModel.countDocuments({ roles: { $in: ids } })`
  unfoldable pub users_with : List Text → ℕ
  users_with ids = length (filter (λ (u : User). any (is_in ids) u.roles) e.users)

  unfoldable pub delete_role : Text → Method State (Unit {0})
  delete_role id = do
    get_role_by_id id
    throw_if (ltb 0 (users_with (id ∷ [])))
        (conflict "Cannot delete role that is assigned to users" [])
    modify (on_main (roles.remove (has_id id)))
    log_role (text "role_deleted") id

  unfoldable pub clone_role : (id new_id new_name : Text) → Clock → Method State Role
  clone_role id new_id new_name clock = do
    original ← get_role_by_id id
    existing ← gets (find_role (has_name new_name))
    throw_if (not (is_none existing)) name_taken
    let role = clone_of original new_id new_name (clock 0)
    save_role role
    log_role (text "role_cloned") new_id
    call (ok role)
