-- ===== src/Admin/BulkRoles.antt =====
-- The bulk calls of `RolesService` of src/modules/admin/services/roles.service.ts, and the check of a
-- role. Each round of a loop has its own reading of the clock.
use finvoice.Prelude.{
  suc, Bool, not, none, some, List, [], ◌∷◌, map, filter, length, ℕ, if◌then◌else◌, ◌==◌, ltb,
}
use finvoice.Text.{Text, text, is_empty}
use finvoice.Outcome.{ok, err, error, conflict, Method, ◌>>=◌, ◌>>◌, throw_if, gets, modify, call}
use finvoice.Runtime.{Date, Clock}
use finvoice.Admin.Bulk.{Created, create_each}
use finvoice.Admin.{Role, is_in, one_of, on_main}
use finvoice.Admin.Roles.{
  RolesEnvironment, RoleData, RoleUpdate, no_change, State, log_role, find_role, has_name, new_role,
  save_role, write_role, users_with, get_role_by_id,
}

-- What `validateRole` returns, with the messages as flags.
pub record RoleValidation : Type 0 where
  pub is_valid : Bool
  pub duplicate_permissions : Bool
  pub unassigned : Bool

-- `[...new Set(ids)].length`
abbrev pub distinct_count : List Text → ℕ
distinct_count [] = 0
distinct_count (id ∷ ids) = let rest = distinct_count ids in if is_in ids id then rest else suc rest

module _ {R L : Type 0} (e : RolesEnvironment R L) where
  open e use {roles}

  -- The body of the `try` in the loops.
  unfoldable pub create_one : (action : Text) → RoleData → Date → Method (State e) Role
  create_one action dto now = do
    existing ← gets (find_role e (has_name dto.name))
    elim existing [
      | some _ ↦ call (err (error "Role already exists" []))
      | none ↦
          let role = new_role dto now in
          save_role e role >> log_role e action dto.id >> call (ok role)
    ]

  unfoldable pub create_all :
      (action : Text) → List RoleData → Clock → State e → Created Role × State e
  create_all action = create_each (create_one action) (λ dto. dto.name)

  abbrev pub bulk_create_roles : List RoleData → Clock → State e → Created Role × State e
  bulk_create_roles = create_all (text "role_bulk_created")

  abbrev pub import_roles : List RoleData → Clock → State e → Created Role × State e
  import_roles = create_all (text "role_imported")

  -- The server's loop over the documents that `updateMany` matches.
  unfoldable pub write_all : List Text → RoleUpdate → Date → Method (State e) (Unit {0})
  write_all [] u now = call (ok tt)
  write_all (id ∷ ids) u now = write_role e id u now >> write_all ids u now

  -- The identifiers of the documents that match.
  unfoldable pub matching : List Text → State e → List Text
  matching ids s = map (λ r. r.id) (filter (one_of (λ r. r.id) ids) (roles.docs s.main))

  -- Returns the number of the roles that match.
  unfoldable pub bulk_write : (action : Text) → List Text → RoleUpdate → Clock → Method (State e) ℕ
  bulk_write action ids u clock = do
    matched ← gets (matching ids)
    write_all matched u (clock 0)
    log_role e action (text "multiple")
    call (ok (length matched))

  abbrev pub bulk_update_roles : List Text → RoleUpdate → Clock → Method (State e) ℕ
  bulk_update_roles = bulk_write (text "roles_bulk_updated")

  abbrev pub bulk_activate_roles : List Text → Clock → Method (State e) ℕ
  bulk_activate_roles ids =
      bulk_write (text "roles_bulk_activated") ids
        (record no_change { status = some (text "active") })

  abbrev pub bulk_deactivate_roles : List Text → Clock → Method (State e) ℕ
  bulk_deactivate_roles ids =
      bulk_write (text "roles_bulk_deactivated") ids
        (record no_change { status = some (text "inactive") })

  unfoldable pub bulk_delete_roles : List Text → Method (State e) ℕ
  bulk_delete_roles ids = do
    throw_if (ltb 0 (users_with e ids))
        (conflict "Cannot delete roles that are assigned to users" [])
    deleted ← gets (λ s. length (matching ids s))
    modify (on_main (roles.remove (one_of (λ r. r.id) ids)))
    log_role e (text "roles_bulk_deleted") (text "multiple")
    call (ok deleted)

  unfoldable pub validate_role : Text → Method (State e) RoleValidation
  validate_role id = do
    role ← get_role_by_id e id
    log_role e (text "role_validated") id
    call (
        ok (record {
          is_valid = not (is_empty role.name);
          duplicate_permissions = not (length role.permissions == distinct_count role.permissions);
          unassigned = users_with e (id ∷ []) == 0;
        }))
