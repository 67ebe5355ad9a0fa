-- ===== src/Admin/Sync.antt =====
-- The calls on many permissions of src/modules/admin/services/permissions.service.ts.
use finvoice.Prelude.{
  suc, Bool, false, none, some, List, [], ◌∷◌, map, any, filter, length, ℕ, String, ◌==◌, ltb,
}
use finvoice.Text.{Text, text, text_eq}
use finvoice.Outcome.{
  Exception, ok, err, error, conflict, Method, ◌>>=◌, ◌>>◌, throw_if, gets, modify, call,
}
use finvoice.Runtime.{Date, Clock}
use finvoice.Admin.{Role, Permission, one_of, on_main}
use finvoice.Admin.Bulk.{Created, create_each}
use finvoice.Admin.Permissions.{
  PermissionsEnvironment, PermissionData, PermissionUpdate, State, log_permission,
  check_permission_exists, create_with, save_permission, write_permission, roles_with,
}

-- An entry of `getSystemPermissions`.
pub record SystemPermission : Type 0 where
  pub name : Text
  pub resource : Text
  pub action : Text
  pub category : Text

abbrev system : (name resource action category : String) → SystemPermission
system n r a c = record { name = text n; resource = text r; action = text a; category = text c }

unfoldable pub get_system_permissions : List SystemPermission
get_system_permissions =
    system "View Users" "users" "read" "User Management"
    ∷ system "Create Users" "users" "create" "User Management"
    ∷ system "Update Users" "users" "update" "User Management"
    ∷ system "Delete Users" "users" "delete" "User Management"
    ∷ system "View Roles" "roles" "read" "Role Management"
    ∷ system "Create Roles" "roles" "create" "Role Management"
    ∷ system "Update Roles" "roles" "update" "Role Management"
    ∷ system "Delete Roles" "roles" "delete" "Role Management"
    ∷ system "View Permissions" "permissions" "read" "Permission Management"
    ∷ system "Create Permissions" "permissions" "create" "Permission Management"
    ∷ system "Update Permissions" "permissions" "update" "Permission Management"
    ∷ system "Delete Permissions" "permissions" "delete" "Permission Management"
    ∷ system "View Invoices" "invoices" "read" "Invoice Management"
    ∷ system "Create Invoices" "invoices" "create" "Invoice Management"
    ∷ system "Update Invoices" "invoices" "update" "Invoice Management"
    ∷ system "Delete Invoices" "invoices" "delete" "Invoice Management"
    ∷ system "Send Invoices" "invoices" "send" "Invoice Management"
    ∷ system "View Payments" "payments" "read" "Payment Management"
    ∷ system "Process Payments" "payments" "create" "Payment Management"
    ∷ system "Refund Payments" "payments" "refund" "Payment Management"
    ∷ system "View Clients" "clients" "read" "Client Management"
    ∷ system "Create Clients" "clients" "create" "Client Management"
    ∷ system "Update Clients" "clients" "update" "Client Management"
    ∷ system "Delete Clients" "clients" "delete" "Client Management"
    ∷ system "View Projects" "projects" "read" "Project Management"
    ∷ system "Create Projects" "projects" "create" "Project Management"
    ∷ system "Update Projects" "projects" "update" "Project Management"
    ∷ system "Delete Projects" "projects" "delete" "Project Management"
    ∷ system "View Expenses" "expenses" "read" "Expense Management"
    ∷ system "Create Expenses" "expenses" "create" "Expense Management"
    ∷ system "Update Expenses" "expenses" "update" "Expense Management"
    ∷ system "Delete Expenses" "expenses" "delete" "Expense Management"
    ∷ system "Approve Expenses" "expenses" "approve" "Expense Management"
    ∷ system "View Time Entries" "time_entries" "read" "Time Tracking"
    ∷ system "Create Time Entries" "time_entries" "create" "Time Tracking"
    ∷ system "Update Time Entries" "time_entries" "update" "Time Tracking"
    ∷ system "Delete Time Entries" "time_entries" "delete" "Time Tracking"
    ∷ system "View Reports" "reports" "read" "Reports"
    ∷ system "Generate Reports" "reports" "create" "Reports"
    ∷ system "Export Reports" "reports" "export" "Reports"
    ∷ system "View System Settings" "system_settings" "read" "System Administration"
    ∷ system "Update System Settings" "system_settings" "update" "System Administration"
    ∷ system "View Audit Logs" "audit_logs" "read" "System Administration"
    ∷ system "Backup System" "system" "backup" "System Administration"
    ∷ system "Restore System" "system" "restore" "System Administration"
    ∷ []

-- A system permission as `new this.permissionModel(...)` reads it: without a display name.
unfoldable pub from_system : SystemPermission → (id : Text) → Date → Permission
from_system d id now = record {
  id = id;
  name = d.name;
  display_name = text "";
  resource = d.resource;
  action = d.action;
  category = some d.category;
  updated_at = now;
}

-- A field of a document: an `_id` is an ObjectId, and the permissions of a role are strings. The
-- server's `$lookup` compares without a cast, so the two are never the same.
pub data Field : Type 0 where
  object_id string : Text → Field

abbrev pub same_field : Field → Field → Bool
same_field (object_id a) (object_id b) = text_eq a b
same_field (string a) (string b) = text_eq a b
same_field _ _ = false

module _ {P L : Type 0} (e : PermissionsEnvironment P L) where
  open e use {permissions}

  abbrev already_exists : Exception
  already_exists = error "Permission already exists" []

  unfoldable pub bulk_create_permissions :
      List PermissionData → Clock → State e → Created Permission × State e
  bulk_create_permissions =
      create_each (create_with e already_exists (text "permission_bulk_created")) (λ dto. dto.name)

  unfoldable pub import_permissions :
      List PermissionData → Clock → State e → Created Permission × State e
  import_permissions =
      create_each (create_with e already_exists (text "permission_imported")) (λ dto. dto.name)

  -- The server's loop over the documents that `updateMany` matches.
  unfoldable pub write_all : List Text → PermissionUpdate → Date → Method (State e) (Unit {0})
  write_all [] u now = call (ok tt)
  write_all (id ∷ ids) u now = write_permission e id u now >> write_all ids u now

  -- The identifiers of the documents that match.
  unfoldable pub matching : List Text → State e → List Text
  matching ids s = map (λ p. p.id) (filter (one_of (λ p. p.id) ids) (permissions.docs s.main))

  -- Returns the number of the permissions that match.
  unfoldable pub bulk_update_permissions : List Text → PermissionUpdate → Clock → Method (State e) ℕ
  bulk_update_permissions ids u clock = do
    matched ← gets (matching ids)
    write_all matched u (clock 0)
    log_permission e (text "permissions_bulk_updated") (text "multiple")
    call (ok (length matched))

  unfoldable pub bulk_delete_permissions : List Text → Method (State e) ℕ
  bulk_delete_permissions ids = do
    throw_if (ltb 0 (roles_with e ids))
        (conflict "Cannot delete permissions that are assigned to roles" [])
    deleted ← gets (λ s. length (matching ids s))
    modify (on_main (permissions.remove (one_of (λ p. p.id) ids)))
    log_permission e (text "permissions_bulk_deleted") (text "multiple")
    call (ok deleted)

  -- The loop of `syncSystemPermissions`; `draw` gives the identifiers.
  unfoldable pub sync_each :
      List SystemPermission → (draw : ℕ → Text) → Clock → State e → Created Permission × State e
  sync_each [] draw clock s = (record { created = []; errors = [] }, s)
  sync_each (d ∷ ds) draw clock s = elim (check_permission_exists e d.resource d.action s) [
    | some _ ↦ sync_each ds (λ k. draw (suc k)) (λ k. clock (suc k)) s
    | none ↦
        let p = from_system d (draw 0) (clock 0) in
        let (result, s') = save_permission e p s in
        let (rest, s'') = sync_each ds (λ k. draw (suc k)) (λ k. clock (suc k)) s' in
        (
          elim result [
            | ok _ ↦ record rest { created = p ∷ rest.created }
            | err _ ↦ record rest { errors = d.name ∷ rest.errors }
          ],
          s'',
        )
  ]

  unfoldable pub sync_system_permissions :
      (draw : ℕ → Text) → Clock → Method (State e) (Created Permission)
  sync_system_permissions draw clock s =
      let (result, s') = sync_each get_system_permissions draw clock s in
      (log_permission e (text "system_permissions_synced") (text "system") >> call (ok result)) s'

  -- The `$lookup` of the roles of a permission.
  unfoldable pub looked_up : Permission → List Role
  looked_up p =
      filter (λ (r : Role). any (same_field (object_id p.id)) (map string r.permissions)) e.roles

  -- `roles: { $size: 0 }`
  unfoldable pub is_orphaned : Permission → Bool
  is_orphaned p = length (looked_up p) == 0

  -- Returns the number of the permissions that are deleted.
  unfoldable pub cleanup_orphaned_permissions : Method (State e) ℕ
  cleanup_orphaned_permissions = do
    orphaned ← gets (λ s. map (λ p. p.id) (filter is_orphaned (permissions.docs s.main)))
    elim orphaned [
      | [] ↦ call (ok tt)
      | id ∷ ids ↦ modify (on_main (permissions.remove (one_of (λ p. p.id) (id ∷ ids))))
    ]
    log_permission e (text "orphaned_permissions_cleaned") (text "cleanup")
    call (ok (length orphaned))
