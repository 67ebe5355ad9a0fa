-- ===== src/Tests/Admin.antt =====
-- Roles and permissions at concrete inputs, over lists of documents.
use finvoice.Prelude.{
  ◌<◌, ◌<◌, ◌≡◌, refl, true, false, none, some, List, [], ◌∷◌, ◌++◌, length, ◌↔◌, is_none,
}
use finvoice.Text.{text}
use finvoice.Outcome.{ok, is_ok}
use finvoice.Collection.Listed.{listed, listed-IsCollection}
use finvoice.Collection.Keys.{KeysDistinct}
use finvoice.Admin.{log_action, Role, Permission, AuditLog, Stored}
use finvoice.Admin.Bulk.{Accounts, create_each}
use finvoice.Admin.Roles.{
  new_role, changed, RolesEnvironment, RoleData, has_id, save_role, get_role_by_id, write_role,
  assign_permissions, clone_role, find_role,
}
use finvoice.Admin.BulkRoles.{create_one, create_all}
use finvoice.Admin.RoleLaws.{IsRefused, Asked, clone_role_refused, create_all-docs}
use finvoice.Admin.Counting.{AreKeys, assign_permissions-AreKeys}
use finvoice.Admin.Permissions.{PermissionsEnvironment}
use finvoice.Admin.Sync.{cleanup_orphaned_permissions}
use finvoice.Admin.PermissionLaws.{cleanup_orphaned_permissions-docs}
use finvoice.Admin.Matrix.{
  Grant, validate_permission_matrix, matrix_keys, grant_key, find_duplicates,
}
use finvoice.Tests.Data.{clock}

abbrev view_users : Permission
view_users = record {
  id = text "p1";
  name = text "View Users";
  display_name = text "View users";
  resource = text "users";
  action = text "read";
  category = none;
  updated_at = 0;
}

abbrev view_roles : Permission
view_roles = record view_users { id = text "p2"; name = text "View Roles"; resource = text "roles" }

abbrev editor : Role
editor = record {
  id = text "r1";
  name = text "editor";
  display_name = text "Editor";
  permissions = text "p1" ∷ text "p2" ∷ [];
  status = none;
  updated_at = 0;
}

abbrev environment : RolesEnvironment (List Role) (List AuditLog)
environment = record {
  roles = listed;
  logs = listed;
  permissions = view_users ∷ view_roles ∷ [];
  users = [];
}

abbrev start : Stored (List Role) (List AuditLog)
start = record { main = editor ∷ []; logs = [] }

assigned :
    (assign_permissions environment (text "r1") (text "p2" ∷ []) clock start).0
    ≡ ok (some (record editor { permissions = text "p2" ∷ []; updated_at = 1000 }))
unfolding assign_permissions get_role_by_id write_role changed log_action
assigned = refl

assign_permissions-AreKeys_example :
    let (result, s) = assign_permissions environment (text "r1") (text "p2" ∷ []) clock start in
    ((is_ok result ≡ true) ↔ (
      (is_none (find_role environment (has_id (text "r1")) start) ≡ false)
      × AreKeys (λ p. p.id) environment.permissions (text "p2" ∷ [])))
    × ((is_ok result ≡ true)
        → s.main ≡ record editor { permissions = text "p2" ∷ []; updated_at = 1000 } ∷ [])
    × ((is_ok result ≡ false) → s ≡ start)
assign_permissions-AreKeys_example =
    assign_permissions-AreKeys environment listed-IsCollection (text "r1") (text "p2" ∷ []) clock
      start (refl, (refl, tt))

abbrev dtos : List RoleData
dtos =
    record {
      id = text "r2";
      name = text "viewer";
      display_name = text "Viewer";
      permissions = [];
      status = none;
    }
    ∷ record {
      id = text "r3";
      name = text "editor";
      display_name = text "Again";
      permissions = [];
      status = none;
    }
    ∷ record {
      id = text "r4";
      name = text "nobody";
      display_name = [];
      permissions = [];
      status = none;
    }
    ∷ []

refused :
    (create_all environment (text "role_imported") dtos clock start).0.errors
    ≡ text "editor" ∷ text "nobody" ∷ []
unfolding create_all create_each create_one save_role new_role log_action
refused = refl

create_all-docs_example :
    let (result, s) = create_all environment (text "role_imported") dtos clock start in
    (s.main ≡ start.main ++ result.created)
    × Accounts Asked IsRefused (λ dto. dto.name) start.main dtos result.created result.errors
    × KeysDistinct (λ r. r.name) s.main
create_all-docs_example =
    create_all-docs environment listed-IsCollection (text "role_imported") dtos clock start
      (refl, tt)

clone_role_refused_example :
    (is_ok (clone_role environment (text "r1") (text "r2") (text "copy") clock start).0 ≡ false)
    × ((clone_role environment (text "r1") (text "r2") (text "copy") clock start).1 ≡ start)
clone_role_refused_example =
    clone_role_refused environment (text "r1") (text "r2") (text "copy") clock start

abbrev admin : PermissionsEnvironment (List Permission) (List AuditLog)
admin = record { permissions = listed; logs = listed; roles = editor ∷ [] }

abbrev stored : Stored (List Permission) (List AuditLog)
stored = record { main = view_users ∷ view_roles ∷ []; logs = [] }

cleanup_orphaned_permissions-docs_example :
    ((cleanup_orphaned_permissions admin stored).0 ≡ ok (length stored.main))
    × ((cleanup_orphaned_permissions admin stored).1.main ≡ [])
cleanup_orphaned_permissions-docs_example =
    cleanup_orphaned_permissions-docs admin listed-IsCollection stored

abbrev grants : List Grant
grants =
    record { resource = text "users"; action = text "read" }
    ∷ record { resource = text "users"; action = text "read" }
    ∷ []

repeated_grant : (validate_permission_matrix grants).duplicates ≡ text "users:read" ∷ []
unfolding validate_permission_matrix matrix_keys grant_key find_duplicates
repeated_grant = refl
