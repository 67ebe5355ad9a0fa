-- ===== src/Admin.antt =====
-- The documents of src/modules/admin/schemas: roles, permissions and the audit log, as far as the
-- services read them. Descriptions, levels, metadata and user agents are left out. A required text
-- that a request does not give is the empty one here, which Mongoose refuses in the same way.
pub mod Bulk
pub mod Roles
pub mod BulkRoles
pub mod Counting
pub mod RoleLaws
pub mod Permissions
pub mod Sync
pub mod Matrix
pub mod PermissionLaws
use finvoice.Prelude.{Bool, not, Option, List, any}
use finvoice.Text.{Text, text, text_eq}
use finvoice.Dict.{insert}
use finvoice.Outcome.{Method, modify}
use finvoice.Runtime.{le, Date}
use finvoice.Collection.{Collection}

pub record Role : Type 0 where
  pub id : Text
  pub name : Text
  pub display_name : Text
  pub permissions : List Text
  pub status : Option Text
  pub updated_at : Date

pub record Permission : Type 0 where
  pub id : Text
  pub name : Text
  pub display_name : Text
  pub resource : Text
  pub action : Text
  pub category : Option Text
  pub updated_at : Date

-- What the services log: the action, and the identifier of what it was done to.
pub record AuditLog : Type 0 where
  pub action : Text
  pub resource : Text
  pub resource_id : Text

-- The collection that a service writes, in a state `S`, and the audit log, in a state `L`.
pub record Stored (S L : Type 0) : Type 0 where
  pub main : S
  pub logs : L

abbrev pub is_in : List Text → Text → Bool
is_in ids id = any (text_eq id) ids

abbrev pub one_of : {D : Type 0} → (D → Text) → List Text → D → Bool
one_of key ids d = is_in ids (key d)

module _ {S L : Type 0} where
  abbrev pub on_main : (S → S) → Stored S L → Stored S L
  on_main f s = record s { main = f s.main }

  -- `logAction`, which throws nothing
  unfoldable pub log_action :
      Collection L AuditLog → (resource action id : Text) → Method (Stored S L) (Unit {0})
  log_action logs resource action id = modify (λ s. record s {
    logs = logs.insert (record { action = action; resource = resource; resource_id = id }) s.logs;
  })
