-- ===== src/Admin/PermissionLaws.antt =====
-- What the calls on permissions guarantee.
use finvoice.Prelude.{
  All, All-mono, List-cases, ap, suc, not, ◌||◌, ◌++◌, length, Bool-cases, ◌⊎◌, ◌≡◌, refl, Bool,
  true, false, none, List, [], ◌∷◌, map, any, find, filter, ℕ, arith, Option-cases, inl, inr,
  is_none,
}
use finvoice.Text.{text, is_empty, Text}
use finvoice.Text.Laws.{text_eq_refl}
use finvoice.Outcome.{Exception, ok, err, error, invalid_document, is_ok}
use finvoice.Runtime.{Date, Clock}
use finvoice.Collection.{IsCollection}
use finvoice.Collection.Keys.{KeysDistinct, KeysDistinct-append}
use finvoice.Admin.{Role, Permission, is_in, one_of, log_action}
use finvoice.Admin.Bulk.{Accounts, create_each-docs}
use finvoice.Admin.Permissions.{
  PermissionsEnvironment, PermissionData, State, check_permission_exists, has_id, has_name,
  new_permission, create_with, save_permission, get_permission_by_id, clone_of, clone_permission,
  grants,
}
use finvoice.Admin.Sync.{
  SystemPermission, get_system_permissions, sync_each, sync_system_permissions, from_system,
  looked_up, is_orphaned, cleanup_orphaned_permissions, import_permissions, object_id, string,
  same_field,
}

-- What a permission has of the entry that it was made from.
pub record Asked (dto : PermissionData) (p : Permission) : Type 0 where
  pub id : p.id ≡ dto.id
  pub name : p.name ≡ dto.name
  pub display_name : p.display_name ≡ dto.display_name
  pub resource : p.resource ≡ dto.resource
  pub action : p.action ≡ dto.action
  pub category : p.category ≡ dto.category

new_permission-Asked : (dto : PermissionData) (now : Date) → Asked dto (new_permission dto now)
unfolding new_permission
new_permission-Asked dto now = record {
  id = refl;
  name = refl;
  display_name = refl;
  resource = refl;
  action = refl;
  category = refl;
}

module _ {P L : Type 0} (e : PermissionsEnvironment P L) where
  open e use {permissions}

  abbrev docs : State e → List Permission
  docs s = permissions.docs s.main

  -- No permission is cloned: whatever the arguments, `clonePermission` throws, and neither the
  -- permissions nor the audit log change.
  pub clone_permission_refused :
      (id new_id new_name : Text) (clock : Clock) (s : State e)
      → (is_ok (clone_permission e id new_id new_name clock s).0 ≡ false)
        × ((clone_permission e id new_id new_name clock s).1 ≡ s)
  unfolding clone_permission clone_of save_permission get_permission_by_id
  clone_permission_refused id new_id new_name clock s =
      elim (Option-cases (find (has_id id) (docs s))) [
        | inl missing ↦ ground (arith, missing)
        | inr (p, found) ↦ ground (arith, found)
      ]

  save_permission-system :
      (d : SystemPermission) (id : Text) (now : Date) (s : State e)
      → save_permission e (from_system d id now) s ≡ (err (invalid_document "permissions"), s)
  unfolding save_permission from_system
  save_permission-system d id now s = ground arith

  -- The names of the system permissions whose resource and action no permission has.
  abbrev pub absent : State e → List SystemPermission → List Text
  absent s ds =
      map (λ d. d.name)
        (filter
          (λ (d : SystemPermission). is_none (check_permission_exists e d.resource d.action s)) ds)

  sync_each-absent :
      (ds : List SystemPermission) (draw : ℕ → Text) (clock : Clock) (s : State e)
      → sync_each e ds draw clock s ≡ (record { created = []; errors = absent s ds }, s)
  unfolding sync_each
  sync_each-absent [] draw clock s = refl
  sync_each-absent (d ∷ ds) draw clock s =
      elim (Option-cases (check_permission_exists e d.resource d.action s)) [
        | inl new ↦ ground (
          arith,
          new,
          save_permission-system d (draw 0) (clock 0) s,
          sync_each-absent ds (λ k. draw (suc k)) (λ k. clock (suc k)) s,
        )
        | inr (p, old) ↦
            ground (arith, old, sync_each-absent ds (λ k. draw (suc k)) (λ k. clock (suc k)) s)
      ]

  -- No system permission is ever created: `syncSystemPermissions` reports each one that is absent as
  -- an error, and the permissions stay as they are.
  pub sync_system_permissions-absent :
      (draw : ℕ → Text) (clock : Clock) (s : State e)
      → ((sync_system_permissions e draw clock s).0
          ≡ ok (record { created = []; errors = absent s get_system_permissions }))
        × (docs (sync_system_permissions e draw clock s).1 ≡ docs s)
  unfolding sync_system_permissions log_action
  sync_system_permissions-absent draw clock s =
      ground (arith, sync_each-absent get_system_permissions draw clock s)

  never-looked_up :
      (p : Permission) (ids : List Text)
      → any (same_field (object_id p.id)) (map string ids) ≡ false
  never-looked_up p [] = refl
  never-looked_up p (id ∷ ids) = never-looked_up p ids

  filter-never :
      {D : Type 0} (q : D → Bool) (ds : List D) → ((d : D) → q d ≡ false) → filter q ds ≡ []
  filter-never q [] h = refl
  filter-never q (d ∷ ds) h = rw (h d) (filter-never q ds h)

  always-orphaned : (p : Permission) → is_orphaned e p ≡ true
  unfolding is_orphaned looked_up
  always-orphaned p =
      rw
        (filter-never (λ (r : Role). any (same_field (object_id p.id)) (map string r.permissions))
          e.roles (λ r. never-looked_up p r.permissions))
        refl

  filter-always :
      {D : Type 0} (q : D → Bool) (ds : List D) → ((d : D) → q d ≡ true) → filter q ds ≡ ds
  filter-always q [] h = refl
  filter-always q (d ∷ ds) h = rw (h d, filter-always q ds h) refl

  nothing_left :
      (ids : List Text) (ps : List Permission)
      → All (λ p. is_in ids p.id ≡ true) ps
      → filter (λ p. not (is_in ids p.id)) ps ≡ []
  nothing_left ids [] h = refl
  nothing_left ids (p ∷ ps) (q, qs) = rw (q, nothing_left ids ps qs) refl

  ids-of :
      (ps : List Permission) → All (λ p. is_in (map (λ (q : Permission). q.id) ps) p.id ≡ true) ps
  ids-of [] = tt
  ids-of (p ∷ ps) =
      (rw (text_eq_refl p.id) refl, All-mono ps (λ q h. ground (arith, h)) (ids-of ps))

  length-ids : (ps : List Permission) → length (map (λ (q : Permission). q.id) ps) ≡ length ps
  length-ids [] = refl
  length-ids (p ∷ ps) = ap suc (length-ids ps)

  -- The clean-up deletes every permission, also those that roles have.
  pub cleanup_orphaned_permissions-docs :
      (laws : IsCollection P Permission permissions) (s : State e)
      → ((cleanup_orphaned_permissions e s).0 ≡ ok (length (docs s)))
        × (docs (cleanup_orphaned_permissions e s).1 ≡ [])
  unfolding cleanup_orphaned_permissions log_action
  cleanup_orphaned_permissions-docs laws s = elim (List-cases (docs s)) [
    | inl empty ↦ ground (arith, empty)
    | inr (p, ps, full) ↦
        let ids = map (λ (q : Permission). q.id) (p ∷ ps) in
        ground (
          arith,
          full,
          always-orphaned p,
          filter-always (is_orphaned e) ps always-orphaned,
          length-ids ps,
          laws.docs-remove (one_of (λ (q : Permission). q.id) ids) s.main,
          nothing_left ids (p ∷ ps) (ids-of (p ∷ ps)),
        )
  ]

  -- One creation adds the new permission, whose name is new, or throws and changes nothing.
  create_with-docs :
      (laws : IsCollection P Permission permissions) (taken : Exception) (action : Text)
      (dto : PermissionData) (now : Date) (s : State e)
      → (((create_with e taken action dto now s).0 ≡ ok (new_permission dto now))
          × (docs (create_with e taken action dto now s).1
              ≡ docs s ++ (new_permission dto now ∷ []))
          × (find (has_name dto.name) (docs s) ≡ none))
        ⊎ ((is_ok (create_with e taken action dto now s).0 ≡ false)
            × (docs (create_with e taken action dto now s).1 ≡ docs s))
  unfolding create_with save_permission new_permission log_action check_permission_exists
  create_with-docs laws taken action dto now s =
      elim (Option-cases (find (grants dto.resource dto.action) (docs s))) [
        | inr (p, old) ↦ inr (ground (arith, old))
        | inl free ↦
            elim (Bool-cases (
              is_empty dto.name
              || is_empty dto.display_name
              || is_empty dto.resource
              || is_empty dto.action)) [
                | inl empty ↦ inr (ground (arith, free, empty))
                | inr full ↦ elim (Option-cases (find (has_name dto.name) (docs s))) [
                  | inr (p, known) ↦ inr (ground (arith, free, full, known))
                  | inl new ↦ inl (
                      ground
                        (arith, free, full, new, laws.docs-insert (new_permission dto now) s.main))
                ]
              ]
      ]

  -- An import goes through the permissions of the request in their order: each is created as asked, or
  -- its name is reported. The created ones are added behind those that were there, and no two
  -- permissions get the same name.
  pub import_permissions-docs :
      (laws : IsCollection P Permission permissions) (dtos : List PermissionData) (clock : Clock)
      (s : State e)
      → KeysDistinct (λ p. p.name) (docs s)
      → let (result, s') = import_permissions e dtos clock s in
        (docs s' ≡ docs s ++ result.created)
        × Accounts Asked
            (λ before dto. Unit)
            (λ dto. dto.name)
            (docs s)
            dtos
            result.created
            result.errors
        × KeysDistinct (λ p. p.name) (docs s')
  unfolding import_permissions
  import_permissions-docs laws dtos clock s h =
      let taken = error "Permission already exists" [] in
      let action = text "permission_imported" in
      create_each-docs (create_with e taken action) (λ dto. dto.name) Asked (λ before dto. Unit)
        docs (KeysDistinct (λ p. p.name))
        (λ dto now s' h'. elim (create_with-docs laws taken action dto now s') [
          | inl (good, added, new) ↦ inl (
            new_permission dto now,
            new_permission-Asked dto now,
            good,
            added,
            KeysDistinct-append (λ p. p.name) (docs s') (new_permission dto now)
                (unfold new_permission in new) h',
          )
          | inr (bad, same) ↦ inr (tt, bad, same)
        ])
        dtos clock s h
