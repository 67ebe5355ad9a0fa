-- ===== src/Auth/Laws.antt =====
-- What every call keeps of the users: emails and identifiers stay distinct.
use finvoice.Prelude.{
  refl, ◌+◌, ◌&&◌, Bool-cases, ◌⊎◌, ◌≡◌, none, List, [], ◌∷◌, find, arith, if◌then◌else◌,
  Option-cases, inl, inr, subst, sym,
}
use finvoice.Text.{Text}
use finvoice.Runtime.{Date, Clock}
use finvoice.Collection.{IsCollection}
use finvoice.Collection.Keys.{KeysDistinct, KeysDistinct-append, KeysDistinct-map}
use finvoice.Auth.Reset.{forgot_password_cases, reset_password_cases}
use finvoice.Auth.{
  with_reset, User, Environment, Registration, has_email, has_id, save_user, touch_user, new_user,
  register, login, refresh_token, logout, forgot_password, reset_password,
}

-- A call of the service that may change the users.
pub data Call : Type 0 where
  sign_up : Registration → Call
  sign_in : (email password : Text) → Call
  renew sign_out : Text → Call
  forget : Text → Call
  reset : (token new_password salt : Text) → Call

module _ {U : Type 0} (e : Environment U) where
  open e use {users}

  unfoldable pub run_call : Call → Clock → U → U
  run_call (sign_up dto) clock s = (register e dto clock s).1
  run_call (sign_in email password) clock s = (login e email password clock s).1
  run_call (renew token) clock s = (refresh_token e token clock s).1
  run_call (sign_out id) clock s = (logout e id clock s).1
  run_call (forget email) clock s = (forgot_password e email clock s).1
  run_call (reset token password salt) clock s = (reset_password e token password salt clock s).1

  -- Every call that the front end makes, one after the other.
  unfoldable pub run_auth : List (Call × Clock) → U → U
  run_auth [] s = s
  run_auth ((c, clock) ∷ calls) s = run_auth calls (run_call c clock s)

  pub record IsConsistent (s : U) : Type 0 where
    pub emails : KeysDistinct (λ u. u.email) (users.docs s)
    pub ids : KeysDistinct (λ u. u.id) (users.docs s)

  -- The identifier of a registration is new, as the server draws it.
  abbrev pub IsFresh : U → Call → Type 0
  IsFresh s (sign_up dto) = find (has_id dto.id) (users.docs s) ≡ none
  IsFresh s _ = Unit

  module _ (laws : IsCollection U User users) where
    -- An update that keeps emails and identifiers.
    update-IsConsistent :
        (id : Text) (f : User → User) (s : U)
        → ((u : User) → ((f u).email ≡ u.email) × ((f u).id ≡ u.id))
        → IsConsistent s
        → IsConsistent (users.update (has_id id) f s)
    update-IsConsistent id f s keeps h =
        let g = λ (u : User). if has_id id u then f u else u in
        let shown = laws.docs-update (has_id id) f s in
        record {
          emails = rw shown (
              KeysDistinct-map (λ u. u.email) g (users.docs s) (λ u. ground (arith, keeps u))
                h.emails);
          ids =
              rw shown (
                KeysDistinct-map (λ u. u.id) g (users.docs s) (λ u. ground (arith, keeps u)) h.ids);
        }

    touch_user-IsConsistent :
        (id : Text) (now : Date) (s : U) → IsConsistent s → IsConsistent (touch_user e id now s)
    touch_user-IsConsistent id now s h =
        update-IsConsistent id (λ u. record u { updated_at = now }) s (λ u. (refl, refl)) h

    insert-IsConsistent :
        (u : User) (s : U)
        → find (has_id u.id) (users.docs s) ≡ none
        → find (has_email u.email) (users.docs s) ≡ none
        → IsConsistent s
        → IsConsistent (users.insert u s)
    insert-IsConsistent u s i m h =
        let same = laws.docs-insert u s in
        record {
          emails = rw same (KeysDistinct-append (λ u. u.email) (users.docs s) u m h.emails);
          ids = rw same (KeysDistinct-append (λ u. u.id) (users.docs s) u i h.ids);
        }

    -- A registration throws and changes nothing, or adds the new user, whose email is new.
    pub register_cases :
        (dto : Registration) (clock : Clock) (s : U)
        → ((register e dto clock s).1 ≡ s)
          ⊎ (((register e dto clock s).1 ≡ users.insert (new_user e dto (clock 0) (clock 1)) s)
              × (find (has_email dto.email) (users.docs s) ≡ none))
    unfolding register save_user new_user
    register_cases dto clock s = elim (Option-cases (find (has_email dto.email) (users.docs s))) [
      | inl missing ↦ ground (arith, missing)
      | inr (u, found) ↦ ground (arith, found)
    ]

    register-IsConsistent :
        (dto : Registration) (clock : Clock) (s : U)
        → find (has_id dto.id) (users.docs s) ≡ none
        → IsConsistent s
        → IsConsistent (register e dto clock s).1
    unfolding new_user
    register-IsConsistent dto clock s fresh h = elim (register_cases dto clock s) [
      | inl same ↦ subst IsConsistent (sym same) h
      | inr (added, new) ↦
          subst IsConsistent (sym added)
            (insert-IsConsistent (new_user e dto (clock 0) (clock 1)) s fresh new h)
    ]

    pub login_cases :
        (email password : Text) (clock : Clock) (s : U)
        → ((login e email password clock s).1 ≡ s)
          ⊎ ((u : User) × ((login e email password clock s).1 ≡ touch_user e u.id (clock 0) s))
    unfolding login
    login_cases email password clock s =
        elim (Option-cases (find (has_email email) (users.docs s))) [
          | inl missing ↦ inl (ground (arith, missing))
          | inr (u, found) ↦ elim (Bool-cases (u.is_active && e.compare password u.password)) [
            | inl accepted ↦ inr (u, ground (arith, found, accepted))
            | inr refused ↦ inl (ground (arith, found, refused))
          ]
        ]

    pub refresh_token-state :
        (token : Text) (clock : Clock) (s : U) → (refresh_token e token clock s).1 ≡ s
    unfolding refresh_token
    refresh_token-state token clock s =
        elim (Option-cases (e.verify e.refresh_secret token (clock 0))) [
          | inl bad ↦ ground (arith, bad)
          | inr (payload, good) ↦ elim (Option-cases (find (has_id payload.sub) (users.docs s))) [
            | inl missing ↦ ground (arith, good, missing)
            | inr (u, found) ↦ ground (arith, good, found)
          ]
        ]

    forgot_password-IsConsistent :
        (email : Text) (clock : Clock) (s : U)
        → IsConsistent s
        → IsConsistent (forgot_password e email clock s).1
    unfolding with_reset
    forgot_password-IsConsistent email clock s h = elim (forgot_password_cases e email clock s) [
      | inl same ↦ subst IsConsistent (sym same) h
      | inr (u, token, written) ↦ subst IsConsistent (sym written) (
          update-IsConsistent u.id (with_reset e.casts token (clock 1 + 3600000) (clock 2)) s
            (λ u'. (refl, refl)) h)
    ]

    run_call-IsConsistent :
        (c : Call) (clock : Clock) (s : U)
        → IsFresh s c
        → IsConsistent s
        → IsConsistent (run_call c clock s)
    unfolding run_call logout
    run_call-IsConsistent (sign_up dto) clock s fresh h = register-IsConsistent dto clock s fresh h
    run_call-IsConsistent (sign_in email password) clock s fresh h =
        elim (login_cases email password clock s) [
          | inl same ↦ subst IsConsistent (sym same) h
          | inr (u, same) ↦
              subst IsConsistent (sym same) (touch_user-IsConsistent u.id (clock 0) s h)
        ]
    run_call-IsConsistent (renew token) clock s fresh h =
        subst IsConsistent (sym (refresh_token-state token clock s)) h
    run_call-IsConsistent (sign_out id) clock s fresh h = touch_user-IsConsistent id (clock 0) s h
    run_call-IsConsistent (forget email) clock s fresh h =
        forgot_password-IsConsistent email clock s h
    run_call-IsConsistent (reset token password salt) clock s fresh h =
        elim (reset_password_cases e token password salt clock s) [
          | inl same ↦ subst IsConsistent (sym same) h
          | inr (u, written) ↦
              let f = λ (u' : User). record u' {
                password = e.hash salt password;
                updated_at = clock 2;
              } in
              subst IsConsistent (sym written) (update-IsConsistent u.id f s (λ u'. (refl, refl)) h)
        ]

    -- Each registration of a sequence of calls finds its identifier new.
    unfoldable pub AllFresh : List (Call × Clock) → U → Type 0
    AllFresh [] s = Unit
    AllFresh ((c, clock) ∷ calls) s = IsFresh s c × AllFresh calls (run_call c clock s)

    -- In any sequence of calls in which the server draws new identifiers, no two users get the same
    -- email or the same identifier.
    pub run_auth-IsConsistent :
        (calls : List (Call × Clock)) (s : U)
        → AllFresh calls s
        → IsConsistent s
        → IsConsistent (run_auth calls s)
    unfolding run_auth AllFresh
    run_auth-IsConsistent [] s fresh h = h
    run_auth-IsConsistent ((c, clock) ∷ calls) s (f, fs) h =
        run_auth-IsConsistent calls (run_call c clock s) fs (run_call-IsConsistent c clock s f h)
