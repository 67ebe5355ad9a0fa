-- ===== src/Auth/Unreset.antt =====
-- Password resets after any calls of `AuthService`, src/modules/auth/services/auth.service.ts.
use finvoice.Prelude.{
  ◌+◌, refl, ◌≡◌, none, List, [], ◌∷◌, ◌++◌, if◌then◌else◌, All-mono, All-map, inl, inr, sym, subst,
  ap, arith,
}
use finvoice.Text.{Text, text}
use finvoice.Outcome.{err, unauthorized}
use finvoice.Runtime.{Date, Clock}
use finvoice.Collection.{IsCollection}
use finvoice.Auth.{
  IsStrict, with_reset, user_paths, User, Environment, has_id, touch_user, new_user, reset_password,
  logout,
}
use finvoice.Auth.Reset.{NoReset, reset_password_refused, forgot_password_cases}
use finvoice.Auth.Laws.{
  Call, sign_up, sign_in, renew, sign_out, forget, reset, run_call, run_auth, register_cases,
  login_cases, refresh_token-state,
}

NoReset-append :
    (us : List User) (u : User) → u.reset_token ≡ none → NoReset us → NoReset (us ++ (u ∷ []))
NoReset-append [] u h hs = (h, tt)
NoReset-append (v ∷ us) u h (p, ps) = (p, NoReset-append us u h ps)

-- In strict mode `forgotPassword` stores no token.
with_reset-dropped :
    {U : Type 0} (e : Environment U) (strict : IsStrict U e) (token : Text) (expires now : Date)
    (u : User)
    → (with_reset e.casts token expires now u).reset_token ≡ u.reset_token
unfolding with_reset user_paths
with_reset-dropped e strict token expires now u =
    rw (strict.dropped (text "passwordResetToken") refl) refl

module _ {U : Type 0} (e : Environment U) (laws : IsCollection U User e.users)
    (strict : IsStrict U e) where
  open e use {users}

  abbrev Unreset : U → Type 0
  Unreset s = NoReset (users.docs s)

  -- An update that keeps the token.
  update-NoReset :
      (id : Text) (f : User → User) (s : U)
      → ((u : User) → (f u).reset_token ≡ u.reset_token)
      → Unreset s
      → Unreset (users.update (has_id id) f s)
  update-NoReset id f s keeps h = rw (laws.docs-update (has_id id) f s) (
      All-map (λ (u : User). u.reset_token ≡ none) (λ u. if has_id id u then f u else u)
        (users.docs s) (All-mono (users.docs s) (λ u p. ground (arith, p, keeps u)) h))

  touch_user-NoReset :
      (id : Text) (now : Date) (s : U) → Unreset s → Unreset (touch_user e id now s)
  touch_user-NoReset id now s h =
      update-NoReset id (λ u. record u { updated_at = now }) s (λ u. refl) h

  run_call-NoReset : (c : Call) (clock : Clock) (s : U) → Unreset s → Unreset (run_call e c clock s)
  unfolding run_call logout new_user
  run_call-NoReset (sign_up dto) clock s h = elim (register_cases e laws dto clock s) [
    | inl same ↦ subst Unreset (sym same) h
    | inr (added, new) ↦
        let u = new_user e dto (clock 0) (clock 1) in
        subst Unreset (sym added)
          (rw (laws.docs-insert u s) (NoReset-append (users.docs s) u refl h))
  ]
  run_call-NoReset (sign_in email password) clock s h =
      elim (login_cases e laws email password clock s) [
        | inl same ↦ subst Unreset (sym same) h
        | inr (u, same) ↦ subst Unreset (sym same) (touch_user-NoReset u.id (clock 0) s h)
      ]
  run_call-NoReset (renew token) clock s h =
      subst Unreset (sym (refresh_token-state e laws token clock s)) h
  run_call-NoReset (sign_out id) clock s h = touch_user-NoReset id (clock 0) s h
  run_call-NoReset (forget email) clock s h = elim (forgot_password_cases e email clock s) [
    | inl same ↦ subst Unreset (sym same) h
    | inr (u, token, written) ↦
        let expires = clock 1 + 3600000 in
        subst Unreset (sym written) (
          update-NoReset u.id (with_reset e.casts token expires (clock 2)) s
            (with_reset-dropped e strict token expires (clock 2)) h)
  ]
  run_call-NoReset (reset token password salt) clock s h =
      subst Unreset (sym (ap (λ r. r.1) (reset_password_refused e token password salt clock s h))) h

  run_auth-NoReset :
      (calls : List (Call × Clock)) (s : U) → Unreset s → Unreset (run_auth e calls s)
  unfolding run_auth
  run_auth-NoReset [] s h = h
  run_auth-NoReset ((c, clock) ∷ calls) s h =
      run_auth-NoReset calls (run_call e c clock s) (run_call-NoReset c clock s h)

  -- In strict mode, from a database that holds no reset token no password is ever reset: after any calls, also of
  -- forgotPassword, every resetPassword throws and changes nothing.
  pub run_auth-unreset :
      (calls : List (Call × Clock)) (s : U) (token new_password salt : Text) (clock : Clock)
      → NoReset (users.docs s)
      → reset_password e token new_password salt clock (run_auth e calls s)
        ≡ (err (unauthorized "Invalid or expired reset token" []), run_auth e calls s)
  run_auth-unreset calls s token new_password salt clock h =
      reset_password_refused e token new_password salt clock (run_auth e calls s)
        (run_auth-NoReset calls s h)
