-- ===== src/Auth/Sessions.antt =====
-- Who gets tokens.
use finvoice.Prelude.{
  ◌+◌, ◌<◌, ◌≡◌, refl, true, false, none, some, [], find, arith, if◌then◌else◌, Option-cases, inl,
  inr, ap,
}
use finvoice.Text.{Text}
use finvoice.Text.Laws.{text_eq_refl}
use finvoice.Outcome.{ok, err, unauthorized}
use finvoice.Runtime.{Date, Clock}
use finvoice.Collection.{IsCollection}
use finvoice.Collection.Keys.{KeysDistinct, find-map, find-by_key}
use finvoice.Auth.{
  User, Payload, Environment, AuthResponse, has_email, has_id, touch_user, response,
  generate_tokens, payload_of, login, refresh_token, validate_user,
}

module _ {U : Type 0} (e : Environment U) where
  open e use {users}

  -- What a successful login says of the user.
  pub record Authenticated (email password : Text) (clock : Clock) (s s' : U) (a : AuthResponse)
      : Type 0 where
    pub user : User
    pub is_user : find (has_email email) (users.docs s) ≡ some user
    pub active : user.is_active ≡ true
    pub checked : e.compare password user.password ≡ true
    pub answer : a ≡ response e user (clock 1)
    pub next : s' ≡ touch_user e user.id (clock 0) s

  -- A login returns only for the user of the email, if that is active and the password is right.
  pub login-Authenticated :
      (email password : Text) (clock : Clock) (s : U) {a : AuthResponse}
      → (login e email password clock s).0 ≡ ok a
      → Authenticated email password clock s (login e email password clock s).1 a
  unfolding login
  login-Authenticated email password clock s {a} h =
      elim (Option-cases (find (has_email email) (users.docs s))) [
        | inl missing ↦ absurd (ground (arith, missing))
        | inr (u, found) ↦ record {
          user = u;
          is_user = found;
          active = ground (arith, found, h);
          checked = ground (arith, found, h);
          answer = ground (arith, found, h);
          next = ground (arith, found, h);
        }
      ]

  -- The JWT library: a token that was signed is accepted with the same secret until it expires.
  abbrev pub Accepts : Type 0
  Accepts =
      (secret : Text) (p : Payload) (lifetime now later : Date)
      → later < now + lifetime
      → e.verify secret (e.sign secret p lifetime now) later ≡ some p

  -- The user as the login leaves it.
  pub find-touch_user :
      (laws : IsCollection U User users) (u : User) (now : Date) (s : U)
      → find (has_id u.id) (users.docs s) ≡ some u
      → find (has_id u.id) (users.docs (touch_user e u.id now s))
        ≡ some (record u { updated_at = now })
  find-touch_user laws u now s h =
      rw
        (
          laws.docs-update (has_id u.id) (λ v. record v { updated_at = now }) s,
          find-map (λ v. v.id) (λ v. if has_id u.id v then record v { updated_at = now } else v)
              u.id (users.docs s) (λ v. ground arith),
          h,
          text_eq_refl u.id,
        )
        refl

  refresh_token_ok :
      (token : Text) (later : Clock) (s : U) (p : Payload) (u : User)
      → e.verify e.refresh_secret token (later 0) ≡ some p
      → find (has_id p.sub) (users.docs s) ≡ some u
      → u.is_active ≡ true
      → refresh_token e token later s ≡ (ok (response e u (later 1)), s)
  unfolding refresh_token
  refresh_token_ok token later s p u good found active = ground (arith, good, found, active)

  -- The refresh token of a login gives new tokens to the same user until it expires.
  pub refresh_token-login :
      (laws : IsCollection U User users) (jwt : Accepts) (email password : Text)
      (clock later : Clock) (s : U) {a : AuthResponse}
      → KeysDistinct (λ u. u.id) (users.docs s)
      → later 0 < clock 1 + e.refresh_lifetime
      → (login e email password clock s).0 ≡ ok a
      → (b : AuthResponse) × (refresh_token e a.tokens.refresh_token later
            (login e email password clock s).1
          ≡ (ok b, (login e email password clock s).1))
        × (b.id ≡ a.id)
        × (b.email ≡ a.email)
        × (b.roles ≡ a.roles)
  unfolding response generate_tokens payload_of
  refresh_token-login laws jwt email password clock later s {a} ids soon h =
      let done = login-Authenticated email password clock s h in
      let u = done.user in
      let u' = record u { updated_at = clock 0 } in
      let found : find (has_id u.id) (users.docs (login e email password clock s).1) ≡ some u' =
        rw done.next (
          find-touch_user laws u (clock 0) s
            (find-by_key (λ v. v.id) (has_email email) (users.docs s) ids done.is_user)) in
      let token : a.tokens.refresh_token
          ≡ e.sign e.refresh_secret (payload_of u) e.refresh_lifetime (clock 1) =
        ap (λ r. r.tokens.refresh_token) done.answer in
      let good : e.verify e.refresh_secret a.tokens.refresh_token (later 0) ≡ some (payload_of u) =
        rw token
          (jwt e.refresh_secret (payload_of u) e.refresh_lifetime (clock 1) (later 0) soon) in
      (
        response e u' (later 1),
        refresh_token_ok a.tokens.refresh_token later (login e email password clock s).1
            (payload_of u) u' good found done.active,
        ground (arith, done.answer),
        ground (arith, done.answer),
        ground (arith, done.answer),
      )

  -- No user that is not active gets tokens for a refresh token, or passes the check of an access
  -- token.
  pub inactive_refused :
      (token : Text) (clock : Clock) (p : Payload) (s : U) (u : User)
      → e.verify e.refresh_secret token (clock 0) ≡ some p
      → find (has_id p.sub) (users.docs s) ≡ some u
      → u.is_active ≡ false
      → (refresh_token e token clock s ≡ (err (unauthorized "Invalid refresh token" []), s))
        × (validate_user e p s ≡ none)
  unfolding refresh_token validate_user
  inactive_refused token clock p s u good found inactive = ground (arith, good, found, inactive)
