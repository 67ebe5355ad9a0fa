-- ===== src/Auth/Reset.antt =====
-- Password resets.
use finvoice.Prelude.{
  some, false, ◌+◌, ◌⊎◌, All, Bool-cases, ◌≡◌, refl, none, List, [], ◌∷◌, find, arith, Option-cases,
  inl, inr, ◌&&◌,
}
use finvoice.Text.{Text, text, text_eq}
use finvoice.Outcome.{err, unauthorized}
use finvoice.Runtime.{Date, Clock}
use finvoice.Auth.{
  Payload, with_reset, User, Environment, has_email, has_id, has_reset, forgot_password,
  reset_password,
}

-- The database holds no reset token.
abbrev pub NoReset : List User → Type 0
NoReset = All (λ u. u.reset_token ≡ none)

find-has_reset :
    (token id : Text) (now : Date) (us : List User)
    → NoReset us
    → find (λ u. has_id id u && has_reset token now u) us ≡ none
unfolding has_reset
find-has_reset token id now [] h = refl
find-has_reset token id now (u ∷ us) (p, ps) = ground (arith, p, find-has_reset token id now us ps)

module _ {U : Type 0} (e : Environment U) where
  open e use {users}

  -- Where the database holds no reset token, `resetPassword` throws and changes nothing.
  pub reset_password_refused :
      (token new_password salt : Text) (clock : Clock) (s : U)
      → NoReset (users.docs s)
      → reset_password e token new_password salt clock s
        ≡ (err (unauthorized "Invalid or expired reset token" []), s)
  unfolding reset_password
  reset_password_refused token new_password salt clock s h =
      elim (Option-cases (e.verify e.module_secret token (clock 0))) [
        | inl bad ↦ ground (arith, bad)
        | inr (payload, good) ↦
            ground (arith, good, find-has_reset token payload.sub (clock 1) (users.docs s) h)
      ]

  -- What `resetPassword` writes.
  pub reset_password_cases :
      (token new_password salt : Text) (clock : Clock) (s : U)
      → ((reset_password e token new_password salt clock s).1 ≡ s)
        ⊎ ((u : User) × ((reset_password e token new_password salt clock s).1
              ≡ users.update
                  (has_id u.id)
                  (λ u'. record u' { password = e.hash salt new_password; updated_at = clock 2 })
                  s))
  unfolding reset_password
  reset_password_cases token new_password salt clock s =
      elim (Option-cases (e.verify e.module_secret token (clock 0))) [
        | inl bad ↦ inl (ground (arith, bad))
        | inr (payload, good) ↦
            elim (Bool-cases
              (elim payload.type [ none ↦ false | some t ↦ text_eq t (text "password_reset") ])) [
                | inr other ↦ inl (ground (arith, good, other))
                | inl meant ↦
                    elim (Option-cases (
                      find (λ u. has_id payload.sub u && has_reset token (clock 1) u)
                        (users.docs s))) [
                          | inl missing ↦ inl (ground (arith, good, meant, missing))
                          | inr (u, found) ↦ inr (u, ground (arith, good, meant, found))
                        ]
              ]
      ]

  -- `forgotPassword` changes nothing, or writes what it signs to one user.
  pub forgot_password_cases :
      (email : Text) (clock : Clock) (s : U)
      → ((forgot_password e email clock s).1 ≡ s)
        ⊎ ((u : User) × (token : Text) × ((forgot_password e email clock s).1
              ≡ users.update
                  (has_id u.id)
                  (with_reset e.casts token (clock 1 + 3600000) (clock 2))
                  s))
  unfolding forgot_password
  forgot_password_cases email clock s =
      elim (Option-cases (find (has_email email) (users.docs s))) [
        | inl missing ↦ inl (ground (arith, missing))
        | inr (u, found) ↦
            let payload : Payload = record {
              sub = u.id;
              email = none;
              type = some (text "password_reset");
            } in
            let token = e.sign e.access_secret payload 3600000 (clock 0) in
            inr (u, token, ground (arith, found))
      ]
