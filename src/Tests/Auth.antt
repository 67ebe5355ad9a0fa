-- ===== src/Tests/Auth.antt =====
-- The authentication service at concrete inputs, over a list of users, with tokens that spell out
-- their payload.
use finvoice.Prelude.{
  any, zero, suc, ◌≡◌, refl, true, false, Option, none, some, List, [], ◌∷◌, ◌++◌, map, length, ℕ,
  arith,
}
use finvoice.Text.{Text, text, text_eq}
use finvoice.Outcome.{ok, err, unauthorized}
use finvoice.Runtime.{Date, Clock}
use finvoice.Collection.Listed.{listed, listed-IsCollection}
use finvoice.Auth.{
  user_paths, with_reset, User, Payload, Environment, AuthResponse, Registration, register, login,
  refresh_token, forgot_password, reset_password, save_user, new_user, response, generate_tokens,
  payload_of,
}
use finvoice.Auth.Laws.{
  Call, sign_up, sign_in, forget, run_call, run_auth, IsConsistent, AllFresh, run_auth-IsConsistent,
}
use finvoice.Auth.Unreset.{run_auth-unreset}
use finvoice.Auth.Sessions.{Authenticated, login-Authenticated, Accepts, refresh_token-login}
use finvoice.Tests.Data.{clock}

-- A text behind its length, and what is left behind it.
abbrev spell : Text → Text → Text
spell t rest = length t ∷ (t ++ rest)

abbrev cut : ℕ → Text → Text × Text
cut zero t = ([], t)
cut (suc n) [] = ([], [])
cut (suc n) (c ∷ t) = let (a, b) = cut n t in (c ∷ a, b)

abbrev read : Text → Text × Text
read [] = ([], [])
read (n ∷ t) = cut n t

cut-length : (t rest : Text) → cut (length t) (t ++ rest) ≡ (t, rest)
cut-length [] rest = refl
cut-length (c ∷ t) rest = rw (cut-length t rest) refl

abbrev spell_option : Option Text → Text → Text
spell_option none rest = 0 ∷ rest
spell_option (some t) rest = 1 ∷ spell t rest

abbrev read_option : Text → Option Text × Text
read_option [] = (none, [])
read_option (zero ∷ rest) = (none, rest)
read_option (suc _ ∷ rest) = let (t, rest') = read rest in (some t, rest')

read_option-spell_option :
    (o : Option Text) (rest : Text) → read_option (spell_option o rest) ≡ (o, rest)
read_option-spell_option none rest = refl
read_option-spell_option (some t) rest = rw (cut-length t rest) refl

abbrev sign : Text → Payload → Date → Date → Text
sign secret p lifetime now = spell p.sub (spell_option p.email (spell_option p.type []))

abbrev verify : Text → Text → Date → Option Payload
verify secret token now =
    let (sub, t) = read token in
    let (email, u) = read_option t in
    let (type, _) = read_option u in some (record { sub = sub; email = email; type = type })

abbrev environment : Environment (List User)
environment = record {
  users = listed;
  casts = λ path. any (text_eq path) user_paths;
  hash = λ salt password. salt ++ password;
  compare = λ password hashed. text_eq (text "s" ++ password) hashed;
  sign = sign;
  verify = verify;
  access_secret = text "a";
  refresh_secret = text "r";
  module_secret = text "m";
  access_lifetime = 900000;
  refresh_lifetime = 604800000;
}

accepts : Accepts environment
accepts secret p lifetime now later soon =
    rw
      (
        cut-length p.sub (spell_option p.email (spell_option p.type [])),
        read_option-spell_option p.email (spell_option p.type []),
        read_option-spell_option p.type [],
      )
      refl

abbrev ada : Registration
ada = record {
  id = text "u1";
  salt = text "s";
  email = text "ada@example.org";
  password = text "engine";
  first_name = text "Ada";
  last_name = text "L";
}

abbrev user : User
user = record {
  id = text "u1";
  email = text "ada@example.org";
  password = text "sengine";
  first_name = text "Ada";
  last_name = text "L";
  is_active = true;
  is_email_verified = false;
  roles = text "user" ∷ [];
  created_at = 1000;
  updated_at = 1001;
  reset_token = none;
  reset_expires = none;
}

abbrev calls : List (Call × Clock)
calls =
    (sign_up ada, clock)
    ∷ (sign_up (record ada { id = text "u2" }), clock)
    ∷ (sign_in (text "ada@example.org") (text "engine"), clock)
    ∷ (forget (text "ada@example.org"), clock)
    ∷ []

run_calls : map (λ u. u.email) (run_auth environment calls []) ≡ text "ada@example.org" ∷ []
unfolding run_auth run_call register save_user new_user login forgot_password with_reset
run_calls = refl

run_auth-IsConsistent_example : IsConsistent environment (run_auth environment calls [])
unfolding AllFresh run_call register save_user new_user login forgot_password with_reset
run_auth-IsConsistent_example =
    run_auth-IsConsistent environment listed-IsCollection calls [] (refl, (refl, (tt, (tt, tt))))
      (record { emails = tt; ids = tt })

abbrev answer : AuthResponse
answer = record {
  tokens = record {
    access_token =
        sign (text "a")
          (record { sub = text "u1"; email = some (text "ada@example.org"); type = none }) 0 0;
    refresh_token =
        sign (text "a")
          (record { sub = text "u1"; email = some (text "ada@example.org"); type = none }) 0 0;
  };
  id = text "u1";
  email = text "ada@example.org";
  first_name = text "Ada";
  last_name = text "L";
  roles = text "user" ∷ [];
}

signed_in :
    (login environment (text "ada@example.org") (text "engine") clock (user ∷ [])).0 ≡ ok answer
unfolding login response generate_tokens payload_of
signed_in = refl

login-Authenticated_example :
    Authenticated environment
      (text "ada@example.org")
      (text "engine")
      clock
      (user ∷ [])
      (login environment (text "ada@example.org") (text "engine") clock (user ∷ [])).1
      answer
login-Authenticated_example =
    login-Authenticated environment (text "ada@example.org") (text "engine") clock (user ∷ [])
      signed_in

refresh_token-login_example :
    let s = (login environment (text "ada@example.org") (text "engine") clock (user ∷ [])).1 in
    (b : AuthResponse) × (refresh_token environment answer.tokens.refresh_token clock s ≡ (ok b, s))
    × (b.id ≡ answer.id)
    × (b.email ≡ answer.email)
    × (b.roles ≡ answer.roles)
refresh_token-login_example =
    refresh_token-login environment listed-IsCollection accepts (text "ada@example.org")
      (text "engine") clock clock (user ∷ []) (refl, tt) (omega arith) signed_in

-- The calls ask for a reset; the token that is signed for it is refused.
run_auth-unreset_example :
    let s = run_auth environment calls [] in
    reset_password environment (text "t") (text "new") (text "s") clock s
    ≡ (err (unauthorized "Invalid or expired reset token" []), s)
run_auth-unreset_example =
    run_auth-unreset environment listed-IsCollection (record { dropped = λ path h. h }) calls []
      (text "t") (text "new") (text "s") clock tt
