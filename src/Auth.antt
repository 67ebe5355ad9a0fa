-- ===== src/Auth.antt =====
-- `AuthService` of src/modules/auth/services/auth.service.ts over the users of
-- src/modules/admin/schemas/user.schema.ts. In strict mode, Mongoose's default, an update drops the
-- paths that the schema does not have, so `lastLogin`, `loginCount`, `lastLogout` and the two
-- `passwordReset` paths are never stored; every update sets `updatedAt`, by `timestamps: true`.
pub mod Laws
pub mod Reset
pub mod Sessions
pub mod Unreset
use finvoice.Prelude.{
  ◌+◌, ◌≡◌, Bool, true, false, not, ◌&&◌, ◌||◌, Option, none, some, List, [], ◌∷◌, any, ltb,
  if◌then◌else◌,
}
use finvoice.Text.{Text, text, text_eq, is_empty}
use finvoice.Outcome.{
  Result, ok, err, conflict, unauthorized, invalid_document, duplicate_key, and_then, Method, ◌>>=◌,
  ◌>>◌, throw_if, gets, modify, call,
}
use finvoice.Runtime.{Date, Clock}
use finvoice.Collection.{Collection, find_one}

-- The optional paths of the schema are left out. The two of a password reset are not in the schema;
-- `reset_token` and `reset_expires` are what the database holds under them.
pub record User : Type 0 where
  pub id : Text
  pub email : Text
  pub password : Text
  pub first_name : Text
  pub last_name : Text
  pub is_active : Bool
  pub is_email_verified : Bool
  pub roles : List Text
  pub created_at : Date
  pub updated_at : Date
  pub reset_token : Option Text
  pub reset_expires : Option Date

-- What a token carries: `sub`, `email` and `type`. The service also reads `username` and `role` of
-- the user, which are not in the schema, and undefined fields are dropped from the token.
pub record Payload : Type 0 where
  pub sub : Text
  pub email : Option Text
  pub type : Option Text

-- The environment: the users, the paths that Mongoose casts in an update of them, bcrypt, the JWT service and the secrets. `sign` takes the secret, the
-- payload, the lifetime in milliseconds and the time, and `verify` the secret, the token and the
-- time. `hash` takes the salt that bcrypt draws.
pub record Environment (U : Type 0) : Type 0 where
  pub users : Collection U User
  pub casts : Text → Bool
  pub hash : Text → Text → Text
  pub compare : Text → Text → Bool
  pub sign : Text → Payload → Date → Date → Text
  pub verify : Text → Text → Date → Option Payload
  pub access_secret : Text
  pub refresh_secret : Text
  pub module_secret : Text
  pub access_lifetime : Date
  pub refresh_lifetime : Date

pub record Tokens : Type 0 where
  pub access_token : Text
  pub refresh_token : Text

-- `AuthResponse`
pub record AuthResponse : Type 0 where
  pub tokens : Tokens
  pub id : Text
  pub email : Text
  pub first_name : Text
  pub last_name : Text
  pub roles : List Text

-- `RegisterDto`, and what registration draws at random: the identifier and the salt.
pub record Registration : Type 0 where
  pub id : Text
  pub salt : Text
  pub email : Text
  pub password : Text
  pub first_name : Text
  pub last_name : Text

abbrev pub has_email : Text → User → Bool
has_email email u = text_eq u.email email

abbrev pub has_id : Text → User → Bool
has_id id u = text_eq u.id id

-- The paths of the user schema.
unfoldable pub user_paths : List Text
user_paths =
    text "email"
    ∷ text "password"
    ∷ text "firstName"
    ∷ text "lastName"
    ∷ text "isActive"
    ∷ text "isEmailVerified"
    ∷ text "isTwoFactorEnabled"
    ∷ text "lastLoginAt"
    ∷ text "lastLoginIP"
    ∷ text "roles"
    ∷ text "permissions"
    ∷ text "metadata"
    ∷ text "createdAt"
    ∷ text "updatedAt"
    ∷ []

-- The update of `forgotPassword`; `casts` says which paths Mongoose passes on to the server.
unfoldable pub with_reset :
    (casts : Text → Bool) → (token : Text) → (expires now : Date) → User → User
with_reset casts token expires now u = record u {
  reset_token = if casts (text "passwordResetToken") then some token else u.reset_token;
  reset_expires = if casts (text "passwordResetExpires") then some expires else u.reset_expires;
  updated_at = now;
}

-- The filter `{ passwordResetToken: token, passwordResetExpires: { $gt: now } }`, which the server
-- applies to what it holds: a path that is missing equals no string and is above no date.
unfoldable pub has_reset : Text → Date → User → Bool
has_reset token now u =
    elim u.reset_token [ none ↦ false | some t ↦ text_eq t token ]
    && elim u.reset_expires [ none ↦ false | some d ↦ ltb now d ]

unfoldable pub payload_of : User → Payload
payload_of u = record { sub = u.id; email = some u.email; type = none }

-- Strict mode, Mongoose's default: a path that the schema does not have is dropped from an update.
pub record IsStrict (U : Type 0) (e : Environment U) : Type 0 where
  pub dropped : (path : Text) → any (text_eq path) user_paths ≡ false → e.casts path ≡ false

module _ {U : Type 0} (e : Environment U) where
  -- `user.save()`: the required paths are not empty, and the unique one is new.
  unfoldable pub save_user : User → Method U (Unit {0})
  save_user user = do
    throw_if
        (is_empty user.email
          || is_empty user.password
          || is_empty user.first_name
          || is_empty user.last_name)
        (invalid_document "users")
    existing ← gets (find_one e.users (has_email user.email))
    elim existing [
      | none ↦ modify (e.users.insert user)
      | some _ ↦ call (err (duplicate_key "email"))
    ]

  -- `findByIdAndUpdate` with paths that the schema does not have
  abbrev pub touch_user : Text → Date → U → U
  touch_user id now = e.users.update (has_id id) (λ u. record u { updated_at = now })

  unfoldable pub generate_tokens : User → Date → Tokens
  generate_tokens u now = record {
    access_token = e.sign e.access_secret (payload_of u) e.access_lifetime now;
    refresh_token = e.sign e.refresh_secret (payload_of u) e.refresh_lifetime now;
  }

  unfoldable pub response : User → Date → AuthResponse
  response u now = record {
    tokens = generate_tokens u now;
    id = u.id;
    email = u.email;
    first_name = u.first_name;
    last_name = u.last_name;
    roles = u.roles;
  }

  unfoldable pub new_user : Registration → (created_at updated_at : Date) → User
  new_user dto created_at updated_at = record {
    id = dto.id;
    email = dto.email;
    password = e.hash dto.salt dto.password;
    first_name = dto.first_name;
    last_name = dto.last_name;
    is_active = true;
    is_email_verified = false;
    roles = text "user" ∷ [];
    created_at = created_at;
    updated_at = updated_at;
    reset_token = none;
    reset_expires = none;
  }

  unfoldable pub register : Registration → Clock → Method U AuthResponse
  register dto clock = do
    existing ← gets (find_one e.users (has_email dto.email))
    elim existing [
      | some _ ↦ call (err (conflict "User with this email already exists" []))
      | none ↦
          let user = new_user dto (clock 0) (clock 1) in
          save_user user >> gets (λ _. response user (clock 2))
    ]

  unfoldable pub login : (email password : Text) → Clock → Method U AuthResponse
  login email password clock = do
    found ← gets (find_one e.users (has_email email))
    elim found [
      | none ↦ call (err (unauthorized "Invalid credentials" []))
      | some user ↦ do
        throw_if (not user.is_active) (unauthorized "Account is deactivated" [])
        throw_if (not (e.compare password user.password)) (unauthorized "Invalid credentials" [])
        modify (touch_user user.id (clock 0))
        gets (λ _. response user (clock 1))
    ]

  -- Whatever it throws is caught and becomes one exception.
  unfoldable pub refresh_token : Text → Clock → Method U AuthResponse
  refresh_token token clock = do
    let refused = unauthorized "Invalid refresh token" []
    elim (e.verify e.refresh_secret token (clock 0)) [
      | none ↦ call (err refused)
      | some payload ↦ do
        found ← gets (find_one e.users (has_id payload.sub))
        elim found [
          | none ↦ call (err refused)
          | some user ↦ do
            throw_if (not user.is_active) refused
            gets (λ _. response user (clock 1))
        ]
    ]

  unfoldable pub logout : Text → Clock → Method U (Unit {0})
  logout user_id clock = modify (touch_user user_id (clock 0))

  unfoldable pub validate_user : Payload → U → Option User
  validate_user payload s = elim (find_one e.users (has_id payload.sub) s) [
    | none ↦ none
    | some user ↦ if user.is_active then some user else none
  ]

  -- The message is the same whether the user exists or not, so it is not returned.
  unfoldable pub forgot_password : Text → Clock → Method U (Unit {0})
  forgot_password email clock = do
    found ← gets (find_one e.users (has_email email))
    elim found [
      | none ↦ call (ok tt)
      | some user ↦
          let payload : Payload = record {
            sub = user.id;
            email = none;
            type = some (text "password_reset");
          } in
          let token = e.sign e.access_secret payload 3600000 (clock 0) in
          modify (
            e.users.update (has_id user.id)
              (with_reset e.casts token (clock 1 + 3600000) (clock 2)))
    ]

  -- Whatever it throws is caught and becomes one exception.
  unfoldable pub reset_password : Text → Text → Text → Clock → Method U (Unit {0})
  reset_password token new_password salt clock = do
    let refused = unauthorized "Invalid or expired reset token" []
    elim (e.verify e.module_secret token (clock 0)) [
      | none ↦ call (err refused)
      | some payload ↦ do
        throw_if
            (not (elim payload.type [ none ↦ false | some t ↦ text_eq t (text "password_reset") ]))
            refused
        found ← gets (find_one e.users (λ u. has_id payload.sub u && has_reset token (clock 1) u))
        elim found [
          | none ↦ call (err refused)
          | some user ↦ modify (
              e.users.update (has_id user.id)
                (λ u. record u { password = e.hash salt new_password; updated_at = clock 2 }))
        ]
    ]
