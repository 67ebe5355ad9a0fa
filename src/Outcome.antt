-- ===== src/Outcome.antt =====
-- Calls that may throw: `Result` for pure code, and `Method` for code that mutates an object. What
-- a method wrote before it threw stays written, so the object comes back in both cases.
use finvoice.Prelude.{◌≡◌, refl, String, Bool, true, false, List, if◌then◌else◌, ◌⊎◌, inl, inr}
use finvoice.Text.{Text}

-- The exception classes of shared/kernel/exceptions.ts, of src/shared/kernel/exceptions and of
-- NestJS, and the built-in `Error`, with the message. The values that a message interpolates
-- follow its template.
pub data Exception : Type 0 where
  domain_exception error not_found bad_request conflict unauthorized :
      String → List Text → Exception
  business_rule : String → List Text → Exception
  required invalid_value : String → Exception
  -- Mongoose's ValidationError and the server's duplicate key error, with the path
  invalid_document duplicate_key : String → Exception
  -- a BadRequestException whose message ends with that of the exception it was thrown for
  bad_request_for : String → Exception → Exception

pub data Result {ℓ} (A : Type ℓ) : Type ℓ where
  ok : A → Result A
  err : Exception → Result A

abbrev pub is_ok {ℓ} : {A : Type ℓ} → Result A → Bool
is_ok (ok _) = true
is_ok (err _) = false

-- `and_then` is the bind of `Result`; `>>=` below is that of `Method`.
abbrev pub and_then {ℓ κ} : {A : Type ℓ} {B : Type κ} → Result A → (A → Result B) → Result B
and_then (ok a) f = f a
and_then (err e) f = err e

pub and_then-eq-ok {ℓ κ} :
    {A : Type ℓ} {B : Type κ} (m : Result A) (f : A → Result B) {b : B}
    → and_then m f ≡ ok b
    → (a : A) × (m ≡ ok a) × (f a ≡ ok b)
and_then-eq-ok (ok a) f h = (a, refl, h)
and_then-eq-ok (err e) f h = cc

pub Result-cases {ℓ} :
    {A : Type ℓ} (m : Result A) → ((a : A) × (m ≡ ok a)) ⊎ ((e : Exception) × (m ≡ err e))
Result-cases (ok a) = inl (a, refl)
Result-cases (err e) = inr (e, refl)

abbrev pub Method : Type 0 → Type 0 → Type 0
Method S A = S → Result A × S

infixl 5 ◌>>=◌ ◌>>◌
abbrev pub ◌>>=◌ : {S A B : Type 0} → Method S A → (A → Method S B) → Method S B
◌>>=◌ m f s = let (r, s') = m s in elim r [ ok a ↦ f a s' | err e ↦ (err e, s') ]

abbrev pub ◌>>◌ : {S A B : Type 0} → Method S A → Method S B → Method S B
m >> k = m >>= λ _. k

module _ {S : Type 0} where
  -- `if (c) throw e`
  abbrev pub throw_if : Bool → Exception → Method S (Unit {0})
  throw_if c e s = (if c then err e else ok tt, s)

  abbrev pub gets : {A : Type 0} → (S → A) → Method S A
  gets f s = (ok (f s), s)

  abbrev pub modify : (S → S) → Method S (Unit {0})
  modify f s = (ok tt, f s)

  -- A call of code that only reads.
  abbrev pub call : {A : Type 0} → Result A → Method S A
  call r s = (r, s)
