-- ===== src/Client/Email.antt =====
-- `isValidEmail` of services/clients/src/domain/aggregates/client.aggregate.ts: a matcher for the
-- regular expression, and the language of the expression.
use finvoice.Prelude.{
  ◌⊎◌, ◌≡◌, ◌≢◌, refl, ◌↔◌, ℕ, Bool, true, false, not, ◌&&◌, ◌||◌, [], ◌∷◌, ◌++◌, all, arith, ◌==◌,
  if◌then◌else◌, Bool-cases, inl, inr, ap,
}
use finvoice.Text.{Text, is_space, is_empty}

-- `[^\s@]`
unfoldable pub is_plain : ℕ → Bool
is_plain c = not (is_space c || c == b'@')

-- `.*\.[^\s@]+$`, for a text of characters `[^\s@]`
unfoldable pub dotted : Text → Bool
dotted [] = false
dotted (c ∷ s) = c == b'.' && not (is_empty s) || dotted s

-- `[^\s@]+\.[^\s@]+$`
unfoldable pub matches_domain : Text → Bool
matches_domain [] = false
matches_domain (c ∷ s) = all is_plain (c ∷ s) && dotted s

-- `[^\s@]+@[^\s@]+\.[^\s@]+$`, where the first part may have started already
unfoldable pub matches_from : Bool → Text → Bool
matches_from started [] = false
matches_from started (c ∷ s) =
    let rest = matches_from true s in
    if c == b'@' then started && matches_domain s else is_plain c && rest

-- `/^[^\s@]+@[^\s@]+\.[^\s@]+$/.test(email)`
unfoldable pub is_valid_email : Text → Bool
is_valid_email email = matches_from false email

-- The parts of an address: no white space, no `@`, not empty.
pub record IsPart (s : Text) : Type 0 where
  pub plain : all is_plain s ≡ true
  pub filled : s ≢ []

-- The language of the regular expression.
pub record IsEmail (email : Text) : Type 0 where
  pub user : Text
  pub host : Text
  pub top : Text
  pub user_part : IsPart user
  pub host_part : IsPart host
  pub top_part : IsPart top
  pub split : email ≡ user ++ (b'@' ∷ host ++ (b'.' ∷ top))

all-append : (s t : Text) → all is_plain (s ++ t) ≡ all is_plain s && all is_plain t
all-append [] t = refl
all-append (c ∷ s) t = ground (arith, all-append s t)

dotted-split :
    (s : Text) → dotted s ≡ true → (a : Text) × (b : Text) × (s ≡ a ++ (b'.' ∷ b)) × (b ≢ [])
unfolding dotted
dotted-split [] h = cc
dotted-split (c ∷ s) h = elim (Bool-cases (dotted s)) [
  | inl later ↦ let (a, b, e, f) = dotted-split s later in (c ∷ a, b, ap (λ t. c ∷ t) e, f)
  | inr last ↦ ([], s, ground (arith, last), ground (arith, last))
]

split-dotted : (a b : Text) → b ≢ [] → dotted (a ++ (b'.' ∷ b)) ≡ true
unfolding dotted
split-dotted [] [] f = absurd (f refl)
split-dotted [] (c ∷ b) f = ground arith
split-dotted (c ∷ a) b f = ground (arith, split-dotted a b f)

IsDomain : Text → Type 0
IsDomain d = (host : Text) × (top : Text) × IsPart host × IsPart top × (d ≡ host ++ (b'.' ∷ top))

matches_domain-split : (d : Text) → matches_domain d ≡ true → IsDomain d
unfolding matches_domain IsDomain
matches_domain-split [] h = cc
matches_domain-split (c ∷ s) h =
    let (a, b, e, f) = dotted-split s (ground (arith, h)) in
    let plain : all is_plain (c ∷ s) ≡ true = ground (arith, h) in
    let plain' : all is_plain ((c ∷ a) ++ (b'.' ∷ b)) ≡ true = rw e at plain in
    let both = all-append (c ∷ a) (b'.' ∷ b) in
    (
      c ∷ a,
      b,
      record { plain = ground (arith, plain', both); filled = λ k. cc },
      record { plain = ground (arith, plain', both); filled = f },
      ap (λ t. c ∷ t) e,
    )

dot_plain : is_plain b'.' ≡ true
unfolding is_plain is_space
dot_plain = refl

split-matches_domain : (d : Text) → IsDomain d → matches_domain d ≡ true
unfolding matches_domain IsDomain is_plain
split-matches_domain d ([], b, p, q, e) = absurd (p.filled refl)
split-matches_domain d (c ∷ a, b, p, q, e) = rw e (
    ground (arith, all-append a (b'.' ∷ b), p.plain, dot_plain, q.plain, split-dotted a b q.filled))

matches_from-split :
    (started : Bool) (s : Text)
    → matches_from started s ≡ true
    → (user : Text) × (d : Text) × (s ≡ user ++ (b'@' ∷ d))
      × (all is_plain user ≡ true)
      × ((started ≡ true) ⊎ (user ≢ []))
      × (matches_domain d ≡ true)
unfolding matches_from
matches_from-split started [] h = cc
matches_from-split started (c ∷ s) h = elim (Bool-cases (c == b'@')) [
  | inl at ↦ ([], s, ground (arith, at), refl, ground (arith, at, h), ground (arith, at, h))
  | inr other ↦
      let (user, d, e, p, _, m) = matches_from-split true s (ground (arith, other, h)) in
      (c ∷ user, d, ap (λ t. c ∷ t) e, ground (arith, other, h, p), inr (λ k. cc), m)
]

split-matches_from :
    (started : Bool) (user d : Text)
    → all is_plain user ≡ true
    → (started ≡ true) ⊎ (user ≢ [])
    → matches_domain d ≡ true
    → matches_from started (user ++ (b'@' ∷ d)) ≡ true
unfolding matches_from is_plain
split-matches_from started [] d p f m = ground (arith, f)
split-matches_from started (c ∷ user) d p f m = ground (arith, split-matches_from true user d)

-- `isValidEmail` accepts the texts of the form user@host.top whose three parts are not empty and
-- have no white space and no `@`, and no others.
pub is_valid_email_iff : (email : Text) → (is_valid_email email ≡ true) ↔ IsEmail email
unfolding is_valid_email IsDomain
is_valid_email_iff email = (
  λ h.
      let (user, d, e, p, f, m) = matches_from-split false email h in
      let (host, top, q, q', e') = matches_domain-split d m in
      record {
        user = user;
        host = host;
        top = top;
        user_part = record { plain = p; filled = ground (arith, f) };
        host_part = q;
        top_part = q';
        split = ground (arith, e, e');
      },
  λ h. rw h.split (
      split-matches_from false h.user (h.host ++ (b'.' ∷ h.top)) h.user_part.plain
        (inr h.user_part.filled)
        (split-matches_domain (h.host ++ (b'.' ∷ h.top))
          (h.host, h.top, h.host_part, h.top_part, refl))),
)
