-- ===== src/Gateway/Best.antt =====
-- What `selectProvider` chooses.
use finvoice.Prelude.{subst, ◌↔◌}
use finvoice.Outcome.{Result, err, bad_request}
use finvoice.Prelude.{refl, some}
use finvoice.Dict.{lookup-All, IsMap, lookup}
use finvoice.Outcome.{ok}
use finvoice.Prelude.{◌≡◌, true, false, [], ◌∷◌, arith, Bool-cases, inl, inr, All}
use finvoice.Text.{Text}
use finvoice.Dict.{Dict}
use finvoice.Runtime.{Runtime, IsOrdered}
use finvoice.Gateway.{PaymentRequest, PaymentProvider}
use finvoice.Gateway.Selection.{
  provider_supports_currency, score_of, provider_scores, comes_before, place, sort_scores,
  select_provider,
}

module _ {N : Type 0} ⦃r : Runtime N⦄ where
  open r use {lt, eq, sub}

  -- No entry has a greater score.
  abbrev pub IsTop : N → Dict N → Type 0
  IsTop score es = All (λ e. lt score e.1 ≡ false) es

  abbrev pub IsNumber : Dict N → Type 0
  IsNumber es = All (λ e. eq e.1 e.1 ≡ true) es

  -- A list that the head of is a maximum of the rest.
  abbrev pub HasTop : Dict N → Type 0
  HasTop [] = Unit
  HasTop (e ∷ es) = IsTop e.1 es

  module _ (o : IsOrdered N) where
    IsTop-place :
        (s : N) (e : Text × N) (es : Dict N) → lt s e.1 ≡ false → IsTop s es → IsTop s (place e es)
    unfolding place
    IsTop-place s e [] h hs = (h, tt)
    IsTop-place s e (f ∷ fs) h (p, ps) = ground (arith, IsTop-place s e fs h ps)

    IsNumber-place :
        (e : Text × N) (es : Dict N) → eq e.1 e.1 ≡ true → IsNumber es → IsNumber (place e es)
    unfolding place
    IsNumber-place e [] h hs = (h, tt)
    IsNumber-place e (f ∷ fs) h (p, ps) = ground (arith, IsNumber-place e fs h ps)

    -- the order on numbers is transitive where it is negated
    lt_trans_false :
        (a b c : N)
        → eq a a ≡ true
        → eq b b ≡ true
        → lt b a ≡ true
        → lt b c ≡ false
        → lt a c ≡ false
    lt_trans_false a b c ha hb ba bc = elim (Bool-cases (lt a c)) [
      | inl ac ↦ ground (arith, o.lt_trans b a c ba ac)
      | inr no_ac ↦ no_ac
    ]

    IsTop-lt :
        (a b : N) (es : Dict N)
        → eq a a ≡ true
        → eq b b ≡ true
        → lt b a ≡ true
        → IsTop b es
        → IsTop a es
    IsTop-lt a b [] ha hb ba h = tt
    IsTop-lt a b (e ∷ es) ha hb ba (p, ps) =
        (lt_trans_false a b e.1 ha hb ba p, IsTop-lt a b es ha hb ba ps)

    IsTop-eq : (a b : N) (es : Dict N) → eq a b ≡ true → IsTop b es → IsTop a es
    IsTop-eq a b [] ab h = tt
    IsTop-eq a b (e ∷ es) ab (p, ps) = (rw (o.lt-eq_left a b e.1 ab) p, IsTop-eq a b es ab ps)

    HasTop-place :
        (e : Text × N) (es : Dict N)
        → eq e.1 e.1 ≡ true
        → IsNumber es
        → HasTop es
        → HasTop (place e es)
    unfolding place comes_before
    HasTop-place e [] he hs h = tt
    HasTop-place e (f ∷ fs) he (hf, hs) h = elim (Bool-cases (lt e.1 f.1)) [
      | inl less ↦ rw (o.sub_lt e.1 f.1, less) (IsTop-place f.1 e fs (o.lt_asymm e.1 f.1 less) h)
      | inr other ↦
          rw (o.sub_lt e.1 f.1, other)
            (
              other,
              elim (o.lt_total e.1 f.1 he hf) [
                | inl less ↦ absurd (ground (arith, less, other))
                | inr (inl same) ↦ IsTop-eq e.1 f.1 fs same h
                | inr (inr more) ↦ IsTop-lt e.1 f.1 fs he hf more h
              ],
            )
    ]

    sort_scores-HasTop :
        (es : Dict N) → IsNumber es → IsNumber (sort_scores es) × HasTop (sort_scores es)
    unfolding sort_scores
    sort_scores-HasTop [] h = (tt, tt)
    sort_scores-HasTop (e ∷ es) (p, ps) =
        let (numbers, top) = sort_scores-HasTop es ps in
        (IsNumber-place e (sort_scores es) p numbers, HasTop-place e (sort_scores es) p numbers top)

  module _ (P : Text × N → Type 0) where
    All-place : (e : Text × N) (es : Dict N) → P e → All P es → All P (place e es)
    unfolding place
    All-place e [] p ps = (p, tt)
    All-place e (f ∷ fs) p (q, qs) = ground (arith, All-place e fs p qs)

    All-of_place : (e : Text × N) (es : Dict N) → All P (place e es) → P e × All P es
    unfolding place
    All-of_place e [] (p, ps) = (p, tt)
    All-of_place e (f ∷ fs) h = elim (Bool-cases (comes_before f e)) [
      | inl before ↦
          let (q, qs) : P f × All P (place e fs) = rw before at h in
          let (p, ps) = All-of_place e fs qs in (p, (q, ps))
      | inr after ↦ rw after at h
    ]

    All-sort_scores : (es : Dict N) → All P es → All P (sort_scores es)
    unfolding sort_scores
    All-sort_scores [] h = tt
    All-sort_scores (e ∷ es) (p, ps) = All-place e (sort_scores es) p (All-sort_scores es ps)

    All-of_sort_scores : (es : Dict N) → All P (sort_scores es) → All P es
    unfolding sort_scores
    All-of_sort_scores [] h = tt
    All-of_sort_scores (e ∷ es) h =
        let (p, ps) = All-of_place e (sort_scores es) h in (p, All-of_sort_scores es ps)

  module _ {P W : Type 0} (request : PaymentRequest N)
      (providers : Dict (PaymentProvider N P W)) where
    -- An entry of the scores: the score is that of a registered provider for the currency.
    pub record IsScored (e : Text × N) : Type 0 where
      pub provider : PaymentProvider N P W
      pub registered : lookup e.0 providers ≡ some provider
      pub supported : provider_supports_currency e.0 request.currency ≡ true
      pub scored : e.1 ≡ score_of request e.0 provider

    All-IsScored :
        (ps : Dict (PaymentProvider N P W))
        → All (λ p. lookup p.0 providers ≡ some p.1) ps
        → All IsScored (provider_scores request ps)
    unfolding provider_scores
    All-IsScored [] h = tt
    All-IsScored ((name, provider) ∷ ps) (p, h) =
        elim (Bool-cases (provider_supports_currency name request.currency)) [
          | inl yes' ↦ rw yes' (
            record { provider = provider; registered = p; supported = yes'; scored = refl },
            All-IsScored ps h,
          )
          | inr no' ↦ rw no' (All-IsScored ps h)
        ]

    -- What holds of the score of each registered provider for the currency.
    abbrev pub AllScored : (N → Type 0) → Dict (PaymentProvider N P W) → Type 0
    AllScored Q =
        All (λ p.
          provider_supports_currency p.0 request.currency ≡ true → Q (score_of request p.0 p.1))

    AllScored-scores :
        (Q : N → Type 0) (ps : Dict (PaymentProvider N P W))
        → AllScored Q ps ↔ All (λ e. Q e.1) (provider_scores request ps)
    unfolding provider_scores
    AllScored-scores Q [] = (λ _. tt, λ _. tt)
    AllScored-scores Q ((name, provider) ∷ ps) =
        let (to, from) = AllScored-scores Q ps in
        elim (Bool-cases (provider_supports_currency name request.currency)) [
          | inl yes' ↦ rw yes' (λ (h, hs). (h refl, to hs), λ (h, hs). (λ _. h, from hs))
          | inr no' ↦ rw no' (λ (_, hs). to hs, λ hs. (λ h. absurd (cc), from hs))
        ]

    select_provider-sorted :
        (o : IsOrdered N) (es : Dict N) {name : Text}
        → ◌≡◌ {A = Result Text}
            (elim es [
              | [] ↦ err (bad_request "No suitable payment provider found" [])
              | best ∷ _ ↦ ok best.0
            ])
            (ok name)
        → All IsScored es
        → HasTop es
        → (score : N) × IsScored (name, score) × IsTop score es
    select_provider-sorted o [] h ps top = cc
    select_provider-sorted o (e ∷ es) {name} h (p, ps) top =
        let same : e.0 ≡ name = ground arith in
        (e.1, subst (λ n. IsScored (n, e.1)) same p, (o.lt_irrefl e.1, top))

    -- The provider that is selected is registered, supports the currency, and no registered provider
    -- that supports it has a greater score, if the scores are numbers.
    pub select_provider-best :
        (o : IsOrdered N)
        → IsMap providers
        → AllScored (λ score. eq score score ≡ true) providers
        → {name : Text} → select_provider providers request ≡ ok name
        → (score : N) × IsScored (name, score)
          × AllScored (λ other. lt score other ≡ false) providers
    unfolding select_provider
    select_provider-best o distinct numbers {name} h =
        let scores = provider_scores request providers in
        let are_numbers = (AllScored-scores (λ score. eq score score ≡ true) providers).0 numbers in
        let (score, scored, top) =
          select_provider-sorted o (sort_scores scores) h
            (All-sort_scores IsScored scores
              (All-IsScored providers (lookup-All providers distinct)))
            (sort_scores-HasTop o scores are_numbers).1 in
        (
          score,
          scored,
          (AllScored-scores (λ other. lt score other ≡ false) providers).1
              (All-of_sort_scores (λ e. lt score e.1 ≡ false) scores top),
        )
