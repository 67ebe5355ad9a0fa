-- ===== src/Text/Laws.antt =====
-- What the domain code relies on of `trim`: it is idempotent, and keeps a string that is not blank
-- from becoming empty.
use mathlib.Core.List.{reverse, reverse-reverse, reverse-append}
use finvoice.Prelude.{
  ℕ, ◌≡◌, refl, ◌≢◌, ◌↔◌, true, false, [], ◌∷◌, ◌++◌, ap, ◌∙◌, sym, subst, arith, Bool-cases, inl,
  inr,
}
use finvoice.Text.{Text, is_space, trim_start, trim, text_eq, is_blank, is_bad_code, usd}

pub text_eq_iff : (s t : Text) → (text_eq s t ≡ true) ↔ (s ≡ t)
text_eq_iff [] [] = ground arith
text_eq_iff [] (b ∷ t) = ground arith
text_eq_iff (a ∷ s) [] = ground arith
text_eq_iff (a ∷ s) (b ∷ t) = ground (arith, text_eq_iff s t)

pub text_eq_refl : (s : Text) → text_eq s s ≡ true
text_eq_refl s = (text_eq_iff s s).1 refl

-- A string that starts with no white space.
abbrev pub StartsTight : Text → Type 0
StartsTight [] = Unit
StartsTight (c ∷ s) = is_space c ≡ false

trim_start-StartsTight : (s : Text) → StartsTight (trim_start s)
unfolding trim_start
trim_start-StartsTight [] = tt
trim_start-StartsTight (c ∷ s) = elim (Bool-cases (is_space c)) [
  | inl space ↦ rw (space, trim_start) (trim_start-StartsTight s)
  | inr other ↦ rw (other, trim_start) other
]

trim_start_suffix : (s : Text) → (w : Text) × (w ++ trim_start s ≡ s)
unfolding trim_start
trim_start_suffix [] = ([], refl)
trim_start_suffix (c ∷ s) = elim (Bool-cases (is_space c)) [
  | inl space ↦
      let (w, e) = trim_start_suffix s in (c ∷ w, rw (space, trim_start) (ap (λ t. c ∷ t) e))
  | inr other ↦ ([], rw (other, trim_start) refl)
]

trim_start-id : (s : Text) → StartsTight s → trim_start s ≡ s
unfolding trim_start
trim_start-id [] h = refl
trim_start-id (c ∷ s) h = rw (h, trim_start)

StartsTight-prefix : (a b : Text) → StartsTight (a ++ b) → StartsTight a
StartsTight-prefix [] b h = tt
StartsTight-prefix (c ∷ a) b h = h

-- Removing space at the end does not bring any to the front.
trim-StartsTight : (s : Text) → StartsTight (trim s)
unfolding trim
trim-StartsTight s =
    let u = trim_start s in
    let (w, e) = trim_start_suffix (reverse u) in
    let split : reverse (trim_start (reverse u)) ++ reverse w ≡ u =
      sym (reverse-append w (trim_start (reverse u))) ∙ ap reverse e ∙ reverse-reverse u in
    StartsTight-prefix (reverse (trim_start (reverse u))) (reverse w)
      (subst StartsTight (sym split) (trim_start-StartsTight s))

-- A second `trim` changes nothing.
pub trim-trim : (s : Text) → trim (trim s) ≡ trim s
unfolding trim
trim-trim s =
    let v = trim_start (reverse (trim_start s)) in
    rw (trim_start-id (reverse v) (trim-StartsTight s)) (
      ap reverse (
        ap trim_start (reverse-reverse v)
        ∙ trim_start-id v (trim_start-StartsTight (reverse (trim_start s)))))

-- What a constructor stores of a text that it has checked and trimmed.
abbrev pub IsClean : Text → Type 0
IsClean s = (trim s ≡ s) × (s ≢ [])

pub trim-IsClean : (s : Text) → is_blank s ≡ false → IsClean (trim s)
unfolding is_blank
trim-IsClean s h = (trim-trim s, λ e. ground (arith, e))

pub IsClean-is_blank : (s : Text) → IsClean s → is_blank s ≡ false
unfolding is_blank
IsClean-is_blank [] (_, h) = absurd (h refl)
IsClean-is_blank (c ∷ s) (e, h) = rw e

pub usd_code : is_bad_code usd ≡ false
unfolding is_bad_code
usd_code = refl

-- Trimming stops in front of a character that is not space.
trim_start-keep :
    (c : ℕ) (s : Text)
    → is_space c ≡ false
    → (w : Text) × (trim_start (s ++ (c ∷ [])) ≡ w ++ (c ∷ []))
unfolding trim_start
trim_start-keep c [] h = ([], rw (h, trim_start) refl)
trim_start-keep c (d ∷ s) h = elim (Bool-cases (is_space d)) [
  | inl space ↦ let (w, e) = trim_start-keep c s h in (w, rw (space, trim_start) e)
  | inr other ↦ (d ∷ s, rw (other, trim_start) refl)
]

pub is_blank-visible : (c : ℕ) (s : Text) → is_space c ≡ false → is_blank (c ∷ s) ≡ false
unfolding is_blank trim
is_blank-visible c s h =
    let (w, e) = trim_start-keep c (reverse s) h in
    let f : reverse (c ∷ s) ≡ reverse s ++ (c ∷ []) = reverse-append (c ∷ []) s in
    let g : reverse (w ++ (c ∷ [])) ≡ c ∷ reverse w = reverse-append w (c ∷ []) in
    rw (trim_start-id (c ∷ s) h, f, e, g) refl
