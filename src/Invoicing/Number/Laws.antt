-- ===== src/Invoicing/Number/Laws.antt =====
-- Which numbers `generate` returns, and that they are distinct.
use finvoice.Prelude.{
  ◌≢◌, ap, ℕ, zero, suc, ◌+◌, ◌-◌, ◌*◌, ◌/◌, ◌%◌, ◌≤◌, ◌<◌, ◌≡◌, refl, Bool, true, false, ◌&&◌, [],
  ◌∷◌, ◌++◌, all, length, leb, ltb, if◌then◌else◌, arith, length-append,
}
use finvoice.Text.{Text, is_blank, is_space}
use finvoice.Text.Laws.{text_eq_iff, is_blank-visible}
use finvoice.Outcome.{ok, err, invalid_value}
use finvoice.Invoicing.Number.{
  InvoiceNumber, is_capital, is_digit, matches_after, has_format, new_number, digits, decimal,
  zeros, pad_start, printed, generate, equals,
}

-- `10 ^ k`
abbrev pow10 : ℕ → ℕ
pow10 zero = 1
pow10 (suc k) = 10 * pow10 k

pow10_pos : (k : ℕ) → 0 < pow10 k
pow10_pos zero = omega arith
pow10_pos (suc k) = omega (arith, pow10_pos k)

all-append : (p : ℕ → Bool) (s t : Text) → all p (s ++ t) ≡ all p s && all p t
all-append p [] t = refl
all-append p (c ∷ s) t = ground (arith, all-append p s t)

length-zeros : (k : ℕ) → length (zeros k) ≡ k
length-zeros zero = refl
length-zeros (suc k) = ap suc (length-zeros k)

all-zeros : (k : ℕ) → all is_digit (zeros k) ≡ true
unfolding is_digit
all-zeros zero = refl
all-zeros (suc k) = all-zeros k

all-digits : (fuel n : ℕ) → all is_digit (digits fuel n) ≡ true
unfolding digits is_digit
all-digits zero n = refl
all-digits (suc fuel) n = ground (
  arith,
  all-append is_digit (digits fuel (n / 10)) ((48 + n % 10) ∷ []),
  all-digits fuel (n / 10),
)

-- A number below `10 ^ k` has at most `k` digits, and any other has more.
length-digits_fit : (fuel n k : ℕ) → n < pow10 (suc k) → length (digits fuel n) ≤ suc k
unfolding digits
length-digits_fit zero n k h = omega arith
length-digits_fit (suc fuel) n zero h = ground arith
length-digits_fit (suc fuel) n (suc k) h = ground (
  arith,
  length-append (digits fuel (n / 10)) ((48 + n % 10) ∷ []),
  length-digits_fit fuel (n / 10) k,
)

length-digits_long : (fuel n k : ℕ) → n < fuel → pow10 k ≤ n → k < length (digits fuel n)
unfolding digits
length-digits_long zero n k f h = absurd (omega arith)
length-digits_long (suc fuel) n zero f h =
    ground (arith, length-append (digits fuel (n / 10)) ((48 + n % 10) ∷ []))
length-digits_long (suc fuel) n (suc k) f h = ground (
  arith,
  pow10_pos k,
  length-append (digits fuel (n / 10)) ((48 + n % 10) ∷ []),
  length-digits_long fuel (n / 10) k,
)

-- The value of a text of digits.
abbrev value : ℕ → Text → ℕ
value acc [] = acc
value acc (c ∷ s) = value (acc * 10 + (c - 48)) s

abbrev tail : Text → Text
tail [] = []
tail (_ ∷ s) = s

value-append : (acc : ℕ) (s t : Text) → value acc (s ++ t) ≡ value (value acc s) t
value-append acc [] t = refl
value-append acc (c ∷ s) t = value-append (acc * 10 + (c - 48)) s t

value-zeros : (k : ℕ) (s : Text) → value 0 (zeros k ++ s) ≡ value 0 s
value-zeros zero s = refl
value-zeros (suc k) s = value-zeros k s

value-digits : (fuel n : ℕ) → n < fuel → value 0 (digits fuel n) ≡ n
unfolding digits
value-digits zero n h = absurd (omega arith)
value-digits (suc fuel) n h =
    ground (
      arith,
      value-append 0 (digits fuel (n / 10)) ((48 + n % 10) ∷ []),
      value-digits fuel (n / 10),
    )

capital_visible : (c : ℕ) → is_capital c ≡ true → is_space c ≡ false
unfolding is_capital is_space
capital_visible c h = ground arith

-- The format of a prefix of capitals, a hyphen and any text.
matches_after-capitals :
    (n : ℕ) (prefix s : Text)
    → all is_capital prefix ≡ true
    → matches_after n (prefix ++ (b'-' ∷ s)) ≡ (
        leb 2 (n + length prefix)
        && leb (n + length prefix) 4
        && all is_digit s
        && leb 3 (length s)
        && leb (length s) 6)
unfolding matches_after is_capital
matches_after-capitals n [] s h = ground arith
matches_after-capitals n (c ∷ prefix) s h = ground (arith, matches_after-capitals (suc n) prefix s)

-- `printed prefix counter` has the format while the counter has at most six digits.
printed-has_format :
    (prefix : Text) (n : ℕ)
    → all is_capital prefix ≡ true
    → 2 ≤ length prefix
    → length prefix ≤ 4
    → has_format (printed prefix n) ≡ ltb n 1000000
unfolding has_format printed pad_start decimal
printed-has_format prefix n h short long =
    let number = digits (suc n) n in
    let zero_count = 6 - length number in
    ground (
      arith,
      matches_after-capitals 0 prefix (zeros zero_count ++ number) h,
      all-append is_digit (zeros zero_count) number,
      all-zeros zero_count,
      all-digits (suc n) n,
      length-append (zeros zero_count) number,
      length-zeros zero_count,
      length-digits_fit (suc n) n 5,
      length-digits_long (suc n) n 6,
    )

printed_not_blank :
    (prefix : Text) (n : ℕ)
    → all is_capital prefix ≡ true
    → 2 ≤ length prefix
    → is_blank (printed prefix n) ≡ false
unfolding printed
printed_not_blank [] n h short = absurd (omega arith)
printed_not_blank (c ∷ prefix) n h short =
    is_blank-visible c (prefix ++ (b'-' ∷ pad_start 6 (decimal n)))
      (capital_visible c (ground arith))

-- With a prefix of two to four capitals, `generate` returns the printed counter as long as the
-- counter is below a million, and throws from then on. The counter moves on in both cases.
pub generate_lem :
    (prefix : Text) (n : ℕ)
    → all is_capital prefix ≡ true
    → 2 ≤ length prefix
    → length prefix ≤ 4
    → generate prefix n ≡ (
      (if ltb n 1000000
          then ok (record { value = printed prefix n })
          else err (invalid_value "InvoiceNumber")),
      suc n,
    )
unfolding generate new_number
generate_lem prefix n h short long =
    rw (printed_not_blank prefix n h short, printed-has_format prefix n h short long) (ground arith)

-- The counter moves on, whether the number is returned or not.
pub generate-counter : (prefix : Text) (n : ℕ) → (generate prefix n).1 ≡ suc n
unfolding generate
generate-counter prefix n = refl

append-cancel : (p s t : Text) → p ++ s ≡ p ++ t → s ≡ t
append-cancel [] s t e = e
append-cancel (c ∷ p) s t e = append-cancel p s t (ground (arith, e))

printed-inj : (prefix : Text) (m n : ℕ) → printed prefix m ≡ printed prefix n → m ≡ n
unfolding printed pad_start decimal
printed-inj prefix m n e =
    let dm = digits (suc m) m in
    let dn = digits (suc n) n in
    let e' =
      append-cancel prefix (b'-' ∷ zeros (6 - length dm) ++ dm) (b'-' ∷ zeros (6 - length dn) ++ dn)
        e in
    ground (
      arith,
      ap (value 0) (ap tail e'),
      value-zeros (6 - length dm) dm,
      value-zeros (6 - length dn) dn,
      value-digits (suc m) m,
      value-digits (suc n) n,
    )

-- Numbers that `generate` returns with one prefix from different values of the counter are not
-- `equals`.
pub generate_distinct :
    (prefix : Text) (m n : ℕ) (a b : InvoiceNumber)
    → m ≢ n
    → (generate prefix m).0 ≡ ok a
    → (generate prefix n).0 ≡ ok b
    → equals a b ≡ false
unfolding generate new_number equals
generate_distinct prefix m n a b d f g =
    ground (arith, text_eq_iff (printed prefix m) (printed prefix n), printed-inj prefix m n)
