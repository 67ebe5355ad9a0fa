-- ===== src/Runtime/Milli.antt =====
-- Fixed-point numbers with three decimals and NaN: a runtime that meets the laws of `IsOrdered`,
-- for concrete runs. A product and a quotient are cut off towards 0, as doubles round theirs.
use mathlib.Core.Option
use finvoice.Prelude.{
  ℕ, suc, ◌+◌, ◌-◌, ◌*◌, ◌/◌, ◌%◌, Bool, true, false, Option, none, some, arith, ltb, leb, ◌==◌,
  if◌then◌else◌, map, refl,
}
use finvoice.Runtime.{Runtime, IsOrdered}

-- `negsuc n` is -(n + 1), in thousandths.
pub data ℤ : Type 0 where
  pos : ℕ → ℤ
  negsuc : ℕ → ℤ

abbrev pos_part : ℤ → ℕ
pos_part (pos n) = n
pos_part (negsuc n) = 0

abbrev neg_part : ℤ → ℕ
neg_part (pos n) = 0
neg_part (negsuc n) = suc n

abbrev sub_ℕ : ℕ → ℕ → ℤ
sub_ℕ a b = if leb b a then pos (a - b) else negsuc (b - a - 1)

abbrev ltb_ℤ : ℤ → ℤ → Bool
ltb_ℤ a b = ltb (pos_part a + neg_part b) (pos_part b + neg_part a)

abbrev eqb_ℤ : ℤ → ℤ → Bool
eqb_ℤ a b = pos_part a + neg_part b == pos_part b + neg_part a

-- The product of two magnitudes, with the sign of the product.
abbrev scaled : (ℕ → ℕ → ℕ) → ℤ → ℤ → ℤ
scaled f (pos a) (pos b) = pos (f a b)
scaled f (pos a) (negsuc b) = sub_ℕ 0 (f a (suc b))
scaled f (negsuc a) (pos b) = sub_ℕ 0 (f (suc a) b)
scaled f (negsuc a) (negsuc b) = pos (f (suc a) (suc b))

abbrev pub Milli : Type 0
Milli = Option ℤ

abbrev lift₂ : (ℤ → ℤ → ℤ) → Milli → Milli → Milli
lift₂ f (some a) (some b) = some (f a b)
lift₂ f none b = none
lift₂ f (some a) none = none

abbrev test₂ : (ℤ → ℤ → Bool) → Milli → Milli → Bool
test₂ f (some a) (some b) = f a b
test₂ f none b = false
test₂ f (some a) none = false

-- A quotient by 0 is infinite or NaN in JavaScript; here it is NaN.
abbrev quotient : ℤ → ℤ → Milli
quotient a b = if eqb_ℤ b (pos 0) then none else some (scaled (λ m n. m * 1000 / n) a b)

abbrev divide : Milli → Milli → Milli
divide (some a) (some b) = quotient a b
divide none b = none
divide (some a) none = none

-- A whole number of units, of cents and of thousandths.
abbrev pub units : ℕ → Milli
units n = some (pos (1000 * n))

abbrev pub cents : ℕ → Milli
cents n = some (pos (10 * n))

abbrev pub thousandths : ℕ → Milli
thousandths n = some (pos n)

abbrev pub nan : Milli
nan = none

abbrev round_ℤ : ℤ → ℤ
round_ℤ (pos n) = pos ((n + 500) / 1000 * 1000)
round_ℤ (negsuc n) = sub_ℕ 0 ((suc n + 499) / 1000 * 1000)

abbrev decimals : ℕ → ℕ
decimals n =
    if n % 1000 == 0 then 0 else (if n % 100 == 0 then 1 else (if n % 10 == 0 then 2 else 3))

abbrev upper_letter : ℕ → ℕ
upper_letter c = if leb b'a' c then (if leb c b'z' then c - 32 else c) else c

abbrev lower_letter : ℕ → ℕ
lower_letter c = if leb b'A' c then (if leb c b'Z' then c + 32 else c) else c

instance abbrev pub milli_runtime : Runtime Milli
milli_runtime = record {
  number = units;
  add = lift₂ (λ a b. sub_ℕ (pos_part a + pos_part b) (neg_part a + neg_part b));
  sub = lift₂ (λ a b. sub_ℕ (pos_part a + neg_part b) (neg_part a + pos_part b));
  mul = lift₂ (scaled (λ a b. a * b / 1000));
  div = divide;
  lt = test₂ ltb_ℤ;
  eq = test₂ eqb_ℤ;
  round = Option.map round_ℤ;
  is_finite = elim [ none ↦ false | some a ↦ true ];
  decimal_places = elim [ none ↦ 0 | some a ↦ decimals (pos_part a + neg_part a) ];
  upper = map upper_letter;
  lower = map lower_letter;
}

pub Milli-IsOrdered : IsOrdered Milli
Milli-IsOrdered = record {
  lt_irrefl = λ a. ground arith;
  lt_trans = λ a b c h k. ground arith;
  lt_asymm = λ a b h. ground arith;
  eq_of_lt = λ a b h. ground arith;
  eq_refl_left = λ a b h. ground arith;
  lt-eq = λ a b c h. ground arith;
  lt-eq_left = λ a b c h. ground arith;
  lt_total = λ a b h k. ground arith;
  add_nonneg = λ a b h k. ground arith;
  mul_nonneg = λ a b h k. ground arith;
  add_pos = λ a b h k e. ground arith;
  add_nought = λ a h. ground arith;
  sub_lt = λ a b. ground arith;
  add_nan = λ a b h. ground arith;
  nought_eq = refl;
}
