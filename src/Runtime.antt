-- ===== src/Runtime.antt =====
-- What the code uses of JavaScript beyond strings: numbers, dates and case mapping. A number is an
-- IEEE double, and antt has no floats, so the type of numbers is a parameter `N` with its
-- operations; `IsOrdered` holds the laws that proofs use, all true of doubles with NaN and the
-- infinities. Case mapping follows the Unicode tables, so it is a parameter too.
pub mod Milli
use finvoice.Prelude.{
  ℕ, ◌+◌, ◌-◌, ◌*◌, ◌/◌, ◌≡◌, Bool, true, false, not, ◌&&◌, ◌||◌, Option, none, some, List, arith,
  ◌⊎◌, leb, ltb, if◌then◌else◌,
}
use finvoice.Text.{Text}

pub record Runtime (N : Type 0) : Type 0 where
  -- the number of an integer literal, exact below 2 ^ 53
  pub number : ℕ → N
  pub add : N → N → N
  pub sub : N → N → N
  pub mul : N → N → N
  pub div : N → N → N
  -- `a < b` and `a === b`, false where one is NaN
  pub lt : N → N → Bool
  pub eq : N → N → Bool
  -- `Math.round`
  pub round : N → N
  -- `isFinite`, false of NaN
  pub is_finite : N → Bool
  -- the number of digits behind the point of `a.toString()`
  pub decimal_places : N → ℕ
  pub upper : Text → Text
  pub lower : Text → Text

module _ {N : Type 0} ⦃r : Runtime N⦄ where
  open r use {number, eq, lt}

  abbrev pub nought : N
  nought = number 0

  -- `a <= b`
  abbrev pub le : N → N → Bool
  le a b = lt a b || eq a b

  -- `!!a`
  abbrev pub truthy : N → Bool
  truthy a = eq a a && not (eq a nought)

  -- `a || d`, where `a` may be undefined
  abbrev pub or_else : Option N → N → N
  or_else none d = d
  or_else (some a) d = if truthy a then a else d

-- Laws of doubles: NaN makes `lt` false, so `lt a nought ≡ false` says that `a` is NaN or not
-- negative, and that is what sums and products keep.
pub record IsOrdered (N : Type 0) ⦃r : Runtime N⦄ : Type 0 where
  pub lt_irrefl : (a : N) → r.lt a a ≡ false
  pub lt_trans : (a b c : N) → r.lt a b ≡ true → r.lt b c ≡ true → r.lt a c ≡ true
  pub lt_asymm : (a b : N) → r.lt a b ≡ true → r.lt b a ≡ false
  pub eq_of_lt : (a b : N) → r.lt a b ≡ true → (r.eq a a ≡ true) × (r.eq b b ≡ true)
  pub eq_refl_left : (a b : N) → r.eq a b ≡ true → r.eq a a ≡ true
  pub lt-eq : (a b c : N) → r.eq a b ≡ true → r.lt c a ≡ r.lt c b
  pub lt-eq_left : (a b c : N) → r.eq a b ≡ true → r.lt a c ≡ r.lt b c
  pub lt_total :
      (a b : N)
      → r.eq a a ≡ true
      → r.eq b b ≡ true
      → (r.lt a b ≡ true) ⊎ ((r.eq a b ≡ true) ⊎ (r.lt b a ≡ true))
  pub add_nonneg :
      (a b : N)
      → r.lt a (r.number 0) ≡ false
      → r.lt b (r.number 0) ≡ false
      → r.lt (r.add a b) (r.number 0) ≡ false
  pub mul_nonneg :
      (a b : N)
      → r.lt a (r.number 0) ≡ false
      → r.lt b (r.number 0) ≡ false
      → r.lt (r.mul a b) (r.number 0) ≡ false
  -- a positive number is at most its sum with another
  pub add_pos :
      (a b : N)
      → r.lt (r.number 0) a ≡ true
      → r.lt b (r.number 0) ≡ false
      → r.eq b b ≡ true
      → r.lt (r.number 0) (r.add b a) ≡ true
  pub add_nought : (a : N) → r.lt (r.number 0) a ≡ true → r.add (r.number 0) a ≡ a
  -- a difference is negative exactly if the first number is less, with gradual underflow
  pub sub_lt : (a b : N) → r.lt (r.sub a b) (r.number 0) ≡ r.lt a b
  -- NaN is infectious
  pub add_nan : (a b : N) → r.eq b b ≡ false → r.eq (r.add a b) (r.add a b) ≡ false
  pub nought_eq : r.eq (r.number 0) (r.number 0) ≡ true

-- A time value in milliseconds, counted from the first one that ECMAScript represents, so that
-- every valid date is a natural number.
abbrev pub Date : Type 0
Date = ℕ

-- The readings of the clock within one call: the k-th `new Date()` in the order of the method's
-- text, with those of the event classes' constructor, gives `clock k`.
abbrev pub Clock : Type 0
Clock = ℕ → Date

abbrev pub ms_per_day : ℕ
ms_per_day = 1000 * 60 * 60 * 24

-- `Math.floor((later - earlier) / (1000 * 60 * 60 * 24))`, for `earlier <= later`
unfoldable pub floor_days : Date → Date → ℕ
floor_days earlier later = (later - earlier) / ms_per_day

-- `Math.ceil` of the same quotient
unfoldable pub ceil_days : Date → Date → ℕ
ceil_days earlier later = (later - earlier + (ms_per_day - 1)) / ms_per_day
