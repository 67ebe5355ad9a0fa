-- ===== src/Text.antt =====
-- JavaScript strings, as lists of UTF-16 code units: `trim`, `length`, `===` and truthiness.
pub mod Laws
use Prim.Native.Char.{code}
use mathlib.Core.List.{reverse}
use finvoice.Prelude.{
  ℕ, zero, String, ◌-◌, Bool, true, false, not, ◌&&◌, ◌||◌, Option, none, some, List, [], ◌∷◌, leb,
  ◌==◌, if◌then◌else◌, length,
}

abbrev pub Text : Type 0
Text = List ℕ

-- The white space and line terminators that `trim` strips.
unfoldable pub is_space : ℕ → Bool
is_space c =
    (leb 9 c && leb c 13)
    || c == 32
    || c == 160
    || c == 5760
    || (leb 8192 c && leb c 8202)
    || c == 8232
    || c == 8233
    || c == 8239
    || c == 8287
    || c == 12288
    || c == 65279

unfoldable pub trim_start : Text → Text
unfolding is_space
trim_start [] = []
trim_start (c ∷ s) = if is_space c then trim_start s else c ∷ s

-- `s.trim()`
unfoldable pub trim : Text → Text
unfolding trim_start
trim s = reverse (trim_start (reverse (trim_start s)))

abbrev pub text_eq : Text → Text → Bool
text_eq [] [] = true
text_eq [] (_ ∷ _) = false
text_eq (_ ∷ _) [] = false
text_eq (a ∷ s) (b ∷ t) = a == b && text_eq s t

-- `!s`
abbrev pub is_empty : Text → Bool
is_empty [] = true
is_empty (_ ∷ _) = false

-- `!s || s.trim().length === 0`
unfoldable pub is_blank : Text → Bool
unfolding trim
is_blank s = is_empty s || is_empty (trim s)

-- `!s || s.length !== 3`, the test of a currency code
unfoldable pub is_bad_code : Text → Bool
is_bad_code s = is_empty s || not (length s == 3)

-- `s && s.trim().length > 0`, for a string that may be undefined
unfoldable pub has_content : Option Text → Bool
unfolding is_blank
has_content none = false
has_content (some s) = not (is_blank s)

abbrev pub usd : Text
usd = b'U' ∷ b'S' ∷ b'D' ∷ []

-- The code units of a string of ASCII characters.
abbrev pub text : String → Text
text String.[] = []
text (String.◌∷◌ c s) = code c ∷ text s

-- `!!s`, for a string that may be undefined
abbrev pub given_text : Option Text → Option Text
given_text none = none
given_text (some t) = if is_empty t then none else some t
