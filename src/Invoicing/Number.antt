-- ===== src/Invoicing/Number.antt =====
-- src/modules/billing/domain/value-objects/invoice-number.ts: the format of an invoice number, and
-- the static counter that numbers are generated from.
pub mod Laws
use finvoice.Prelude.{
  ℕ, zero, suc, ◌+◌, ◌-◌, ◌/◌, ◌%◌, Bool, true, false, not, ◌&&◌, [], ◌∷◌, ◌++◌, all, length, leb,
  ltb, ◌==◌, if◌then◌else◌,
}
use finvoice.Text.{Text, text, text_eq, is_blank}
use finvoice.Outcome.{
  Result, ok, err, required, invalid_value, Method, ◌>>=◌, ◌>>◌, gets, modify, call,
}

pub record InvoiceNumber : Type 0 where
  pub value : Text

-- `[A-Z]` and `\d`
unfoldable pub is_capital : ℕ → Bool
is_capital c = leb 65 c && leb c 90

unfoldable pub is_digit : ℕ → Bool
is_digit c = leb 48 c && leb c 57

-- The regular expression `/^[A-Z]{2,4}-\d{3,6}$/`, after `n` capitals.
unfoldable pub matches_after : ℕ → Text → Bool
matches_after n [] = false
matches_after n (c ∷ s) =
    if is_capital c
    then matches_after (suc n) s
    else c == b'-' && leb 2 n && leb n 4 && all is_digit s && leb 3 (length s) && leb (length s) 6

unfoldable pub has_format : Text → Bool
has_format s = matches_after 0 s

-- The constructor, which `create` and `fromString` call, with its `validate`.
unfoldable pub new_number : Text → Result InvoiceNumber
new_number value =
    if is_blank value
    then err (required "InvoiceNumber")
    else if not (has_format value)
    then err (invalid_value "InvoiceNumber")
    else ok (record { value = value })

-- `n.toString()`, with fuel; `n` has at most `n + 1` digits.
unfoldable pub digits : ℕ → ℕ → Text
digits zero n = []
digits (suc fuel) n =
    let rest = digits fuel (n / 10) in
    if ltb n 10 then (48 + n) ∷ [] else rest ++ ((48 + n % 10) ∷ [])

unfoldable pub decimal : ℕ → Text
decimal n = digits (suc n) n

abbrev pub zeros : ℕ → Text
zeros zero = []
zeros (suc k) = b'0' ∷ zeros k

-- `s.padStart(n, '0')`
unfoldable pub pad_start : ℕ → Text → Text
pad_start n s = zeros (n - length s) ++ s

-- The number that `generate` prints.
unfoldable pub printed : Text → ℕ → Text
printed prefix counter = prefix ++ (b'-' ∷ pad_start 6 (decimal counter))

-- `generate`; the state is the static `counter`, which moves on before the constructor validates.
unfoldable pub generate : Text → Method ℕ InvoiceNumber
generate prefix = do value ← gets (printed prefix); modify suc; call (new_number value)

-- The default of `prefix`.
abbrev pub inv : Text
inv = text "INV"

unfoldable pub equals : InvoiceNumber → InvoiceNumber → Bool
equals a b = text_eq a.value b.value
