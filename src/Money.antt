-- ===== src/Money.antt =====
-- The shared parser of economic amounts (`parse_bounded_decimal` of `faar/canonical.py`).
pub mod Rounding
use Prim.Native.Nat.{◌^◌}
use Prim.Native.String.{String}
use Prim.Native.Char.{code}
use faar_runtime.Common.{
  ℕ, ◌+◌, ◌-◌, ◌*◌, Bool, false, ◌&&◌, Option, none, some, List, [], ◌∷◌, leb, ltb, ◌==◌,
  if◌then◌else◌,
}
use faar_runtime.Common.Int.{ℤ, pos, negsuc, abs}
use faar_runtime.Models.Payload.{Value, Payload, item, get}

-- Amounts are counted in units of 10^-100.
abbrev pub unit : ℕ
unit = 10 ^ 100

abbrev pub codes : String → List ℕ
codes String.[] = []
codes (String.◌∷◌ c s) = code c ∷ codes s

abbrev pub length {ℓ} : {A : Type ℓ} → List A → ℕ
length [] = 0
length (_ ∷ xs) = length xs + 1

abbrev pub is_digit : ℕ → Bool
is_digit c = leb b'0' c && leb c b'9'

-- The longest prefix of digits, and the rest.
unfoldable pub span_digits : List ℕ → List ℕ × List ℕ
span_digits [] = ([], [])
span_digits (c ∷ cs) =
    let (ds, rest) = span_digits cs in if is_digit c then (c ∷ ds, rest) else ([], c ∷ cs)

-- The number that digits denote, after those already read.
unfoldable pub digits_value : ℕ → List ℕ → ℕ
digits_value acc [] = acc
digits_value acc (c ∷ cs) = digits_value (acc * 10 + (c - b'0')) cs

-- 0|[1-9][0-9]{0,17}
unfoldable pub is_whole : List ℕ → Bool
is_whole [] = false
is_whole (c ∷ cs) = if c == b'0' then length cs == 0 else leb (length cs) 17

-- (\.[0-9]{1,8})?\Z: the digits after the point
unfoldable pub fraction : List ℕ → Option (List ℕ)
unfolding span_digits
fraction [] = some []
fraction (c ∷ cs) =
    let (ds, rest) = span_digits cs in
    if c == b'.' && (length rest == 0 && (leb 1 (length ds) && leb (length ds) 8))
    then some ds
    else none

-- MONEY_STRING_PATTERN.fullmatch, and the amount in units
unfoldable pub money_string : List ℕ → Option ℕ
unfolding span_digits digits_value is_whole fraction
money_string cs =
    let (whole, rest) = span_digits cs in
    if is_whole whole
    then elim (fraction rest) [
      | none ↦ none
      | some ds ↦ some (digits_value 0 whole * unit + digits_value 0 ds * 10 ^ (100 - length ds))
    ]
    else none

abbrev as_pos : Option ℕ → Option ℤ
as_pos none = none
as_pos (some n) = some (pos n)

-- a whole number, times the unit
abbrev scale : ℤ → ℤ
scale (pos n) = pos (n * unit)
scale (negsuc n) = negsuc ((n + 1) * unit - 1)

unfoldable pub parse_bounded_decimal : Value → Option ℤ
unfolding money_string
parse_bounded_decimal Value.null = none
parse_bounded_decimal (Value.bool b) = none
parse_bounded_decimal (Value.int z) = if ltb (abs z) (10 ^ 18) then some (scale z) else none
parse_bounded_decimal (Value.number amount) = amount
parse_bounded_decimal (Value.str t) = as_pos (money_string (codes t))
parse_bounded_decimal Value.other = none

-- payload.get("amount_usd", payload.get("notional_usd"))
unfoldable pub amount_field : Payload → Value
unfolding item get
amount_field p = elim (item "amount_usd" p) [ none ↦ get "notional_usd" p | some v ↦ v ]
