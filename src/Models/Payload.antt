-- ===== src/Models/Payload.antt =====
-- The payload of an intent: a JSON object, as an association list with the values that the code
-- tells apart.
use text.Mathlib.Text.{◌==◌ as str_eq}
use Prim.Native.String.{String}
use faar_runtime.Common.{Bool, Option, none, some, List, [], ◌∷◌, if◌then◌else◌, is_some}
use faar_runtime.Common.Int.{ℤ}

-- A float or a Decimal carries the amount that its plain decimal form denotes, if that form is
-- within the bounds of `parse_bounded_decimal`. `other` is a list, a mapping, a set or a datetime.
pub data Value : Type 0 where
  null : Value
  bool : Bool → Value
  int : ℤ → Value
  number : Option ℤ → Value
  str : String → Value
  other : Value

abbrev pub Payload : Type 0
Payload = List (String × Value)

-- payload.get(field); the outer option is `field in payload`
unfoldable pub item : String → Payload → Option Value
item k [] = none
item k ((j, v) ∷ m) = if str_eq j k then some v else item k m

-- payload.get(field), where a missing key and null are both None
unfoldable pub get : String → Payload → Value
unfolding item
get k m = elim (item k m) [ none ↦ Value.null | some v ↦ v ]

-- field in payload
unfoldable pub contains : String → Payload → Bool
unfolding item
contains k m = is_some (item k m)
