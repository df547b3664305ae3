-- ===== src/Gates/Capability/Limits.antt =====
-- The amount and the price bound of the intent against the limits of the grant.
use Prim.Native.String.{String}
use faar_runtime.Common.{
  ℕ, ◌+◌, Bool, true, false, not, ◌&&◌, Option, none, some, List, [], ◌∷◌, ◌++◌, ltb, leb, ◌==◌,
  if◌then◌else◌,
}
use faar_runtime.Common.Int.{ℤ, pos}
use faar_runtime.Models.Enums.{EconomicPrimitive, is_monetary, is_slippage_bound}
use faar_runtime.Models.Grant.{CapabilityGrant, Intent}
use faar_runtime.Models.Payload.{Value, Payload, item, get}
use faar_runtime.Money.{codes, parse_bounded_decimal, amount_field}
use faar_runtime.Gates.Capability.Shape.{
  CapabilityReason, amount_invalid_or_nonfinite, amount_not_positive, max_order_usd_exceeded,
  amount_required, slippage_bound_exceeds_grant, payload_field_required, reason_when, is_null,
  is_positive_amount, text_of,
}

-- amount > limits.max_order_usd
abbrev pub above_order : Option ℕ → ℤ → Bool
above_order (some limit) (pos n) = ltb limit n
above_order _ _ = false

abbrev pub judged_amount :
    CapabilityGrant → EconomicPrimitive → Value → Option ℤ → List CapabilityReason
judged_amount g k raw none =
    if not (is_null raw)
    then amount_invalid_or_nonfinite ∷ []
    else reason_when (is_monetary k) amount_required
judged_amount g k raw (some z) =
    reason_when (not (is_positive_amount (some z))) amount_not_positive
    ++ reason_when (above_order g.limits.max_order_usd z) max_order_usd_exceeded

unfoldable pub amount_reasons : Intent → CapabilityGrant → List CapabilityReason
unfolding amount_field parse_bounded_decimal is_monetary
amount_reasons i g =
    judged_amount g i.primitive (amount_field i.payload)
      (parse_bounded_decimal (amount_field i.payload))

-- value.lower() == "limit"; no letter outside ASCII has one of these as its small letter
abbrev lower : ℕ → ℕ
lower c = if leb b'A' c && leb c b'Z' then c + 32 else c

unfoldable pub same_codes : List ℕ → List ℕ → Bool
same_codes [] [] = true
same_codes (a ∷ as_) (b ∷ bs) = lower a == b && same_codes as_ bs
same_codes _ _ = false

abbrev is_swap : EconomicPrimitive → Bool
is_swap EconomicPrimitive.swap = true
is_swap _ = false

-- bound > slippage_cap, of a whole number
abbrev pub above_cap : ℕ → Value → Bool
above_cap cap (Value.int (pos n)) = ltb cap n
above_cap cap _ = false

module _ (show : Value → String) where
  -- payload.get("order_type", ""), where a null is the text "None"
  abbrev order_type : Payload → String
  order_type p = elim (item "order_type" p) [ none ↦ "" | some v ↦ text_of show v ]

  unfoldable pub has_limit_price : EconomicPrimitive → Payload → Bool
  unfolding item get same_codes
  has_limit_price k p =
      not (is_swap k)
      && (not (is_null (get "limit_price" p)) && same_codes (codes (order_type p)) (codes "limit"))

  abbrev pub judged_bound : EconomicPrimitive → Payload → ℕ → Value → List CapabilityReason
  judged_bound k p cap Value.null =
      reason_when (not (has_limit_price k p)) (payload_field_required "max_slippage_bps")
  judged_bound k p cap v = reason_when (above_cap cap v) slippage_bound_exceeds_grant

  abbrev pub capped_slippage : EconomicPrimitive → Payload → Option ℕ → List CapabilityReason
  capped_slippage k p none = []
  capped_slippage k p (some cap) =
      if is_slippage_bound k then judged_bound k p cap (get "max_slippage_bps" p) else []

  unfoldable pub slippage_reasons : Intent → CapabilityGrant → List CapabilityReason
  unfolding get is_slippage_bound has_limit_price
  slippage_reasons i g = capped_slippage i.primitive i.payload g.limits.max_slippage_bps
