-- ===== src/Gates/Slippage.antt =====
-- The bounds on the price of an intent, where the capability gate gives no reason against them.
use Prim.Native.String.{String}
use faar_runtime.Common.{
  ℕ, ◌≤◌, ◌<◌, ◌≡◌, Bool, true, false, not, ◌&&◌, Option, some, [], ◌++◌, arith, ltb,
}
use faar_runtime.Common.Int.{ℤ, pos}
use faar_runtime.Models.Enums.{is_slippage_bound}
use faar_runtime.Models.Grant.{CapabilityGrant, Intent}
use faar_runtime.Models.Payload.{Value, Payload, get, contains}
use faar_runtime.Money.{parse_bounded_decimal}
use faar_runtime.Gates.Unreasoned.{unreasoned, truth}
use faar_runtime.Gates.Capability.Shape.{
  payload_field_required, slippage_bound_exceeds_grant, slippage_bound_invalid, limit_price_invalid,
  reason_when, is_slippage_valid, is_positive_amount, bound_reasons,
}
use faar_runtime.Gates.Capability.Limits.{
  above_cap, has_limit_price, judged_bound, slippage_reasons,
}

-- The price bound of an intent, where the grant caps it: one that is at most the cap, or no bound on
-- an order with a limit price. A bound that is no number is none that IsSlippageBound admits.
abbrev pub IsSlippageCapped : (Value → String) → Intent → ℕ → Value → Type 0
IsSlippageCapped show i cap Value.null = has_limit_price show i.primitive i.payload ≡ true
IsSlippageCapped show i cap (Value.int (pos n)) = n ≤ cap
IsSlippageCapped show i cap v = Unit

-- A whole number of basis points.
abbrev pub IsSlippageBound : Value → Type 0
IsSlippageBound (Value.int (pos n)) = n ≤ 10000
IsSlippageBound _ = ⊥

abbrev pub IsPositive : Option ℤ → Type 0
IsPositive (some (pos n)) = 0 < n
IsPositive _ = ⊥

pub slippage_capped :
    (show : Value → String) (i : Intent) (g : CapabilityGrant) (limit : ℕ)
    → slippage_reasons show i g ≡ []
    → g.limits.max_slippage_bps ≡ some limit
    → is_slippage_bound i.primitive ≡ true
    → IsSlippageCapped show i limit (get "max_slippage_bps" i.payload)
unfolding slippage_reasons
slippage_capped show i g limit h capped bounded =
    judged (get "max_slippage_bps" i.payload) (rw (capped, bounded) at h)
  where
    at_most : (n : ℕ) → ltb limit n ≡ false → n ≤ limit
    at_most n k = ground arith

    judged :
        (v : Value)
        → judged_bound show i.primitive i.payload limit v ≡ []
        → IsSlippageCapped show i limit v
    judged Value.null k =
        truth (has_limit_price show i.primitive i.payload)
          (unreasoned _ (payload_field_required "max_slippage_bps") k)
    judged (Value.int (pos n)) k =
        at_most n (unreasoned (above_cap limit (Value.int (pos n))) slippage_bound_exceeds_grant k)
    judged v k = tt

slippage_bound : (v : Value) → is_slippage_valid v ≡ true → IsSlippageBound v
slippage_bound (Value.int (pos n)) h = ground arith
slippage_bound v h = cc

positive : (z : Option ℤ) → is_positive_amount z ≡ true → IsPositive z
positive (some (pos n)) h = ground arith
positive z h = cc

pub valid_bounds :
    (p : Payload)
    → bound_reasons p ≡ []
    → (contains "max_slippage_bps" p ≡ true → IsSlippageBound (get "max_slippage_bps" p))
      × (contains "limit_price" p ≡ true → IsPositive (parse_bounded_decimal (get "limit_price" p)))
unfolding bound_reasons
valid_bounds p h =
    let (bound, price) =
      both (contains "max_slippage_bps" p) (is_slippage_valid (get "max_slippage_bps" p))
        (contains "limit_price" p)
        (is_positive_amount (parse_bounded_decimal (get "limit_price" p))) h in
    (λ held. slippage_bound _ (bound held), λ held. positive _ (price held))
  where
    both :
        (a b c d : Bool)
        → reason_when (a && not b) slippage_bound_invalid
            ++ reason_when (c && not d) limit_price_invalid
          ≡ []
        → (a ≡ true → b ≡ true) × (c ≡ true → d ≡ true)
    both a b c d h = ground arith
