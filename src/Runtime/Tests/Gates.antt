-- ===== src/Runtime/Tests/Gates.antt =====
-- The capability gate on a swap that the grant covers.
use faar_runtime.Common.{◌*◌, ◌≡◌, refl, some, [], ◌∷◌}
use faar_runtime.Common.Int.{pos}
use faar_runtime.Models.Enums.{Verdict}
use faar_runtime.Models.Enums.EconomicPrimitive.{swap}
use faar_runtime.Models.Grant.{CapabilityGrant, Intent}
use faar_runtime.Models.Payload.{Value}
use faar_runtime.Gates.Capability.{evaluate_capability}
use faar_runtime.Gates.CapabilityBounds.{IsWithinGrant, capability_allows-IsWithinGrant}
use faar_runtime.Runtime.Tests.Fixtures.{second, limits, grant, payment}

abbrev swap_grant : CapabilityGrant
swap_grant = record grant {
  allowed_primitives = swap ∷ [];
  allowed_assets = "USDC" ∷ "ETH" ∷ [];
  limits = record limits { max_slippage_bps = some 30; max_intent_ttl_seconds = some 900 };
}

abbrev exchange : Intent
exchange = record payment {
  primitive = swap;
  payload =
      ("from_asset", Value.str "USDC")
      ∷ ("to_asset", Value.str "ETH")
      ∷ ("amount_usd", Value.int (pos 5))
      ∷ ("max_slippage_bps", Value.int (pos 30))
      ∷ ("target", Value.str "shop")
      ∷ [];
}

is_allowed :
    (evaluate_capability (λ _. "None") exchange swap_grant (100 * second)).verdict ≡ Verdict.allow
unfolding evaluate_capability
is_allowed = refl

capability_allows-IsWithinGrant_example :
    IsWithinGrant (λ _. "None") exchange swap_grant (100 * second)
capability_allows-IsWithinGrant_example =
    capability_allows-IsWithinGrant (λ _. "None") exchange swap_grant (100 * second) is_allowed
