-- ===== src/Gates/Capability.antt =====
-- evaluate_capability and _validate_intent_shape: the intent and its payload against the grant.
pub mod Shape
pub mod Scope
pub mod Limits
use faar_runtime.Common.{ℕ, false, ◌++◌, List}
use faar_runtime.Models.Payload.{Value}
use faar_runtime.Models.Grant.{CapabilityGrant, Intent}
use faar_runtime.Gates.Decisions.{Decision, capability, decision}
use Shape.{CapabilityReason, shape_reasons}
use Scope.{binding_reasons, time_reasons, target_reasons, asset_reasons}
use Limits.{amount_reasons, slippage_reasons}
use Prim.Native.String.{String}

-- `show` is Python's str of a value that is not a text.
module _ (show : Value → String) where
  unfoldable pub capability_reasons : Intent → CapabilityGrant → ℕ → List CapabilityReason
  unfolding shape_reasons binding_reasons time_reasons target_reasons asset_reasons amount_reasons
      slippage_reasons
  capability_reasons i g now =
      shape_reasons show i.primitive i.payload
      ++ (binding_reasons i g
          ++ (time_reasons i g now
              ++ (target_reasons show i g
                  ++ (asset_reasons show i g
                      ++ (amount_reasons i g ++ slippage_reasons show i g)))))

  unfoldable pub evaluate_capability : Intent → CapabilityGrant → ℕ → Decision CapabilityReason
  unfolding capability_reasons
  evaluate_capability i g now = decision capability (capability_reasons i g now) false
