-- ===== src/Models/Enums.antt =====
-- The enumerations of `faar/models.py`, with the sets of primitives that the gates use.
use faar_runtime.Common.{Bool, true, false}

pub data AuthorityPosture : Type 0 where
  advise execute defer stop : AuthorityPosture

pub data AuthorityPrimitive : Type 0 where
  execute_action give_fact give_recommendation ask_clarifying_question state_blocker
        recommend_nearest_safe_alternative compare_options make_plan refuse_and_redirect summarize :
      AuthorityPrimitive

pub data EconomicPrimitive : Type 0 where
  pay swap buy sell place_order cancel_order : EconomicPrimitive

-- SLIPPAGE_BOUND_PRIMITIVES
unfoldable pub is_slippage_bound : EconomicPrimitive → Bool
is_slippage_bound EconomicPrimitive.pay = false
is_slippage_bound EconomicPrimitive.cancel_order = false
is_slippage_bound _ = true

-- MONETARY_PRIMITIVES
unfoldable pub is_monetary : EconomicPrimitive → Bool
is_monetary EconomicPrimitive.cancel_order = false
is_monetary _ = true

-- TARGET_BOUND_PRIMITIVES
unfoldable pub is_target_bound : EconomicPrimitive → Bool
is_target_bound EconomicPrimitive.pay = true
is_target_bound EconomicPrimitive.swap = true
is_target_bound _ = false

pub data GrantStatus : Type 0 where
  active paused revoked : GrantStatus

pub data Verdict : Type 0 where
  allow deny defer stop : Verdict

pub data IntentState : Type 0 where
  proposed denied deferred stopped authorized reserved submitted unknown reconciling confirmed
        finalized failed_safe :
      IntentState

pub data SettlementStatus : Type 0 where
  none unknown confirmed partially_filled finalized cancelled contradictory : SettlementStatus

pub data OutcomeVerdict : Type 0 where
  met not_met unknown : OutcomeVerdict
