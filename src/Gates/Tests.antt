-- ===== src/Gates/Tests.antt =====
-- The gates on concrete data.
use faar_runtime.Common.{ℕ, ◌≡◌, ◌↔◌, refl, true, false, none, some, [], ◌∷◌}
use faar_runtime.Common.Int.{pos}
use faar_runtime.Models.Enums.{AuthorityPosture, AuthorityPrimitive, Verdict, active}
use faar_runtime.Models.Enums.EconomicPrimitive.{swap}
use faar_runtime.Models.Grant.{CapabilityLimits, CapabilityGrant, finite, RiskSnapshot}
use faar_runtime.Gates.Authority.{AuthorityDecision, evaluate_authority, authority_allows_iff}
use faar_runtime.Gates.Risk.{evaluate_risk, max_turnover_exceeded}
use faar_runtime.Gates.RiskBounds.{IsReasoned, evaluate_risk-IsReasoned}

abbrev to_execute : AuthorityDecision
to_execute = record {
  posture = AuthorityPosture.execute;
  primitive = AuthorityPrimitive.execute_action;
  reason_codes = 1 ∷ [];
}

authority_allows_iff_example : ((evaluate_authority to_execute).verdict ≡ Verdict.allow) ↔ (
    (to_execute.posture ≡ AuthorityPosture.execute)
    × (to_execute.primitive ≡ AuthorityPrimitive.execute_action))
authority_allows_iff_example = authority_allows_iff to_execute

abbrev limits : CapabilityLimits
limits = record {
  max_order_usd = some 50;
  max_position_usd = some 900;
  max_daily_turnover_usd = some 500;
  max_daily_loss_usd = some 40;
  max_slippage_bps = some 30;
  max_price_impact_bps = none;
  max_market_data_age_seconds = some 10;
  max_risk_snapshot_age_seconds = some 20;
  max_intent_ttl_seconds = none;
  max_clock_skew_seconds = 5;
  max_actions_per_window = some 3;
  action_window_seconds = some 60;
  max_submission_attempts = 2;
}

abbrev grant : CapabilityGrant
grant = record {
  principal_id = 1;
  grant_id = 10;
  version = 1;
  actor_id = 2;
  status = active;
  allowed_primitives = swap ∷ [];
  allowed_venues = 7 ∷ [];
  allowed_assets = "USDC" ∷ [];
  allowed_targets = "router" ∷ [];
  denied_targets = [];
  valid_until = none;
  limits = limits;
}

abbrev snapshot : ℕ → RiskSnapshot
snapshot turnover = record {
  observed_at = 100000000;
  state_version = 4;
  scope = 0;
  position_after_usd = some (finite (pos 800));
  daily_turnover_after_usd = some (finite (pos turnover));
  daily_loss_usd = some (finite (pos 0));
  market_data_age_seconds = some (pos 2);
  requested_slippage_bps = some (pos 30);
  price_impact_bps = none;
  actions_in_window = 2;
  circuit_breaker_active = false;
  data_complete = true;
  source_count = 2;
  sources_agree = true;
}

over_turnover :
    (evaluate_risk grant (snapshot 501) 110000000).reason_codes ≡ max_turnover_exceeded ∷ []
unfolding evaluate_risk faar_runtime.Gates.Risk.risk_reasons
    faar_runtime.Gates.Risk.risk_decimal_reason faar_runtime.Gates.Risk.limit_amount
    faar_runtime.Gates.Risk.negative faar_runtime.Gates.Risk.limit_number
over_turnover = refl

evaluate_risk-IsReasoned_example : IsReasoned (evaluate_risk grant (snapshot 501) 110000000)
evaluate_risk-IsReasoned_example = evaluate_risk-IsReasoned grant (snapshot 501) 110000000
