-- ===== src/Gates/Risk.antt =====
-- evaluate_risk: the snapshot against the limits of the grant.
use faar_runtime.Common.{
  ℕ, ◌+◌, ◌-◌, ◌*◌, Bool, true, false, not, ◌||◌, Option, none, some, List, [], ◌∷◌, ◌++◌, ltb, leb,
  if◌then◌else◌,
}
use faar_runtime.Common.Int.{ℤ, pos, negsuc, abs}
use faar_runtime.Models.Enums.{Verdict}
use faar_runtime.Models.Grant.{
  CapabilityGrant, CapabilityLimits, Decimal, finite, non_finite, RiskSnapshot,
}
use faar_runtime.Gates.Decisions.{Decision, risk, decision}

pub data RiskReason : Type 0 where
  circuit_breaker_active risk_data_incomplete risk_sources_contradictory risk_snapshot_from_future
        risk_snapshot_stale position_nonfinite turnover_nonfinite loss_nonfinite
        position_data_required max_position_exceeded turnover_data_required max_turnover_exceeded
        loss_data_required max_loss_exceeded age_negative slippage_negative impact_negative
        market_data_age_required market_data_stale slippage_data_required max_slippage_exceeded
        impact_data_required max_impact_exceeded action_velocity_exceeded :
      RiskReason

-- reason.endswith("_EXCEEDED")
abbrev pub is_breach : RiskReason → Bool
is_breach max_position_exceeded = true
is_breach max_turnover_exceeded = true
is_breach max_loss_exceeded = true
is_breach max_slippage_exceeded = true
is_breach max_impact_exceeded = true
is_breach action_velocity_exceeded = true
is_breach _ = false

unfoldable pub any_breach : List RiskReason → Bool
any_breach [] = false
any_breach (r ∷ rs) = is_breach r || any_breach rs

abbrev pub reason_when : Bool → RiskReason → List RiskReason
reason_when true r = r ∷ []
reason_when false r = []

-- _risk_decimal_reason
unfoldable pub risk_decimal_reason : RiskReason → Option Decimal → List RiskReason
risk_decimal_reason r (some non_finite) = r ∷ []
risk_decimal_reason r _ = []

-- value > limit
abbrev pub above : ℤ → ℕ → Bool
above (pos n) limit = ltb limit n
above (negsuc n) limit = false

-- A limit on an amount: the data is required, and a finite amount is compared.
unfoldable pub limit_amount :
    (ℤ → ℕ → Bool) → RiskReason → RiskReason → Option ℕ → Option Decimal → List RiskReason
limit_amount over required exceeded none o = []
limit_amount over required exceeded (some limit) none = required ∷ []
limit_amount over required exceeded (some limit) (some (finite z)) =
    reason_when (over z limit) exceeded
limit_amount over required exceeded (some limit) (some non_finite) = []

-- `value is not None and value < 0`
unfoldable pub negative : RiskReason → Option ℤ → List RiskReason
negative r (some (negsuc n)) = r ∷ []
negative r _ = []

-- A limit on a whole number.
unfoldable pub limit_number : RiskReason → RiskReason → Option ℕ → Option ℤ → List RiskReason
limit_number required exceeded none o = []
limit_number required exceeded (some limit) none = required ∷ []
limit_number required exceeded (some limit) (some z) = reason_when (above z limit) exceeded

-- `risk.actions_in_window >= limits.max_actions_per_window`
abbrev pub is_spent : Option ℕ → ℕ → Bool
is_spent none actions = false
is_spent (some limit) actions = leb limit actions

unfoldable pub risk_reasons : CapabilityLimits → RiskSnapshot → List RiskReason
risk_reasons l r =
    risk_decimal_reason position_nonfinite r.position_after_usd
    ++ (risk_decimal_reason turnover_nonfinite r.daily_turnover_after_usd
        ++ (risk_decimal_reason loss_nonfinite r.daily_loss_usd
            ++ (limit_amount (λ z limit. ltb limit (abs z)) position_data_required
                  max_position_exceeded l.max_position_usd r.position_after_usd
                ++ (limit_amount above turnover_data_required max_turnover_exceeded
                      l.max_daily_turnover_usd r.daily_turnover_after_usd
                    ++ (limit_amount above loss_data_required max_loss_exceeded l.max_daily_loss_usd
                          r.daily_loss_usd
                        ++ (negative age_negative r.market_data_age_seconds
                            ++ (negative slippage_negative r.requested_slippage_bps
                                ++ (negative impact_negative r.price_impact_bps
                                    ++ (limit_number market_data_age_required market_data_stale
                                          l.max_market_data_age_seconds r.market_data_age_seconds
                                        ++ (limit_number slippage_data_required
                                              max_slippage_exceeded l.max_slippage_bps
                                              r.requested_slippage_bps
                                            ++ (limit_number impact_data_required
                                                  max_impact_exceeded l.max_price_impact_bps
                                                  r.price_impact_bps
                                                ++ reason_when
                                                    (is_spent l.max_actions_per_window
                                                      r.actions_in_window)
                                                    action_velocity_exceeded)))))))))))

abbrev pub second : ℕ
second = 1000000

-- `now - risk.observed_at` is negative for a snapshot from the future, and not stale.
abbrev pub is_stale : Option ℕ → ℕ → ℕ → Bool
is_stale none observed_at now = false
is_stale (some limit) observed_at now = ltb (limit * second) (now - observed_at)

abbrev pub judged : Verdict → RiskReason → Decision RiskReason
judged v r = record { verdict = v; reason_codes = r ∷ []; layer = risk }

unfoldable pub evaluate_risk : CapabilityGrant → RiskSnapshot → ℕ → Decision RiskReason
evaluate_risk g r now =
    if r.circuit_breaker_active
    then judged Verdict.stop circuit_breaker_active
    else if not r.data_complete
    then judged Verdict.defer risk_data_incomplete
    else if ltb r.source_count 1 || not r.sources_agree
    then judged Verdict.defer risk_sources_contradictory
    else if ltb (now + g.limits.max_clock_skew_seconds * second) r.observed_at
    then judged Verdict.defer risk_snapshot_from_future
    else if is_stale g.limits.max_risk_snapshot_age_seconds r.observed_at now
    then judged Verdict.defer risk_snapshot_stale
    else let reasons = risk_reasons g.limits r in decision risk reasons (not (any_breach reasons))
