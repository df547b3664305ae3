-- ===== src/Models/Grant.antt =====
-- CapabilityLimits and CapabilityGrant with their constructors' checks, Intent and RiskSnapshot.
use Prim.Native.Nat.{◌^◌}
use Prim.Native.String.{String}
use text.Mathlib.Text.{◌==◌ as str_eq}
use faar_runtime.Common.{
  ℕ, ◌-◌, ◌*◌, Bool, true, false, not, ◌&&◌, ◌||◌, Option, none, some, List, [], ◌∷◌, ltb, leb,
  is_some, is_none,
}
use faar_runtime.Common.Int.{ℤ}
use faar_runtime.Common.Result.{Result, ◌>>◌, require}
use faar_runtime.Models.Enums.{
  EconomicPrimitive, GrantStatus, is_monetary, is_target_bound, is_slippage_bound,
}
use faar_runtime.Models.Payload.{Payload}

abbrev pub max_safe_int : ℕ
max_safe_int = 2 ^ 63 - 1

abbrev pub max_limit_seconds : ℕ
max_limit_seconds = 366 * 86400

abbrev pub max_clock_skew_limit : ℕ
max_clock_skew_limit = 3600

pub record CapabilityLimits : Type 0 where
  pub max_order_usd : Option ℕ
  pub max_position_usd : Option ℕ
  pub max_daily_turnover_usd : Option ℕ
  pub max_daily_loss_usd : Option ℕ
  pub max_slippage_bps : Option ℕ
  pub max_price_impact_bps : Option ℕ
  pub max_market_data_age_seconds : Option ℕ
  pub max_risk_snapshot_age_seconds : Option ℕ
  pub max_intent_ttl_seconds : Option ℕ
  pub max_clock_skew_seconds : ℕ
  pub max_actions_per_window : Option ℕ
  pub action_window_seconds : Option ℕ
  pub max_submission_attempts : ℕ

pub record CapabilityGrant : Type 0 where
  pub principal_id : ℕ
  pub grant_id : ℕ
  pub version : ℕ
  pub actor_id : ℕ
  pub status : GrantStatus
  pub allowed_primitives : List EconomicPrimitive
  pub allowed_venues : List ℕ
  pub allowed_assets : List String
  pub allowed_targets : List String
  pub denied_targets : List String
  pub valid_until : Option ℕ
  pub limits : CapabilityLimits

pub record Intent : Type 0 where
  pub principal_id : ℕ
  pub intent_id : ℕ
  pub actor_id : ℕ
  pub grant_id : ℕ
  pub grant_version : ℕ
  pub primitive : EconomicPrimitive
  pub venue : ℕ
  pub created_at : ℕ
  pub expires_at : ℕ
  pub payload : Payload

-- A Decimal of a risk snapshot may be a NaN or an infinity.
pub data Decimal : Type 0 where
  finite : ℤ → Decimal
  non_finite : Decimal

pub record RiskSnapshot : Type 0 where
  pub observed_at : ℕ
  pub state_version : ℕ
  pub scope : ℕ
  pub position_after_usd : Option Decimal
  pub daily_turnover_after_usd : Option Decimal
  pub daily_loss_usd : Option Decimal
  pub market_data_age_seconds : Option ℤ
  pub requested_slippage_bps : Option ℤ
  pub price_impact_bps : Option ℤ
  pub actions_in_window : ℕ
  pub circuit_breaker_active : Bool
  pub data_complete : Bool
  pub source_count : ℕ
  pub sources_agree : Bool

-- `raise ValueError(...)`
pub data ValueError : Type 0 where
  value_error : ValueError

-- _require_int of a field that holds a natural number
unfoldable pub is_int_in : ℕ → ℕ → ℕ → Bool
is_int_in minimum maximum v = leb minimum v && leb v maximum

-- the same where the field may be None
unfoldable pub is_optional_int_in : ℕ → ℕ → Option ℕ → Bool
unfolding is_int_in
is_optional_int_in minimum maximum none = true
is_optional_int_in minimum maximum (some v) = is_int_in minimum maximum v

-- CapabilityLimits.__post_init__: the four amounts are Decimals that are not negative by their type
unfoldable pub check_limits : CapabilityLimits → Result ValueError (Unit {0})
unfolding is_optional_int_in is_int_in
check_limits l = do
  require (is_optional_int_in 0 max_safe_int l.max_slippage_bps) value_error
  require (is_optional_int_in 0 max_safe_int l.max_price_impact_bps) value_error
  require (is_optional_int_in 0 max_safe_int l.max_actions_per_window) value_error
  require (is_optional_int_in 0 max_limit_seconds l.max_market_data_age_seconds) value_error
  require (is_optional_int_in 0 max_limit_seconds l.max_risk_snapshot_age_seconds) value_error
  require (is_optional_int_in 0 max_limit_seconds l.max_intent_ttl_seconds) value_error
  require (is_int_in 0 max_clock_skew_limit l.max_clock_skew_seconds) value_error
  require (is_optional_int_in 1 max_limit_seconds l.action_window_seconds) value_error
  require (is_none l.max_actions_per_window || is_some l.action_window_seconds) value_error
  require (is_int_in 1 max_safe_int l.max_submission_attempts) value_error

-- any(p in s for p in allowed_primitives)
unfoldable pub any_primitive : (EconomicPrimitive → Bool) → List EconomicPrimitive → Bool
any_primitive p [] = false
any_primitive p (x ∷ xs) = p x || any_primitive p xs

unfoldable pub mem_text : String → List String → Bool
mem_text t [] = false
mem_text t (s ∷ ss) = str_eq t s || mem_text t ss

-- allowed & denied is not empty
unfoldable pub overlap : List String → List String → Bool
unfolding mem_text
overlap [] ds = false
overlap (a ∷ as_) ds = mem_text a ds || overlap as_ ds

abbrev pub is_empty {ℓ} : {A : Type ℓ} → List A → Bool
is_empty [] = true
is_empty (_ ∷ _) = false

-- `limit is not None and limit > 0`
abbrev pub is_positive : Option ℕ → Bool
is_positive none = false
is_positive (some v) = ltb 0 v

-- CapabilityGrant.__post_init__
unfoldable pub check_grant : CapabilityGrant → Result ValueError (Unit {0})
check_grant g = do
  require (is_int_in 1 max_safe_int g.version) value_error
  require (not (is_empty g.allowed_primitives)) value_error
  require (not (is_empty g.allowed_venues)) value_error
  let monetary = any_primitive is_monetary g.allowed_primitives
  require (not monetary || is_positive g.limits.max_order_usd) value_error
  require (not monetary || is_positive g.limits.max_daily_turnover_usd) value_error
  require (not monetary || not (is_empty g.allowed_assets)) value_error
  require
      (not (any_primitive is_target_bound g.allowed_primitives) || not (is_empty g.allowed_targets))
      value_error
  require (is_some g.limits.max_actions_per_window && is_some g.limits.action_window_seconds)
      value_error
  require (is_positive g.limits.max_actions_per_window) value_error
  require
      (not (any_primitive is_slippage_bound g.allowed_primitives)
        || is_some g.limits.max_slippage_bps)
      value_error
  require (not (overlap g.allowed_targets g.denied_targets)) value_error
