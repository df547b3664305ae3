-- ===== src/Gates/RiskBounds.antt =====
-- What an ALLOW of evaluate_risk says of the snapshot, and what it takes to get one.
use faar_runtime.Common.{
  ℕ, ◌+◌, ◌*◌, ◌≤◌, ◌≡◌, ◌↔◌, refl, Bool, true, false, not, ◌||◌, Option, some, List, [], ◌∷◌, ltb,
  if◌then◌else◌,
}
use faar_runtime.Common.Int.{ℤ, pos, abs}
use faar_runtime.Models.Enums.{Verdict}
use faar_runtime.Models.Grant.{CapabilityGrant, Decimal, finite, RiskSnapshot}
use faar_runtime.Gates.Decisions.{Decision, decision, risk}
use faar_runtime.Gates.Risk.{
  RiskReason, evaluate_risk, risk_reasons, above, is_stale, any_breach, second, judged,
  circuit_breaker_active,
}

-- An amount that is limited is given, finite and within its limit.
abbrev pub IsAmountWithin : (ℤ → ℕ → Bool) → Option ℕ → Option Decimal → Type 0
IsAmountWithin over limit o =
    (m : ℕ) → limit ≡ some m → (z : ℤ) × (o ≡ some (finite z)) × (over z m ≡ false)

-- A number that is limited is given, not negative and within its limit.
abbrev pub IsNumberWithin : Option ℕ → Option ℤ → Type 0
IsNumberWithin limit o = (m : ℕ) → limit ≡ some m → (n : ℕ) × (o ≡ some (pos n)) × (n ≤ m)

-- The snapshot is usable and every limit of the grant holds of it.
pub record IsWithinRisk (g : CapabilityGrant) (r : RiskSnapshot) (now : ℕ) : Type 0 where
  pub no_breaker : r.circuit_breaker_active ≡ false
  pub complete : r.data_complete ≡ true
  pub sourced : 1 ≤ r.source_count
  pub agreed : r.sources_agree ≡ true
  pub not_from_future : r.observed_at ≤ now + g.limits.max_clock_skew_seconds * second
  pub fresh :
      (m : ℕ) → g.limits.max_risk_snapshot_age_seconds ≡ some m → now ≤ r.observed_at + m * second
  pub position :
      IsAmountWithin (λ z m. ltb m (abs z)) g.limits.max_position_usd r.position_after_usd
  pub turnover : IsAmountWithin above g.limits.max_daily_turnover_usd r.daily_turnover_after_usd
  pub loss : IsAmountWithin above g.limits.max_daily_loss_usd r.daily_loss_usd
  pub data_age : IsNumberWithin g.limits.max_market_data_age_seconds r.market_data_age_seconds
  pub slippage : IsNumberWithin g.limits.max_slippage_bps r.requested_slippage_bps
  pub impact : IsNumberWithin g.limits.max_price_impact_bps r.price_impact_bps
  pub actions : (m : ℕ) → g.limits.max_actions_per_window ≡ some m → r.actions_in_window + 1 ≤ m

-- What the reasons of a decision say of its verdict.
abbrev pub IsReasoned : Decision RiskReason → Type 0
IsReasoned d =
    ((d.verdict ≡ Verdict.allow) ↔ (d.reason_codes ≡ []))
    × (d.verdict ≡ Verdict.deny → any_breach d.reason_codes ≡ true)
    × (d.verdict ≡ Verdict.defer → any_breach d.reason_codes ≡ false)

IsReasoned-if :
    (b : Bool) (d e : Decision RiskReason)
    → IsReasoned d
    → IsReasoned e
    → IsReasoned (if b then d else e)
IsReasoned-if true d e h k = h
IsReasoned-if false d e h k = k

reasons-IsReasoned : (rs : List RiskReason) → IsReasoned (decision risk rs (not (any_breach rs)))
reasons-IsReasoned [] = (((λ _. refl), λ _. refl), (λ h. cc), λ h. cc)
reasons-IsReasoned (r ∷ rs) = by_breach (any_breach (r ∷ rs)) refl
  where
    by_breach :
        (b : Bool)
        → any_breach (r ∷ rs) ≡ b
        → (((if not b then Verdict.defer else Verdict.deny) ≡ Verdict.allow) ↔ (r ∷ rs ≡ []))
          × ((if not b then Verdict.defer else Verdict.deny) ≡ Verdict.deny
              → any_breach (r ∷ rs) ≡ true)
          × ((if not b then Verdict.defer else Verdict.deny) ≡ Verdict.defer
              → any_breach (r ∷ rs) ≡ false)
    by_breach true e = (((λ h. cc), λ h. cc), (λ _. e), λ h. cc)
    by_breach false e = (((λ h. cc), λ h. cc), (λ h. cc), λ _. e)

-- On every branch the gate allows exactly when it names no reason, denies only for a proven breach
-- of a limit, and defers only when no limit is proven to be breached.
pub evaluate_risk-IsReasoned :
    (g : CapabilityGrant) (r : RiskSnapshot) (now : ℕ) → IsReasoned (evaluate_risk g r now)
unfolding evaluate_risk any_breach
evaluate_risk-IsReasoned g r now =
    IsReasoned-if r.circuit_breaker_active _ _ (((λ h. cc), λ h. cc), (λ h. cc), λ h. cc)
      (IsReasoned-if (not r.data_complete) _ _ (deferred refl) (
        IsReasoned-if (ltb r.source_count 1 || not r.sources_agree) _ _ (deferred refl) (
          IsReasoned-if (ltb (now + g.limits.max_clock_skew_seconds * second) r.observed_at) _ _
            (deferred refl)
            (IsReasoned-if (is_stale g.limits.max_risk_snapshot_age_seconds r.observed_at now) _ _
              (deferred refl) (reasons-IsReasoned (risk_reasons g.limits r))))))
  where
    deferred : {x : RiskReason} → any_breach (x ∷ []) ≡ false → IsReasoned (judged Verdict.defer x)
    deferred e = (((λ h. cc), λ h. cc), (λ h. cc), λ _. e)
