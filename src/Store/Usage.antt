-- ===== src/Store/Usage.antt =====
-- The usage ledger: reserve_usage, commit_usage, release_usage, verify_usage_held and
-- claim_permit_risk_state, with the windows that they sum over.
mod Windows
use faar_runtime.Common.{
  ℕ, ◌+◌, ◌-◌, ◌*◌, ◌/◌, Bool, true, false, not, ◌&&◌, ◌||◌, Option, none, some, List, [], ◌∷◌,
  ◌++◌, ltb, leb, ◌==◌, is_none, if◌then◌else◌,
}
use faar_runtime.Common.Int.{ℤ, pos}
use faar_runtime.Common.Result.{ok, err}
use faar_runtime.Table.{find, exists, update, count, sum, max_of}
use faar_runtime.Anchor.{exposure_caps, high_water, regressed}
use faar_runtime.Models.Enums.{is_monetary}
use faar_runtime.Models.Grant.{CapabilityGrant, Intent, RiskSnapshot}
use faar_runtime.Money.{parse_bounded_decimal, amount_field}
use faar_runtime.Money.Rounding.{add28, sum28}
use faar_runtime.Store.Schema.{
  Reservation, UsageStatus, held, committed, released, RiskClaim, Attempt, ControlScope, global,
  principal, CapRow, Store, integrity_error,
}
use faar_runtime.Store.Access.{Tx, same_scope}
pub use Windows.{
  microseconds, turnover_window_seconds, legacy_principal_id, is_held, is_counted, positive_amount,
  at_reservation, owned_by, since, in_turnover, in_scope_turnover, in_attempt_window,
  in_pending_window,
}
unfoldable pub use Windows.{reservation_amount, scope_turnover, action_velocity_count}

pub data UsageReason : Type 0 where
  usage_amount_invalid intent_namespace_conflict risk_state_version_already_claimed
        risk_state_version_not_monotonic atomic_daily_turnover_exceeded exposure_caps_regressed
        exposure_cap_unreadable exposure_cap_exceeded atomic_action_velocity_exceeded
        permit_risk_usage_not_held permit_risk_state_version_already_claimed
        permit_risk_state_version_not_monotonic :
      UsageReason

abbrev pub reason_if : Bool → UsageReason → List UsageReason
reason_if true r = r ∷ []
reason_if false r = []

-- WHERE grant_id=? AND grant_version=? AND risk_scope=?
abbrev pub in_risk_scope : CapabilityGrant → RiskSnapshot → RiskClaim → Bool
in_risk_scope g risk c =
    c.grant_id == g.grant_id && (c.grant_version == g.version && c.risk_scope == risk.scope)

abbrev pub at_risk_claim : CapabilityGrant → RiskSnapshot → RiskClaim → Bool
at_risk_claim g risk c = in_risk_scope g risk c && c.state_version == risk.state_version

-- A claim of this very version by another intent.
abbrev pub is_foreign : ℕ → Option RiskClaim → Bool
is_foreign i none = false
is_foreign i (some c) = not (c.intent_id == i)

abbrev pub is_claimed : Store → Intent → CapabilityGrant → RiskSnapshot → Bool
is_claimed s i g risk =
    is_foreign i.intent_id (find (at_risk_claim g risk) s.risk_claims)
    || is_foreign i.intent_id (find (at_risk_claim g risk) s.permit_risk_claims)

abbrev below : ℕ → Option ℕ → Bool
below v none = false
below v (some m) = ltb v m

-- `versions and risk.state_version < max(versions)`, over both ledgers
abbrev pub is_not_monotonic : Store → CapabilityGrant → RiskSnapshot → Bool
is_not_monotonic s g risk =
    below risk.state_version (max_of (in_risk_scope g risk) (λ c. c.state_version) s.risk_claims)
    || below risk.state_version
        (max_of (in_risk_scope g risk) (λ c. c.state_version) s.permit_risk_claims)

-- SQL leaves the order of the rows open; they are added in the order of insertion.
unfoldable pub turnover : Store → CapabilityGrant → ℕ → ℕ → ℕ
unfolding sum28
turnover s g start day =
    sum28 (in_turnover g.grant_id g.principal_id start day) (λ r. r.amount_usd) 0
      s.usage_reservations

abbrev pub exceeds : ℕ → Option ℕ → Bool
exceeds n none = false
exceeds n (some m) = ltb m n

-- _exposure_caps_regressed_locked; an anchor that does not answer counts as regressed
unfoldable pub caps_regressed : Store → Bool
caps_regressed s = elim s.anchor [
  | none ↦ false
  | some a ↦ elim (high_water a exposure_caps) [
    | ok mark ↦ regressed (record { epoch = s.exposure_caps_version; fence = 0 }) mark
    | err _ ↦ true
  ]
]

abbrev pub applies_to : ℕ → CapRow → Bool
applies_to p c = same_scope c.scope global || same_scope c.scope (principal p)

-- The loop over the caps of the principal; it stops at the first that refuses.
unfoldable pub cap_reasons : Store → ℕ → ℕ → ℕ → List CapRow → List UsageReason
unfolding scope_turnover add28
cap_reasons s p amount start [] = []
cap_reasons s p amount start (c ∷ cs) =
    let rest = cap_reasons s p amount start cs in
    if applies_to p c
    then elim c.max_turnover_usd [
      | none ↦ exposure_cap_unreadable ∷ []
      | some cap ↦
          if leb cap 0
          then exposure_cap_unreadable ∷ []
          else if leb amount 0
          then rest
          else if ltb cap (add28 (scope_turnover s c.scope p start) amount)
          then exposure_cap_exceeded ∷ []
          else rest
    ]
    else rest

-- The window is a positive number of seconds.
abbrev pub velocity_exceeded : Store → CapabilityGrant → ℕ → Bool
velocity_exceeded s g now = elim g.limits.max_actions_per_window [
  | none ↦ false
  | some cap ↦ elim g.limits.action_window_seconds [
    | none ↦ false
    | some window ↦
        ltb 0 window
        && ltb cap (action_velocity_count s g.grant_id g.principal_id (now - window) none + 1)
  ]
]

-- Every limit that the reservation would break, at the second `now`.
unfoldable pub reserve_reasons :
    Store → Intent → CapabilityGrant → RiskSnapshot → ℕ → ℕ → ℕ → List UsageReason
unfolding add28
reserve_reasons s i g risk amount now day =
    reason_if (is_claimed s i g risk) risk_state_version_already_claimed
    ++ (reason_if (is_not_monotonic s g risk) risk_state_version_not_monotonic
        ++ (reason_if
              (exceeds (add28 (turnover s g (now - turnover_window_seconds) day) amount)
                g.limits.max_daily_turnover_usd)
              atomic_daily_turnover_exceeded
            ++ (reason_if (ltb 0 amount && caps_regressed s) exposure_caps_regressed
                ++ (cap_reasons s i.principal_id amount (now - turnover_window_seconds)
                      s.exposure_caps
                    ++ reason_if (velocity_exceeded s g now) atomic_action_velocity_exceeded))))

pub data Admission : Type 0 where
  admitted : Admission
  rejected : List UsageReason → Admission

abbrev pub new_claim : Intent → CapabilityGrant → RiskSnapshot → RiskClaim
new_claim i g risk = record {
  principal_id = i.principal_id;
  grant_id = g.grant_id;
  grant_version = g.version;
  risk_scope = risk.scope;
  state_version = risk.state_version;
  intent_id = i.intent_id;
}

abbrev pub new_reservation : Intent → CapabilityGrant → ℕ → ℕ → ℕ → Reservation
new_reservation i g amount now day = record {
  intent_id = i.intent_id;
  principal_id = i.principal_id;
  grant_id = g.grant_id;
  grant_version = g.version;
  day_key = day;
  velocity_ts = some now;
  max_actions_per_window = g.limits.max_actions_per_window;
  action_window_seconds = g.limits.action_window_seconds;
  amount_usd = amount;
  status = held;
  submitted = false;
}

abbrev pub insert_usage : Store → Intent → CapabilityGrant → RiskSnapshot → ℕ → ℕ → ℕ → Store
insert_usage s i g risk amount now day = record s {
  db = record s.db {
    risk_claims = s.risk_claims ++ new_claim i g risk ∷ [];
    usage_reservations = s.usage_reservations ++ new_reservation i g amount now day ∷ [];
  };
}

-- PRIMARY KEY(grant_id, grant_version, risk_scope, state_version), UNIQUE(intent_id)
abbrev pub claim_clash : Intent → CapabilityGrant → RiskSnapshot → RiskClaim → Bool
claim_clash i g risk c = at_risk_claim g risk c || c.intent_id == i.intent_id

abbrev pub reserve_new :
    Store → Intent → CapabilityGrant → RiskSnapshot → ℕ → ℕ → ℕ → List UsageReason → Tx Admission
reserve_new s i g risk amount now day [] =
    if exists (claim_clash i g risk) s.risk_claims
    then err integrity_error
    else ok (admitted, insert_usage s i g risk amount now day)
reserve_new s i g risk amount now day (r ∷ rs) = ok (rejected (r ∷ rs), s)

-- A second call for the same intent changes nothing.
abbrev pub reserve_existing :
    Store → Intent → CapabilityGrant → RiskSnapshot → ℕ → ℕ → ℕ → Option Reservation → Tx Admission
reserve_existing s i g risk amount now day none =
    reserve_new s i g risk amount now day (reserve_reasons s i g risk amount now day)
reserve_existing s i g risk amount now day (some old) =
    if old.principal_id == i.principal_id
    then ok (admitted, s)
    else ok (rejected (intent_namespace_conflict ∷ []), s)

abbrev pub reserve_amount :
    Store → Intent → CapabilityGrant → RiskSnapshot → ℕ → Option ℕ → Tx Admission
reserve_amount s i g risk now none = ok (rejected (usage_amount_invalid ∷ []), s)
reserve_amount s i g risk now (some amount) =
    reserve_existing s i g risk amount (now / microseconds) (now / (86400 * microseconds))
      (find (at_reservation i.intent_id) s.usage_reservations)

-- `now` in microseconds; the stamps are whole seconds, and the day is counted from the epoch.
unfoldable pub reserve_usage : Store → Intent → CapabilityGrant → RiskSnapshot → ℕ → Tx Admission
reserve_usage s i g risk now = reserve_amount s i g risk now (reservation_amount i)

-- UPDATE … SET status=? WHERE intent_id=? AND status='HELD'
abbrev pub settle_usage : UsageStatus → ℕ → List Reservation → List Reservation
settle_usage status i rows =
    update (λ r. at_reservation i r && is_held r.status) (λ r. record r { status = status }) rows

abbrev set_usage : Store → List Reservation → Store
set_usage s rows = record s { db = record s.db { usage_reservations = rows } }

unfoldable pub commit_usage : Store → ℕ → Store
commit_usage s i = set_usage s (settle_usage committed i s.usage_reservations)

unfoldable pub release_usage : Store → ℕ → Store
release_usage s i = set_usage s (settle_usage released i s.usage_reservations)

abbrev pub is_holder : Intent → CapabilityGrant → Reservation → Bool
is_holder i g r =
    r.principal_id == i.principal_id
    && (i.principal_id == g.principal_id
        && (r.grant_id == g.grant_id && (r.grant_version == g.version && is_held r.status)))

unfoldable pub verify_usage_held : Store → Intent → CapabilityGrant → Bool
verify_usage_held s i g = elim (find (at_reservation i.intent_id) s.usage_reservations) [
  | none ↦ false
  | some r ↦ is_holder i g r
]

-- A claim of this version that is already in the ledger: the same intent may repeat it.
abbrev pub prior_claim : Store → Intent → RiskClaim → Admission × Store
prior_claim s i c =
    if not (c.principal_id == i.principal_id) || not (c.intent_id == i.intent_id)
    then (rejected (permit_risk_state_version_already_claimed ∷ []), s)
    else (admitted, s)

abbrev pub fresh_claim : Store → Intent → CapabilityGrant → RiskSnapshot → Admission × Store
fresh_claim s i g risk =
    if is_not_monotonic s g risk
    then (rejected (permit_risk_state_version_not_monotonic ∷ []), s)
    else let claims = s.permit_risk_claims ++ new_claim i g risk ∷ [] in
      (admitted, record s { db = record s.db { permit_risk_claims = claims } })

abbrev pub claim_found :
    Store → Intent → CapabilityGrant → RiskSnapshot → Option RiskClaim → Admission × Store
claim_found s i g risk none = fresh_claim s i g risk
claim_found s i g risk (some c) = prior_claim s i c

unfoldable pub claim_permit_risk_state :
    Store → Intent → CapabilityGrant → RiskSnapshot → Admission × Store
unfolding verify_usage_held
claim_permit_risk_state s i g risk =
    if not (verify_usage_held s i g)
    then (rejected (permit_risk_usage_not_held ∷ []), s)
    else claim_found s i g risk (find (at_risk_claim g risk) s.permit_risk_claims)
