-- ===== src/Worker/Reasons.antt =====
-- The reason codes of `faar/runtime.py` and `faar/permits.py`: a text is a number here. The codes
-- that gates, stores and trust stores give have their numbers from `Texts`.
use faar_runtime.Common.{ℕ, Bool, false, ◌||◌, List, [], ◌∷◌, ◌==◌}
use faar_runtime.Models.Enums.{active, paused, revoked}
use faar_runtime.Store.Schema.{ControlStatus}

abbrev pub grant_not_provisioned : ℕ
grant_not_provisioned = 1

abbrev pub grant_envelope_mismatch : ℕ
grant_envelope_mismatch = 2

abbrev pub grant_not_bound_to_intent : ℕ
grant_not_bound_to_intent = 3

abbrev pub intent_busy : ℕ
intent_busy = 4

abbrev pub store_unavailable : ℕ
store_unavailable = 5

abbrev pub evidence_integrity_failure : ℕ
evidence_integrity_failure = 6

abbrev pub adapter_not_configured : ℕ
adapter_not_configured = 7

abbrev pub adapter_orphan_limit_reached : ℕ
adapter_orphan_limit_reached = 8

abbrev pub submit_reauthorization_failed : ℕ
submit_reauthorization_failed = 9

abbrev pub intent_expired_before_submit : ℕ
intent_expired_before_submit = 10

abbrev pub grant_expired_before_submit : ℕ
grant_expired_before_submit = 11

abbrev pub max_submission_attempts_reached : ℕ
max_submission_attempts_reached = 12

abbrev pub atomic_action_velocity_exceeded : ℕ
atomic_action_velocity_exceeded = 13

abbrev pub execution_permit_rejected : ℕ
execution_permit_rejected = 14

abbrev pub execution_permit_exception : ℕ
execution_permit_exception = 15

abbrev pub execution_deadline_exceeded : ℕ
execution_deadline_exceeded = 16

abbrev pub execution_ambiguous : ℕ
execution_ambiguous = 17

abbrev pub execution_deterministic_failure : ℕ
execution_deterministic_failure = 18

abbrev pub execution_deterministic_failure_unverified : ℕ
execution_deterministic_failure_unverified = 19

abbrev pub adapter_execution_exception : ℕ
adapter_execution_exception = 20

abbrev pub awaiting_independent_settlement : ℕ
awaiting_independent_settlement = 21

abbrev pub reconcile_not_applicable_before_submission : ℕ
reconcile_not_applicable_before_submission = 22

abbrev pub reconciliation_exception : ℕ
reconciliation_exception = 23

abbrev pub settlement_record_malformed : ℕ
settlement_record_malformed = 24

abbrev pub settlement_none_not_authoritative : ℕ
settlement_none_not_authoritative = 25

abbrev pub settlement_cancel_not_authoritative : ℕ
settlement_cancel_not_authoritative = 26

abbrev pub settlement_positive_not_authoritative : ℕ
settlement_positive_not_authoritative = 27

abbrev pub settlement_request_binding_mismatch : ℕ
settlement_request_binding_mismatch = 28

abbrev pub settled_effect_id_invalid : ℕ
settled_effect_id_invalid = 29

abbrev pub settled_effect_id_required : ℕ
settled_effect_id_required = 30

abbrev pub settlement_lost_previous_effect : ℕ
settlement_lost_previous_effect = 31

abbrev pub settlement_effect_id_mismatch : ℕ
settlement_effect_id_mismatch = 32

abbrev pub authorized_effect_amount_invalid : ℕ
authorized_effect_amount_invalid = 33

abbrev pub settled_amount_invalid : ℕ
settled_amount_invalid = 34

abbrev pub settled_amount_exceeds_authorized : ℕ
settled_amount_exceeds_authorized = 35

abbrev pub payment_partial_not_allowed : ℕ
payment_partial_not_allowed = 36

abbrev pub settled_amount_required : ℕ
settled_amount_required = 37

abbrev pub payment_amount_mismatch : ℕ
payment_amount_mismatch = 38

abbrev pub settlement_fill_regressed : ℕ
settlement_fill_regressed = 39

abbrev pub effect_id_already_claimed : ℕ
effect_id_already_claimed = 40

abbrev pub settlement_partial_fill_open : ℕ
settlement_partial_fill_open = 41

abbrev pub settlement_order_open : ℕ
settlement_order_open = 42

abbrev pub settlement_cancelled_after_partial_fill : ℕ
settlement_cancelled_after_partial_fill = 43

abbrev pub settlement_cancel_contradicts_recorded_effect : ℕ
settlement_cancel_contradicts_recorded_effect = 44

abbrev pub settlement_cancelled_unfilled : ℕ
settlement_cancelled_unfilled = 45

abbrev pub settlement_contradictory : ℕ
settlement_contradictory = 46

abbrev pub settlement_unknown : ℕ
settlement_unknown = 47

abbrev pub settlement_none_within_permit_window : ℕ
settlement_none_within_permit_window = 48

abbrev pub settlement_none_after_permit_consumed : ℕ
settlement_none_after_permit_consumed = 49

abbrev pub resubmission_blocked : ℕ
resubmission_blocked = 50

abbrev pub intent_expired_before_resubmit : ℕ
intent_expired_before_resubmit = 51

abbrev pub grant_expired_before_resubmit : ℕ
grant_expired_before_resubmit = 52

abbrev pub grant_not_active_before_resubmit : ℕ
grant_not_active_before_resubmit = 53

abbrev pub fresh_authorization_required_for_resubmit : ℕ
fresh_authorization_required_for_resubmit = 54

abbrev pub resubmit_not_authorized : ℕ
resubmit_not_authorized = 55

abbrev pub unhandled_settlement_state : ℕ
unhandled_settlement_state = 56

abbrev pub permit_request_not_canonical_intent_projection : ℕ
permit_request_not_canonical_intent_projection = 57

abbrev pub permit_principal_mismatch : ℕ
permit_principal_mismatch = 58

abbrev pub permit_grant_not_trusted : ℕ
permit_grant_not_trusted = 59

abbrev pub permit_usage_reservation_not_held : ℕ
permit_usage_reservation_not_held = 60

abbrev pub permit_intent_expired : ℕ
permit_intent_expired = 61

abbrev pub permit_grant_expired : ℕ
permit_grant_expired = 62

abbrev pub permit_amount_invalid : ℕ
permit_amount_invalid = 63

abbrev pub permit_amount_exceeds_grant : ℕ
permit_amount_exceeds_grant = 64

abbrev pub permit_risk_claim_unavailable : ℕ
permit_risk_claim_unavailable = 65

abbrev pub permit_risk_claim_rejected : ℕ
permit_risk_claim_rejected = 66

abbrev pub permit_grant_fence_unavailable : ℕ
permit_grant_fence_unavailable = 67

abbrev pub permit_grant_epoch_changed : ℕ
permit_grant_epoch_changed = 68

abbrev pub permit_ttl_empty : ℕ
permit_ttl_empty = 69

abbrev pub permit_previous_attempt_live : ℕ
permit_previous_attempt_live = 70

-- f"GRANT_RUNTIME_{status}"
abbrev pub grant_runtime : ControlStatus → ℕ
grant_runtime (ControlStatus.runtime active) = 101
grant_runtime (ControlStatus.runtime paused) = 102
grant_runtime (ControlStatus.runtime revoked) = 103
grant_runtime ControlStatus.anchor_required = 104
grant_runtime ControlStatus.regressed = 105
grant_runtime ControlStatus.anchor_unavailable = 106
grant_runtime ControlStatus.halted = 107

unfoldable pub mem : ℕ → List ℕ → Bool
mem r [] = false
mem r (x ∷ xs) = r == x || mem r xs

-- _RESUBMIT_BLOCKING_REASONS
abbrev pub is_blocking : ℕ → Bool
is_blocking r =
    r == execution_deterministic_failure || r == execution_deterministic_failure_unverified

-- reason.startswith(_SETTLEMENT_DERIVED_PREFIXES), of the codes above
unfoldable pub is_settlement_derived : ℕ → Bool
unfolding mem
is_settlement_derived r = mem r (
    settlement_record_malformed ∷ settlement_none_not_authoritative
    ∷ settlement_cancel_not_authoritative ∷ settlement_positive_not_authoritative
    ∷ settlement_request_binding_mismatch ∷ settled_effect_id_invalid ∷ settled_effect_id_required
    ∷ settlement_lost_previous_effect ∷ settlement_effect_id_mismatch ∷ settled_amount_invalid
    ∷ settled_amount_exceeds_authorized ∷ payment_partial_not_allowed ∷ settled_amount_required
    ∷ payment_amount_mismatch ∷ settlement_fill_regressed ∷ effect_id_already_claimed
    ∷ settlement_partial_fill_open ∷ settlement_order_open ∷ settlement_cancelled_after_partial_fill
    ∷ settlement_cancel_contradicts_recorded_effect ∷ settlement_cancelled_unfilled
    ∷ settlement_contradictory ∷ settlement_unknown ∷ settlement_none_within_permit_window
    ∷ settlement_none_after_permit_consumed ∷ unhandled_settlement_state ∷ [])

unfoldable pub any_settlement_derived : List ℕ → Bool
unfolding is_settlement_derived
any_settlement_derived [] = false
any_settlement_derived (r ∷ rs) = is_settlement_derived r || any_settlement_derived rs

unfoldable pub any_blocking : List ℕ → Bool
any_blocking [] = false
any_blocking (r ∷ rs) = is_blocking r || any_blocking rs
