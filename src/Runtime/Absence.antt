-- ===== src/Runtime/Absence.antt =====
-- An authoritative NONE: when it is trusted, and what then happens to the reservation and the
-- permits.
use faar_runtime.Common.{
  ℕ, ◌+◌, ◌*◌, Bool, true, false, not, Option, none, some, List, [], ◌∷◌, ◌++◌, ltb, ◌==◌,
  if◌then◌else◌,
}
use faar_runtime.Models.Enums.{IntentState, unknown, reconciling, stopped, failed_safe}
use faar_runtime.Models.Grant.{CapabilityGrant, Intent}
use faar_runtime.Gates.Capability.Scope.{second, is_past}
use faar_runtime.Permits.Issue.{is_active_control}
use faar_runtime.Store.Schema.{IntentRow}
use faar_runtime.Worker.Defs.{Env, Entry, M, ◌>>=◌, ◌>>◌}
use faar_runtime.Worker.Judgement.{Credentials, evaluate_fresh, dominant, decision_codes}
use faar_runtime.Worker.Reasons
use faar_runtime.Runtime.Calls.{
  RuntimeResult, because, releasing, change, log, void_permits, count_permits, get_grant_status,
  current_result,
}
use faar_runtime.Runtime.Stops.{stop_execution_state}
use faar_runtime.Runtime.Outcomes.{with_block}
use faar_runtime.Runtime.Submission.{Retry, submit, is_authorized}

-- decision_now < _ambiguity_window_closes_at(stored, grant)
abbrev pub is_window_open : Option ℕ → CapabilityGrant → ℕ → Bool
is_window_open none g now = false
is_window_open (some t) g now = ltb now (t + g.limits.max_clock_skew_seconds * second)

abbrev pub or_blocked : Option ℕ → ℕ
or_blocked none = Reasons.resubmission_blocked
or_blocked (some reason) = reason

abbrev pub blocked_state : ℕ → IntentState
blocked_state reason =
    if reason == Reasons.execution_deterministic_failure then failed_safe else stopped

module _ (e : Env) (retry : Retry) where
  unfoldable pub wait_for_window : ℕ → Option ℕ → M RuntimeResult
  wait_for_window i block = do
    let reasons = with_block Reasons.settlement_none_within_permit_window block
    change e i reconciling unknown (because reasons)
    log e i Entry.ambiguity_window_open
    current_result e i none reasons true

  -- The reservation is released and nothing is submitted again.
  unfoldable pub terminalize : ℕ → IntentState → List ℕ → Entry → M RuntimeResult
  terminalize i state reasons entry = do
    change e i reconciling state (releasing reasons)
    log e i entry
    current_result e i none reasons true

  abbrev pub block_resubmission : ℕ → IntentState → ℕ → M RuntimeResult
  block_resubmission i state reason =
      terminalize i state (reason ∷ []) (Entry.resubmission_blocked (reason ∷ []))

  unfoldable pub reauthorize : Intent → CapabilityGrant → Credentials → ℕ → M RuntimeResult
  unfolding evaluate_fresh dominant decision_codes
  reauthorize i g x now =
      let j = evaluate_fresh e i g x now in
      let reasons = Reasons.resubmit_not_authorized ∷ (j.trust_reasons ++ decision_codes e j) in
      if not (is_authorized e retry j)
      then terminalize i.intent_id stopped reasons (Entry.resubmit_authorization_failed reasons)
      else submit e retry i g x

  abbrev pub with_credentials : Intent → CapabilityGrant → Option Credentials → ℕ → M RuntimeResult
  with_credentials i g none now =
      block_resubmission i.intent_id stopped Reasons.fresh_authorization_required_for_resubmit
  with_credentials i g (some x) now = reauthorize i g x now

  unfoldable pub resubmit : Intent → CapabilityGrant → Option Credentials → ℕ → M RuntimeResult
  resubmit i g x now = do
    status ← get_grant_status e g
    if ltb i.expires_at now
        then block_resubmission i.intent_id stopped Reasons.intent_expired_before_resubmit
        else if is_past g.valid_until now
        then block_resubmission i.intent_id stopped Reasons.grant_expired_before_resubmit
        else if not (is_active_control status)
        then block_resubmission i.intent_id stopped Reasons.grant_not_active_before_resubmit
        else with_credentials i g x now

  -- Absence is acted on: every permit is voided, and none may have been consumed.
  unfoldable pub act_on_absence :
      Intent → CapabilityGrant → Option Credentials → Bool → Option ℕ → ℕ → M RuntimeResult
  act_on_absence i g x allow_resubmit block now = do
    void_permits e i.intent_id
    (_, consumed) ← count_permits e i.intent_id
    if ltb 0 consumed
        then stop_execution_state e i.intent_id (Reasons.settlement_none_after_permit_consumed ∷ [])
            none false true
        else if not allow_resubmit
        then block_resubmission i.intent_id (blocked_state (or_blocked block)) (or_blocked block)
        else resubmit i g x now

  unfoldable pub absent :
      IntentRow
      → Intent
      → CapabilityGrant
      → Option Credentials
      → Bool
      → Option ℕ
      → ℕ
      → M RuntimeResult
  unfolding act_on_absence
  absent stored i g x allow_resubmit block now =
      if is_window_open stored.ambiguity_until g now
      then wait_for_window i.intent_id block
      else act_on_absence i g x allow_resubmit block now
