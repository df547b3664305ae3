-- ===== src/Runtime/Submission.antt =====
-- FAARRuntime._submit: the checks at the last moment, the attempt, the permit and the adapter.
use faar_runtime.Common.{
  ℕ, Bool, true, false, not, ◌&&◌, Option, none, some, List, [], ◌∷◌, ◌++◌, ltb, leb, if◌then◌else◌,
}
use faar_runtime.Common.Result.{Result, ok, err}
use faar_runtime.Models.Enums.{reserved, submitted, unknown, reconciling, failed_safe}
use faar_runtime.Models.Grant.{CapabilityGrant, Intent, is_empty}
use faar_runtime.Models.Requests.{ExecutionRequest, SignedPermit, from_intent}
use faar_runtime.Gates.Capability.Scope.{mem_number, is_past}
use faar_runtime.Permits.Issue.{issue, is_active_control}
use faar_runtime.Store.Schema.{evidence_integrity}
use faar_runtime.Store.Lifecycle.{
  begin_submission, Change, Submission, started, not_expected, attempt_limit_reached,
  velocity_limit_reached,
}
use faar_runtime.Worker.Defs.{
  Env, Entry, Answer, M, Raised, store_error, permit_issuance_error, interrupt, pure, raise, ◌>>=◌,
  ◌>>◌, attempt, catch, call, observe, transport,
}
use faar_runtime.Worker.Judgement.{
  Credentials, Judgement, evaluate_fresh, dominant, is_allow, decision_codes,
}
use faar_runtime.Worker.Reasons
use faar_runtime.Worker.Reasons.{mem, grant_runtime}
use faar_runtime.Runtime.Calls.{
  RuntimeResult, because, releasing, change, log, get_grant_status, current_result,
}
use faar_runtime.Runtime.Stops.{stop_execution_state}

-- Reconciling again: whether a resubmission is allowed, and the reason that blocks it.
abbrev pub Retry : Type 0
Retry = Bool → Option ℕ → M RuntimeResult

-- UNKNOWN until the permit that the venue holds has expired
abbrev pub ambiguous_until : ℕ → ℕ → Change
ambiguous_until reason t = record (because (reason ∷ [])) { ambiguity_until = some t }

module _ (e : Env) (retry : Retry) where
  abbrev pub after : ℕ → SignedPermit → ℕ → Entry → M (Unit {0})
  after i p reason entry = do
    change e i submitted unknown (ambiguous_until reason p.permit.expires_at)
    log e i entry
    pure tt

  -- The evidence of a receipt that cannot be recorded is recorded without its data.
  abbrev pub on_receipt : ℕ → Raised → M ℕ
  on_receipt i (store_error evidence_integrity) = raise (store_error evidence_integrity)
  on_receipt i other = log e i Entry.adapter_receipt_untrusted

  abbrev pub received : ℕ → SignedPermit → M RuntimeResult
  received i p = do
    change e i submitted unknown
        (ambiguous_until Reasons.awaiting_independent_settlement p.permit.expires_at)
    catch (log e i Entry.adapter_receipt_untrusted) (on_receipt i)
    retry true none

  -- Whatever the adapter reports, the intent is UNKNOWN and is reconciled.
  abbrev pub answered : ℕ → SignedPermit → Answer → M RuntimeResult
  answered i p Answer.receipt = received i p
  answered i p Answer.ambiguous =
      after i p Reasons.execution_ambiguous Entry.execution_ambiguous >> retry true none
  answered i p Answer.deadline_exceeded =
      after i p Reasons.execution_deadline_exceeded Entry.execution_ambiguous >> retry true none
  answered i p Answer.deterministic_failure =
      after i p Reasons.execution_deterministic_failure_unverified Entry.adapter_rejection_untrusted
      >> retry false (some Reasons.execution_deterministic_failure)
  answered i p Answer.crashed =
      after i p Reasons.adapter_execution_exception Entry.adapter_execution_exception
      >> retry true none
  answered i p Answer.interrupted =
      after i p Reasons.adapter_execution_exception Entry.adapter_execution_exception
      >> raise interrupt

  unfoldable pub execute : ExecutionRequest → SignedPermit → M RuntimeResult
  execute q p = do
    log e q.intent_id Entry.submission_started
    answer ← transport e q p
    answered q.intent_id p answer

  abbrev pub fail_safe : ℕ → List ℕ → Entry → M RuntimeResult
  fail_safe i reasons entry = do
    change e i submitted failed_safe (releasing reasons)
    log e i entry
    current_result e i none reasons false

  -- An earlier permit may still be consumed: the reservation stays.
  abbrev pub previous_live : ℕ → List ℕ → M RuntimeResult
  previous_live i codes = do
    change e i submitted unknown (because (Reasons.execution_permit_rejected ∷ codes))
    log e i (Entry.execution_permit_rejected codes)
    retry true none

  abbrev pub refused : ℕ → List ℕ → M RuntimeResult
  refused i codes =
      if mem Reasons.permit_previous_attempt_live codes
      then previous_live i codes
      else fail_safe i (Reasons.execution_permit_rejected ∷ codes)
          (Entry.execution_permit_rejected codes)

  abbrev pub issued : ExecutionRequest → Result Raised SignedPermit → M RuntimeResult
  issued q (ok p) = execute q p
  issued q (err (permit_issuance_error codes)) = refused q.intent_id codes
  issued q (err _) =
      fail_safe q.intent_id (Reasons.execution_permit_exception ∷ [])
        Entry.execution_permit_exception

  abbrev pub stop_before : ℕ → ℕ → M RuntimeResult
  stop_before i reason = stop_execution_state e i (reason ∷ []) none true false

  abbrev pub begun : Intent → CapabilityGrant → Credentials → ℕ → Submission → M RuntimeResult
  begun i g x now (started n) =
      attempt (issue e (from_intent i) i g x now) >>= issued (from_intent i)
  begun i g x now (not_expected n) = retry true none
  begun i g x now (attempt_limit_reached n) =
      stop_before i.intent_id Reasons.max_submission_attempts_reached
  begun i g x now (velocity_limit_reached n) =
      stop_before i.intent_id Reasons.atomic_action_velocity_exceeded

  unfoldable pub begin : Intent → CapabilityGrant → Credentials → ℕ → M RuntimeResult
  unfolding execute mem
  begin i g x now =
      call e (λ s.
        begin_submission s i.intent_id (reserved ∷ reconciling ∷ [])
          g.limits.max_submission_attempts now)
      >>= begun i g x now

  unfoldable pub checked : Intent → CapabilityGrant → Credentials → ℕ → M RuntimeResult
  checked i g x now = do
    status ← get_grant_status e g
    if not (is_active_control status)
        then stop_before i.intent_id (grant_runtime status)
        else if ltb i.expires_at now
        then stop_before i.intent_id Reasons.intent_expired_before_submit
        else if is_past g.valid_until now
        then stop_before i.intent_id Reasons.grant_expired_before_submit
        else begin i g x now

  abbrev pub is_authorized : Judgement → Bool
  is_authorized j = is_empty j.trust_reasons && is_allow (dominant j)

  unfoldable pub submit : Intent → CapabilityGrant → Credentials → M RuntimeResult
  unfolding evaluate_fresh dominant decision_codes mem_number
  submit i g x = do
    orphans ← observe e.orphaned_adapter_calls
    now ← observe e.clock
    let j = evaluate_fresh e i g x now
    if not (mem_number i.venue e.adapters)
        then stop_before i.intent_id Reasons.adapter_not_configured
        else if leb e.max_orphaned_adapter_calls orphans
        then stop_before i.intent_id Reasons.adapter_orphan_limit_reached
        else if not (is_authorized j)
        then stop_execution_state e i.intent_id
            (Reasons.submit_reauthorization_failed ∷ (j.trust_reasons ++ decision_codes e j)) none
            true false
        else checked i g x now
