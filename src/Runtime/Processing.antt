-- ===== src/Runtime/Processing.antt =====
-- FAARRuntime.process: an intent is registered, judged, reserved and submitted, or reconciled.
use faar_runtime.Common.{
  ℕ, Bool, true, false, not, ◌&&◌, ◌||◌, Option, none, some, List, [], ◌∷◌, ◌++◌, map,
  if◌then◌else◌,
}
use faar_runtime.Common.Result.{Result, ok, err}
use faar_runtime.Models.Enums.{
  IntentState, proposed, authorized, reserved, stopped, denied, deferred, Verdict,
}
use faar_runtime.Models.Grant.{CapabilityGrant, Intent, is_empty}
use faar_runtime.Gates.Capability.Scope.{mem_number}
use faar_runtime.Permits.Issue.{is_active_control}
use faar_runtime.Store.Schema.{IntentRow, unknown_grant, grant_conflict, ControlStatus}
use faar_runtime.Store.Usage.{reserve_usage, Admission, admitted, rejected}
use faar_runtime.Store.Lifecycle.{register, is_terminal}
use faar_runtime.Worker.Defs.{
  Env, Entry, M, Raised, store_error, pure, raise, ◌>>=◌, ◌>>◌, attempt, call, observe,
}
use faar_runtime.Worker.Judgement.{Credentials, Judgement, evaluate_fresh, dominant, decision_codes}
use faar_runtime.Worker.Reasons
use faar_runtime.Worker.Reasons.{grant_runtime, any_blocking}
use faar_runtime.Runtime.Calls.{
  RuntimeResult, because, releasing, change, log, assert_evidence_appendable, verify_provisioned,
  get_grant_status, stored_result, current_result,
}
use faar_runtime.Runtime.Stops.{
  is_proposed, stop_if_possible, release_orphaned_hold, handled, guarded,
}
use faar_runtime.Runtime.Submission.{submit, is_authorized}
use faar_runtime.Runtime.Reconciliation.{is_grant_bound, reconcile_again}

abbrev pub is_authorized_state : IntentState → Bool
is_authorized_state authorized = true
is_authorized_state _ = false

-- {DENY: DENIED, DEFER: DEFERRED, STOP: STOPPED}[verdict]
abbrev pub target_state : Verdict → IntentState
target_state Verdict.deny = denied
target_state Verdict.defer = deferred
target_state _ = stopped

module _ (e : Env) (fuel : ℕ) (i : Intent) (g : CapabilityGrant) (x : Credentials) where
  abbrev pub again : Bool → Option ℕ → M RuntimeResult
  again = reconcile_again e fuel i g (some x)

  unfoldable pub register_intent : M IntentRow
  register_intent w =
      call e (λ s. register e.crypto s i (e.hashes.intent i) (e.content w.calls Entry.registered)) w

  -- A stop before any submission, with its evidence.
  unfoldable pub end : IntentState → IntentState → List ℕ → Entry → M RuntimeResult
  end from_ to_ reasons entry = do
    change e i.intent_id from_ to_ (releasing reasons)
    log e i.intent_id entry
    current_result e i.intent_id none reasons false

  abbrev pub submit_recorded : Entry → M RuntimeResult
  submit_recorded entry = log e i.intent_id entry >> submit e again i g x

  abbrev pub submit_or_reconcile : Entry → Bool → M RuntimeResult
  submit_or_reconcile entry reached = if reached then submit_recorded entry else again true none

  -- An authorization that was interrupted is judged again.
  unfoldable pub recover : ℕ → M RuntimeResult
  unfolding evaluate_fresh dominant decision_codes
  recover now =
      let j = evaluate_fresh e i g x now in
      let reasons = j.trust_reasons ++ decision_codes e j in
      if not (is_authorized e again j)
      then end authorized stopped reasons (Entry.authorization_decision reasons)
      else change e i.intent_id authorized reserved (because [])
        >>= submit_or_reconcile Entry.authorization_recovered

  abbrev pub reserve_authorized : Bool → M RuntimeResult
  reserve_authorized reached =
      if reached
      then change e i.intent_id authorized reserved (because [])
        >>= submit_or_reconcile Entry.authorized
      else again true none

  abbrev pub on_admission : Admission → M RuntimeResult
  on_admission admitted =
      change e i.intent_id proposed authorized (because []) >>= reserve_authorized
  on_admission (rejected rs) =
      let reasons = map e.texts.usage rs in
      change e i.intent_id proposed deferred (because reasons)
      >> (log e i.intent_id (Entry.usage_reservation_denied reasons)
          >> current_result e i.intent_id none reasons false)

  unfoldable pub admit : ℕ → M RuntimeResult
  admit now = call e (λ s. reserve_usage s i g x.risk now) >>= on_admission

  abbrev pub by_verdict : ℕ → Judgement → Verdict → M RuntimeResult
  by_verdict now j Verdict.allow =
      if not (mem_number i.venue e.adapters)
      then end proposed stopped (Reasons.adapter_not_configured ∷ [])
          (Entry.execution_stopped (Reasons.adapter_not_configured ∷ []))
      else admit now
  by_verdict now j v =
      end proposed (target_state v) (decision_codes e j)
        (Entry.authorization_decision (decision_codes e j))

  unfoldable pub decide : ℕ → M RuntimeResult
  unfolding evaluate_fresh dominant decision_codes admit mem_number
  decide now =
      let j = evaluate_fresh e i g x now in
      if not (is_empty j.trust_reasons)
      then end proposed stopped j.trust_reasons (Entry.attestation_rejected j.trust_reasons)
      else by_verdict now j (dominant j)

  abbrev pub blocking : IntentRow → ℕ → ℕ
  blocking existing reason =
      if any_blocking existing.reason_codes then Reasons.execution_deterministic_failure else reason

  -- The grant is not active: what was not submitted is stopped, and the rest is reconciled.
  unfoldable pub inactive : IntentRow → ControlStatus → M RuntimeResult
  unfolding any_blocking
  inactive existing status =
      if is_proposed existing.state || is_authorized_state existing.state
      then end existing.state stopped (grant_runtime status ∷ []) Entry.grant_runtime_inactive
      else again false (some (blocking existing (grant_runtime status)))

  abbrev pub in_flight : IntentRow → M RuntimeResult
  in_flight existing =
      if any_blocking existing.reason_codes
      then again false (some Reasons.execution_deterministic_failure)
      else again true none

  abbrev pub by_state : ℕ → IntentRow → M RuntimeResult
  by_state now existing =
      if is_authorized_state existing.state
      then recover now
      else if is_proposed existing.state
      then decide now
      else in_flight existing

  unfoldable pub with_status : ℕ → IntentRow → M RuntimeResult
  unfolding recover decide inactive any_blocking
  with_status now existing = do
    status ← get_grant_status e g
    if is_active_control status then by_state now existing else inactive existing status

  abbrev pub provisioned : ℕ → IntentRow → M RuntimeResult
  provisioned now existing =
      if not (is_terminal existing.state)
        && (not (is_proposed existing.state) && not (is_grant_bound i g))
      then pure (stored_result existing (Reasons.grant_not_bound_to_intent ∷ []) true)
      else if is_terminal existing.state
      then pure (stored_result existing existing.reason_codes true)
      else with_status now existing

  abbrev pub on_grant : ℕ → IntentRow → Result Raised (Unit {0}) → M RuntimeResult
  on_grant now existing (ok _) = provisioned now existing
  on_grant now existing (err (store_error unknown_grant)) =
      stop_if_possible e existing (Reasons.grant_not_provisioned ∷ [])
  on_grant now existing (err (store_error grant_conflict)) =
      stop_if_possible e existing (Reasons.grant_envelope_mismatch ∷ [])
  on_grant now existing (err other) = raise other

  -- _process_unlocked
  unfoldable pub process_unlocked : ℕ → M RuntimeResult
  unfolding register_intent with_status
  process_unlocked now = do
    existing ← register_intent
    (if is_terminal existing.state then pure tt else assert_evidence_appendable e i.intent_id)
    granted ← attempt (verify_provisioned e g)
    on_grant now existing granted

  abbrev pub finished : IntentRow → M RuntimeResult
  finished stored =
      release_orphaned_hold e stored >> pure (stored_result stored stored.reason_codes true)

  -- The payload is bound before the lease is waited for.
  unfoldable pub process : M RuntimeResult
  unfolding register_intent process_unlocked
  process = do
    now ← observe e.clock
    stored ← register_intent
    if is_terminal stored.state
        then finished stored
        else handled e i.intent_id (guarded e (process_unlocked now))
