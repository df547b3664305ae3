-- ===== src/Runtime/Reconciliation.antt =====
-- FAARRuntime.reconcile: the intent is moved to RECONCILING, the verifier is asked, and its answer
-- is judged. A resubmission reconciles again, so the calls are nested: fuel counts them.
use faar_runtime.Common.{
  ℕ, zero, suc, Bool, true, false, not, ◌&&◌, Option, none, some, List, [], ◌∷◌, ◌==◌, is_none,
  if◌then◌else◌,
}
use faar_runtime.Common.Result.{Result, ok, err}
use faar_runtime.Models.Enums.{
  IntentState, proposed, authorized, reserved, submitted, unknown, reconciling, confirmed,
}
use faar_runtime.Models.Grant.{CapabilityGrant, Intent}
use faar_runtime.Models.Requests.{from_intent}
use faar_runtime.Gates.Capability.Scope.{mem_number}
use faar_runtime.Store.Schema.{IntentRow, unknown_grant, grant_conflict, evidence_integrity}
use faar_runtime.Store.Lifecycle.{is_terminal}
use faar_runtime.Worker.Defs.{
  Env, Entry, Verification, recorded, raised, malformed, M, Raised, store_error, exhaust, pure,
  raise, ◌>>=◌, ◌>>◌, attempt, observe,
}
use faar_runtime.Worker.Judgement.{Credentials}
use faar_runtime.Worker.Reasons
use faar_runtime.Worker.Reasons.{is_blocking, any_blocking}
use faar_runtime.Runtime.Calls.{
  RuntimeResult, because, get, change, log, assert_evidence_appendable, verify_provisioned,
  stored_result, current_result,
}
use faar_runtime.Runtime.Stops.{stop_execution_state, handled, guarded}
use faar_runtime.Runtime.Submission.{Retry}
use faar_runtime.Runtime.Outcomes.{with_block}
use faar_runtime.Runtime.Judging.{stop_settled, judge}

-- _grant_bound
abbrev pub is_grant_bound : Intent → CapabilityGrant → Bool
is_grant_bound i g = g.grant_id == i.grant_id && g.version == i.grant_version

-- tuple(r for r in stored.reason_codes if r in _RESUBMIT_BLOCKING_REASONS)
unfoldable pub durable_block : List ℕ → List ℕ
durable_block [] = []
durable_block (r ∷ rs) = if is_blocking r then r ∷ durable_block rs else durable_block rs

abbrev pub never_submitted : IntentState → Bool
never_submitted proposed = true
never_submitted authorized = true
never_submitted reserved = true
never_submitted _ = false

-- The states that move to RECONCILING.
abbrev pub is_in_flight : IntentState → Bool
is_in_flight confirmed = true
is_in_flight reserved = true
is_in_flight submitted = true
is_in_flight unknown = true
is_in_flight _ = false

abbrev pub is_reconciling : IntentState → Bool
is_reconciling reconciling = true
is_reconciling _ = false

module _ (e : Env) (retry : Retry) where
  abbrev pub on_log : IntentRow → M RuntimeResult → Result Raised ℕ → M RuntimeResult
  on_log stored next (ok _) = next
  on_log stored next (err (store_error evidence_integrity)) = raise (store_error evidence_integrity)
  on_log stored next (err _) = stop_settled e retry stored Reasons.settlement_record_malformed

  abbrev pub failed_lookup : ℕ → List ℕ → M RuntimeResult
  failed_lookup i reasons = do
    change e i reconciling unknown (because reasons)
    log e i Entry.reconciliation_exception
    current_result e i none reasons true

  abbrev pub verified :
      IntentRow
      → Intent
      → CapabilityGrant
      → Option Credentials
      → Bool
      → Option ℕ
      → ℕ
      → Verification
      → M RuntimeResult
  verified stored i g x allow block now raised =
      failed_lookup i.intent_id (with_block Reasons.reconciliation_exception block)
  verified stored i g x allow block now malformed =
      stop_settled e retry stored Reasons.settlement_record_malformed
  verified stored i g x allow block now (recorded r) =
      attempt (log e i.intent_id Entry.reconciliation)
      >>= on_log stored (judge e retry stored i g x allow block now r)

  unfoldable pub look_up :
      IntentRow
      → Intent
      → CapabilityGrant
      → Option Credentials
      → Bool
      → Option ℕ
      → ℕ
      → M RuntimeResult
  unfolding judge
  look_up stored i g x allow block now =
      observe (λ n. e.verifier n (from_intent i)) >>= verified stored i g x allow block now

  -- The durable block travels with the row.
  unfoldable pub enter :
      IntentRow
      → Intent
      → CapabilityGrant
      → Option Credentials
      → Bool
      → Option ℕ
      → ℕ
      → M RuntimeResult
  unfolding look_up durable_block
  enter stored i g x allow block now =
      if is_in_flight stored.state
      then change e i.intent_id stored.state reconciling
          (because (durable_block stored.reason_codes))
        >> look_up stored i g x allow block now
      else if is_reconciling stored.state
      then look_up stored i g x allow block now
      else pure
          (stored_result stored (Reasons.reconcile_not_applicable_before_submission ∷ []) true)

  abbrev pub on_grant : IntentRow → M RuntimeResult → Result Raised (Unit {0}) → M RuntimeResult
  on_grant stored next (ok _) = next
  on_grant stored next (err (store_error unknown_grant)) =
      pure (stored_result stored (Reasons.grant_not_provisioned ∷ []) true)
  on_grant stored next (err (store_error grant_conflict)) =
      pure (stored_result stored (Reasons.grant_envelope_mismatch ∷ []) true)
  on_grant stored next (err other) = raise other

  abbrev pub with_grant :
      IntentRow
      → Intent
      → CapabilityGrant
      → Option Credentials
      → Bool
      → Option ℕ
      → ℕ
      → M RuntimeResult
  with_grant stored i g x allow block now =
      if not (is_grant_bound i g)
      then pure (stored_result stored (Reasons.grant_not_bound_to_intent ∷ []) true)
      else if not (mem_number i.venue e.adapters)
      then stop_execution_state e i.intent_id (Reasons.adapter_not_configured ∷ []) none
          (never_submitted stored.state) false
      else enter stored i g x allow block now

  abbrev pub read_row :
      Intent
      → CapabilityGrant
      → Option Credentials
      → Bool
      → Option ℕ
      → ℕ
      → IntentRow
      → M RuntimeResult
  read_row i g x allow block now stored =
      let is_durable = is_none block && any_blocking stored.reason_codes in
      let block' = if is_durable then some Reasons.execution_deterministic_failure else block in
      if is_terminal stored.state
      then pure (stored_result stored stored.reason_codes true)
      else assert_evidence_appendable e i.intent_id
        >> (attempt (verify_provisioned e g)
            >>= on_grant stored (with_grant stored i g x (allow && not is_durable) block' now))

  unfoldable pub reconcile_unlocked :
      Intent → CapabilityGrant → Option Credentials → Bool → Option ℕ → M RuntimeResult
  unfolding enter mem_number any_blocking
  reconcile_unlocked i g x allow block = do
    now ← observe e.clock
    stored ← get e i.intent_id
    read_row i g x allow block now stored

module _ (e : Env) where
  -- A call from within the guard of the intent.
  unfoldable pub reconcile_again : ℕ → Intent → CapabilityGrant → Option Credentials → Retry
  unfolding reconcile_unlocked exhaust
  reconcile_again zero i g x allow block = exhaust
  reconcile_again (suc fuel) i g x allow block =
      handled e i.intent_id (reconcile_unlocked e (reconcile_again fuel i g x) i g x allow block)

  unfoldable pub reconcile :
      ℕ → Intent → CapabilityGrant → Option Credentials → Bool → Option ℕ → M RuntimeResult
  unfolding reconcile_unlocked reconcile_again
  reconcile fuel i g x allow block =
      handled e i.intent_id
        (guarded e (reconcile_unlocked e (reconcile_again fuel i g x) i g x allow block))
