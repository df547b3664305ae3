-- ===== src/Runtime/Judging.antt =====
-- FAARRuntime.reconcile: how the record of a settlement is judged.
use faar_runtime.Common.{
  ℕ, Bool, true, false, not, ◌&&◌, Option, none, some, [], ◌∷◌, ◌==◌, if◌then◌else◌,
}
use faar_runtime.Models.Enums.{SettlementStatus}
use faar_runtime.Models.Grant.{CapabilityGrant, Intent}
use faar_runtime.Models.Requests.{from_intent}
use faar_runtime.Settlement.Quorum.{SettlementRecord}
use faar_runtime.Store.Schema.{IntentRow}
use faar_runtime.Worker.Defs.{Env, M}
use faar_runtime.Worker.Judgement.{Credentials}
use faar_runtime.Worker.Reasons
use faar_runtime.Worker.Reasons.{is_blocking, any_blocking}
use faar_runtime.Runtime.Calls.{RuntimeResult}
use faar_runtime.Runtime.Stops.{stop_execution_state}
use faar_runtime.Runtime.Integrity.{
  effect_integrity_reason, amount_integrity_reason, is_fill_regressed,
}
use faar_runtime.Runtime.Submission.{Retry}
use faar_runtime.Runtime.Outcomes.{with_block, undecided, finalize, confirm, keep_open, cancelled}
use faar_runtime.Runtime.Absence.{absent}

-- An observation without authority that is acted on in neither direction.
abbrev pub is_weak : SettlementStatus → Bool
is_weak SettlementStatus.unknown = false
is_weak SettlementStatus.contradictory = false
is_weak _ = true

abbrev pub weak_reason : SettlementStatus → ℕ
weak_reason SettlementStatus.none = Reasons.settlement_none_not_authoritative
weak_reason SettlementStatus.cancelled = Reasons.settlement_cancel_not_authoritative
weak_reason _ = Reasons.settlement_positive_not_authoritative

abbrev pub is_bound_to : Option ℕ → ℕ → Bool
is_bound_to none h = false
is_bound_to (some x) h = x == h

abbrev pub is_well_formed : Env → Option ℕ → Bool
is_well_formed e none = true
is_well_formed e (some x) = e.is_effect_id x

module _ (e : Env) (retry : Retry) where
  -- The settlement's status, when its record has passed the checks.
  abbrev pub by_status :
      IntentRow
      → Intent
      → CapabilityGrant
      → Option Credentials
      → Bool
      → Option ℕ
      → ℕ
      → SettlementRecord
      → SettlementStatus
      → M RuntimeResult
  by_status stored i g x allow block now r SettlementStatus.finalized = finalize e i.intent_id r
  by_status stored i g x allow block now r SettlementStatus.confirmed = confirm e i.intent_id r
  by_status stored i g x allow block now r SettlementStatus.partially_filled =
      keep_open e i.intent_id r
  by_status stored i g x allow block now r SettlementStatus.cancelled = cancelled e stored r
  by_status stored i g x allow block now r SettlementStatus.contradictory =
      stop_execution_state e i.intent_id (with_block Reasons.settlement_contradictory block)
        stored.effect_id false true
  by_status stored i g x allow block now r SettlementStatus.unknown =
      undecided e i.intent_id (with_block Reasons.settlement_unknown block)
  by_status stored i g x allow block now r SettlementStatus.none =
      absent e retry stored i g x allow block now

  abbrev pub stop_settled : IntentRow → ℕ → M RuntimeResult
  stop_settled stored reason =
      stop_execution_state e stored.intent_id (reason ∷ []) stored.effect_id false true

  abbrev pub effect_reason : IntentRow → SettlementRecord → Option ℕ
  effect_reason stored r =
      if r.authoritative
      then effect_integrity_reason stored.effect_id r.status r.effect_id
      else none

  abbrev pub stop_or : IntentRow → Option ℕ → M RuntimeResult → M RuntimeResult
  stop_or stored none next = next
  stop_or stored (some reason) next = stop_settled stored reason

  unfoldable pub judge :
      IntentRow
      → Intent
      → CapabilityGrant
      → Option Credentials
      → Bool
      → Option ℕ
      → ℕ
      → SettlementRecord
      → M RuntimeResult
  unfolding effect_integrity_reason amount_integrity_reason is_fill_regressed
  judge stored i g x allow block now r =
      if not r.authoritative && is_weak r.status
      then undecided e i.intent_id (with_block (weak_reason r.status) block)
      else if r.authoritative
          && not (is_bound_to r.verified_request_hash (e.hashes.request (from_intent i)))
      then stop_settled stored Reasons.settlement_request_binding_mismatch
      else if r.authoritative && not (is_well_formed e r.effect_id)
      then stop_settled stored Reasons.settled_effect_id_invalid
      else stop_or stored (effect_reason stored r) (
          stop_or stored (amount_integrity_reason i r.status r.amount_usd) (
            if is_fill_regressed stored.filled_amount_usd r
            then stop_settled stored Reasons.settlement_fill_regressed
            else by_status stored i g x allow block now r r.status))
