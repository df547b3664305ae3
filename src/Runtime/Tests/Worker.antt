-- ===== src/Runtime/Tests/Worker.antt =====
-- A payment from its registration to its settlement: the whole of the runtime computes.
use faar_runtime.Common.{◌≡◌, refl, some, true, []}
use faar_runtime.Common.Result.{ok}
use faar_runtime.Models.Enums.{finalized, SettlementStatus}
use faar_runtime.Worker.Defs.{Verification, recorded}
use faar_runtime.Runtime.Processing.{process}
use faar_runtime.Runtime.Tests.Fixtures.{
  grant, payment, credentials, answer, quiet, empty_store, world,
}
use faar_runtime.Worker.Defs.{◌>>=◌, observe, call, catch, attempt, ◌>>◌, transport}
use faar_runtime.Store.Lifecycle.{
  register, is_terminal, begin_submission, transition, is_expected, is_allowed,
}
use faar_runtime.Table.{find, select, exists, max_of, sum, count, update}
use faar_runtime.Store.Evidence.{append_evidence, add_evidence}
use faar_runtime.Runtime.Stops.{handled, guarded}
use faar_runtime.Runtime.Calls.{
  assert_evidence_appendable, verify_provisioned, get_grant_status, get, current_result, log,
  change,
}
use faar_runtime.Store.Grants.{verify_grant, get_grant_control}
use faar_runtime.Store.Access.{
  is_anchor_missing, anchor_regressed, is_halted, anchor_record, require_anchor,
}
use faar_runtime.Gates.Authority.{evaluate_authority}
use faar_runtime.Store.Permits.{record_execution_permit}
use faar_runtime.Runtime.Reconciliation.{reconcile_again}
use faar_runtime.Runtime.Outcomes.{finalize}
use faar_runtime.Gates.Capability.{evaluate_capability}
use faar_runtime.Gates.Risk.{
  evaluate_risk, risk_reasons, risk_decimal_reason, limit_amount, negative, limit_number,
}
use faar_runtime.Store.Usage.{
  reserve_usage, reservation_amount, reserve_reasons, turnover, caps_regressed, cap_reasons,
  action_velocity_count, verify_usage_held, claim_permit_risk_state,
}
use faar_runtime.Runtime.Submission.{begin, submit, checked}
use faar_runtime.Permits.Issue.{issue}
use faar_runtime.Store.Fences.{next_execution_fence}

abbrev settled : Verification
settled = recorded (answer SettlementStatus.finalized)

is_done :
    (process (quiet settled) 3 payment grant credentials (world empty_store)).0
    ≡ ok (record {
      intent_id = 100;
      state = finalized;
      effect_id = some 31;
      reason_codes = [];
      replayed = true;
      submission_count = 1;
    })
unfolding process ◌>>=◌ observe call register find append_evidence select is_terminal handled catch
    guarded attempt ◌>>◌ assert_evidence_appendable exists verify_provisioned verify_grant
    get_grant_status get_grant_control is_anchor_missing anchor_regressed is_halted
    evaluate_authority anchor_record record_execution_permit transport reconcile_again get finalize
    current_result evaluate_capability evaluate_risk risk_reasons risk_decimal_reason limit_amount
    negative limit_number reserve_usage reservation_amount reserve_reasons max_of turnover sum
    caps_regressed cap_reasons action_velocity_count count begin begin_submission issue
    verify_usage_held claim_permit_risk_state next_execution_fence require_anchor transition
    is_expected is_allowed update log add_evidence submit checked change
is_done = refl
