-- ===== src/Runtime/Tests/Permits.antt =====
-- A permit that is issued for a payment whose reservation is held.
use faar_runtime.Common.{ℕ, ◌*◌, ◌≡◌, refl, [], ◌∷◌}
use faar_runtime.Common.Result.{ok}
use faar_runtime.Models.Enums.{SettlementStatus}
use faar_runtime.Models.Requests.{from_intent, SignedPermit}
use faar_runtime.Store.Schema.{Store}
use faar_runtime.Worker.Defs.{Env, recorded}
use faar_runtime.Permits.Issue.{issue, new_permit}
use faar_runtime.Permits.Justified.{IsJustified, IsMinted, issue-IsJustified}
use faar_runtime.Runtime.Tests.Fixtures.{
  second, grant, payment, credentials, answer, quiet, empty_store, payment_reservation, world,
}
use faar_runtime.Worker.Defs.{◌>>=◌, attempt, call, catch, ◌>>◌}
use faar_runtime.Store.Grants.{verify_grant, get_grant_control}
use faar_runtime.Table.{find, max_of, exists, update}
use faar_runtime.Gates.Authority.{evaluate_authority}
use faar_runtime.Gates.Capability.{evaluate_capability}
use faar_runtime.Gates.Risk.{
  evaluate_risk, risk_reasons, risk_decimal_reason, limit_amount, negative, limit_number,
}
use faar_runtime.Store.Usage.{verify_usage_held, claim_permit_risk_state}
use faar_runtime.Store.Fences.{next_execution_fence}
use faar_runtime.Store.Access.{require_anchor, is_halted, anchor_regressed, anchor_record}
use faar_runtime.Store.Permits.{record_execution_permit}

abbrev surroundings : Env
surroundings = quiet (recorded (answer SettlementStatus.finalized))

abbrev held_store : Store
held_store = record empty_store {
  db = record empty_store.db { usage_reservations = payment_reservation ∷ [] };
}

abbrev now : ℕ
now = 100 * second

abbrev payment_permit : SignedPermit
payment_permit = new_permit surroundings (from_intent payment) payment grant credentials 1 2 now

is_issued :
    (issue surroundings (from_intent payment) payment grant credentials now (world held_store)).0
    ≡ ok payment_permit
unfolding issue ◌>>=◌ attempt call verify_grant find evaluate_authority evaluate_capability
    evaluate_risk risk_reasons risk_decimal_reason limit_amount negative limit_number
    verify_usage_held claim_permit_risk_state max_of next_execution_fence require_anchor is_halted
    exists anchor_regressed anchor_record get_grant_control update catch ◌>>◌
    record_execution_permit
is_issued = refl

issue-IsJustified_example :
    IsJustified surroundings (from_intent payment) payment grant credentials now
    × IsMinted surroundings (from_intent payment) payment grant credentials now payment_permit
issue-IsJustified_example =
    issue-IsJustified surroundings (from_intent payment) payment grant credentials now
      (world held_store) payment_permit is_issued
