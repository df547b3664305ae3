-- ===== src/Store/Permits.antt =====
-- The permit ledger: record_execution_permit, consume_execution_permit, void_unconsumed_permits
-- and permit_counts.
use faar_runtime.Common.{
  ℕ, ◌+◌, ◌*◌, Bool, true, false, not, ◌&&◌, ◌||◌, Option, none, some, List, [], ◌∷◌, ◌++◌, ltb,
  ◌==◌, is_some, is_none, if◌then◌else◌,
}
use faar_runtime.Common.Result.{ok, err, ◌>>=◌, ◌>>◌, require}
use faar_runtime.Table.{find, exists, update, count}
use faar_runtime.Models.Grant.{CapabilityGrant, Intent}
use faar_runtime.Store.Schema.{
  GrantRow, IntentRow, PermitRow, Store, permit_conflict, integrity_error,
}
use faar_runtime.Store.Access.{
  Tx, find_grant, is_active, mark_of, is_anchor_missing, anchor_regressed, anchor_record, is_halted,
}
use faar_runtime.Store.Grants.{update_grant}

abbrev second : ℕ
second = 1000000

-- consumed_at IS NULL AND voided_at IS NULL
abbrev pub is_pending : PermitRow → Bool
is_pending p = is_none p.consumed_at && is_none p.voided_at

-- expires_at IS NOT NULL AND expires_at + skew > now
abbrev pub is_open_at : ℕ → ℕ → PermitRow → Bool
is_open_at skew now p = elim p.expires_at [ none ↦ false | some e ↦ ltb now (e + skew) ]

-- _live_permits_locked: the unconsumed permits that a venue may still accept
abbrev pub is_live : ℕ → ℕ → ℕ → PermitRow → Bool
is_live intent_id skew now p = p.intent_id == intent_id && is_pending p && is_open_at skew now p

unfoldable pub has_live_permit : Store → ℕ → CapabilityGrant → ℕ → Bool
has_live_permit s intent_id g now =
    exists (is_live intent_id (g.limits.max_clock_skew_seconds * second) now) s.execution_permits

abbrev pub length {ℓ} : {A : Type ℓ} → List A → ℕ
length [] = 0
length (_ ∷ xs) = length xs + 1

abbrev pub new_permit : Store → ℕ → Intent → CapabilityGrant → ℕ → ℕ → ℕ → Option ℕ → PermitRow
new_permit s permit_id i g epoch fence hash expires_at = record {
  rowid = length s.execution_permits;
  permit_id = permit_id;
  intent_id = i.intent_id;
  principal_id = i.principal_id;
  grant_id = g.grant_id;
  grant_version = g.version;
  grant_epoch = epoch;
  fence_token = fence;
  permit_hash = hash;
  expires_at = expires_at;
  consumed_at = none;
  voided_at = none;
}

-- PRIMARY KEY(permit_id), UNIQUE(grant_id, grant_version, fence_token)
abbrev pub clashes : ℕ → ℕ → ℕ → ℕ → PermitRow → Bool
clashes permit_id g v fence p =
    p.permit_id == permit_id || (p.grant_id == g && p.grant_version == v && p.fence_token == fence)

-- UPDATE intents SET ambiguity_until=? WHERE intent_id=?
abbrev pub open_ambiguity : ℕ → Option ℕ → List IntentRow → List IntentRow
open_ambiguity i none rows = rows
open_ambiguity i (some e) rows =
    update (λ (r : IntentRow). r.intent_id == i) (λ r. record r { ambiguity_until = some e }) rows

-- `now` is None for callers that do not ask for the check of live permits.
abbrev pub live_conflict : Store → ℕ → CapabilityGrant → Option ℕ → Bool
live_conflict s intent_id g none = false
live_conflict s intent_id g (some now) = has_live_permit s intent_id g now

unfoldable pub record_execution_permit :
    Store → ℕ → Intent → CapabilityGrant → ℕ → ℕ → ℕ → Option ℕ → Option ℕ → Tx (Unit {0})
unfolding has_live_permit
record_execution_permit s permit_id i g epoch fence hash expires_at now = do
  require (not (live_conflict s i.intent_id g now)) permit_conflict
  require (not (exists (clashes permit_id g.grant_id g.version fence) s.execution_permits))
      integrity_error
  let row = new_permit s permit_id i g epoch fence hash expires_at
  let db = record s.db {
    execution_permits = s.execution_permits ++ row ∷ [];
    intents = open_ambiguity i.intent_id expires_at s.intents;
  }
  ok (tt, record s { db = db })

unfoldable pub void_unconsumed_permits : Store → ℕ → ℕ → ℕ × Store
void_unconsumed_permits s intent_id ts =
    let pending : (p : PermitRow) → Bool = λ p. p.intent_id == intent_id && is_pending p in
    let rows = update pending (λ p. record p { voided_at = some ts }) s.execution_permits in
    (count pending s.execution_permits, record s { db = record s.db { execution_permits = rows } })

-- (issued, consumed)
unfoldable pub permit_counts : Store → ℕ → ℕ × ℕ
permit_counts s intent_id = (
  count (λ (p : PermitRow). p.intent_id == intent_id) s.execution_permits,
  count (λ (p : PermitRow). p.intent_id == intent_id && is_some p.consumed_at) s.execution_permits,
)

pub data PermitReason : Type 0 where
  not_recorded ledger_binding_mismatch already_consumed voided superseded grant_control_unavailable
        grant_principal_mismatch grant_not_active grant_epoch_stale halted anchor_required
        authority_regressed anchor_unavailable :
      PermitReason

pub data Consumption : Type 0 where
  consumed : Consumption
  refused : List PermitReason → Consumption

-- The arguments of consume_execution_permit.
pub record Presented : Type 0 where
  pub permit_id : ℕ
  pub principal_id : ℕ
  pub grant_id : ℕ
  pub grant_version : ℕ
  pub grant_epoch : ℕ
  pub fence_token : ℕ
  pub permit_hash : ℕ

abbrev pub at_permit : ℕ → PermitRow → Bool
at_permit i p = p.permit_id == i

abbrev pub binds : Presented → PermitRow → Bool
binds q p =
    p.principal_id == q.principal_id
    && (p.grant_id == q.grant_id
        && (p.grant_version == q.grant_version
            && (p.grant_epoch == q.grant_epoch
                && (p.fence_token == q.fence_token && p.permit_hash == q.permit_hash))))

-- WHERE intent_id=? AND rowid > ?
abbrev pub supersedes : PermitRow → PermitRow → Bool
supersedes p r = r.intent_id == p.intent_id && ltb p.rowid r.rowid

abbrev pub reason_if : Bool → PermitReason → List PermitReason
reason_if true r = r ∷ []
reason_if false r = []

abbrev pub anchor_reasons : Store → Presented → GrantRow → List PermitReason
anchor_reasons s q row =
    if is_anchor_missing s
    then anchor_required ∷ []
    else elim (anchor_regressed s q.grant_id q.grant_version (mark_of row)) [
      | ok b ↦ reason_if b authority_regressed
      | err e ↦ anchor_unavailable ∷ []
    ]

-- Why the grant does not allow the permit now.
abbrev pub control_reasons : Store → Presented → GrantRow → List PermitReason
control_reasons s q row =
    reason_if (not (row.principal_id == q.principal_id)) grant_principal_mismatch
    ++ (reason_if (not (is_active row.runtime_status)) grant_not_active
        ++ (reason_if (not (row.runtime_epoch == q.grant_epoch)) grant_epoch_stale
            ++ (reason_if (is_halted s q.principal_id) halted ++ anchor_reasons s q row)))

-- UPDATE execution_permits, UPDATE grants, and the mark of the anchor, in one transaction
abbrev pub commit_consumption : Store → Presented → GrantRow → ℕ → Tx Consumption
commit_consumption s q row ts =
    let fence = row.fence_counter + 1 in
    let rows =
      update (λ p. at_permit q.permit_id p && is_none p.consumed_at)
        (λ p. record p { consumed_at = some ts }) s.execution_permits in
    let t =
      update_grant s q.grant_id q.grant_version
        (λ r. record r { fence_counter = r.fence_counter + 1 }) in
    anchor_record s.anchor q.grant_id q.grant_version
      (record { epoch = q.grant_epoch; fence = fence })
    >>= λ a. ok (consumed, record t { db = record t.db { execution_permits = rows }; anchor = a })

-- The grant's control state has the last word.
abbrev pub consume_controlled :
    Store → Presented → GrantRow → ℕ → List PermitReason → Tx Consumption
consume_controlled s q row ts [] = commit_consumption s q row ts
consume_controlled s q row ts (r ∷ rs) = ok (refused (r ∷ rs), s)

abbrev pub consume_granted : Store → Presented → ℕ → Option GrantRow → Tx Consumption
consume_granted s q ts none = ok (refused (grant_control_unavailable ∷ []), s)
consume_granted s q ts (some row) = consume_controlled s q row ts (control_reasons s q row)

abbrev pub consume_row : Store → Presented → PermitRow → ℕ → Tx Consumption
consume_row s q p ts =
    if not (binds q p)
    then ok (refused (ledger_binding_mismatch ∷ []), s)
    else if is_some p.consumed_at
    then ok (refused (already_consumed ∷ []), s)
    else if is_some p.voided_at
    then ok (refused (voided ∷ []), s)
    else if exists (supersedes p) s.execution_permits
    then ok (refused (superseded ∷ []), s)
    else consume_granted s q ts (find_grant s q.grant_id q.grant_version)

abbrev pub consume_found : Store → Presented → ℕ → Option PermitRow → Tx Consumption
consume_found s q ts none = ok (refused (not_recorded ∷ []), s)
consume_found s q ts (some p) = consume_row s q p ts

-- One transaction: the linearisation point of execution authority.
unfoldable pub consume_execution_permit : Store → Presented → ℕ → Tx Consumption
consume_execution_permit s q ts =
    consume_found s q ts (find (at_permit q.permit_id) s.execution_permits)
