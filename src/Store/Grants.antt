-- ===== src/Store/Grants.antt =====
-- provision_grant, verify_grant, get_grant_control, set_grant_status, next_execution_fence and
-- revoke_after_restore.
use faar_runtime.Common.{
  ℕ, ◌+◌, Bool, true, false, not, ◌&&◌, ◌||◌, Option, none, some, [], ◌∷◌, ◌++◌, ◌==◌,
  if◌then◌else◌,
}
use faar_runtime.Common.Result.{Result, ok, err, ◌>>=◌, ◌>>◌, require, or_raise}
use faar_runtime.Table.{update}
use faar_runtime.Anchor.{Mark, Anchor}
use faar_runtime.Models.Enums.{GrantStatus, active}
use faar_runtime.Models.Grant.{CapabilityGrant}
use faar_runtime.Store.Schema.{
  GrantRow, Store, ControlStatus, Report, done, behind, StoreError, unknown_grant, grant_conflict,
  authority_regression,
}
use faar_runtime.Store.Access.{
  Tx, at_grant, find_grant, is_active, is_revoked, same_status, mark_of, is_anchor_missing,
  require_anchor, anchor_regressed, anchor_record, is_halted,
}

-- UPDATE grants SET … WHERE grant_id=? AND version=?
abbrev pub update_grant : Store → ℕ → ℕ → (GrantRow → GrantRow) → Store
update_grant s g v f = record s { db = record s.db { grants = update (at_grant g v) f s.grants } }

abbrev pub new_grant_row : CapabilityGrant → ℕ → GrantRow
new_grant_row g h = record {
  grant_id = g.grant_id;
  version = g.version;
  principal_id = g.principal_id;
  grant_hash = h;
  runtime_status = g.status;
  runtime_epoch = 1;
  fence_counter = 0;
}

-- The version is new, or it is the same envelope again.
abbrev pub provision_row : Store → CapabilityGrant → ℕ → Option GrantRow → Tx (Unit {0})
provision_row s g grant_hash none = do
  a ← anchor_record s.anchor g.grant_id g.version (record { epoch = 1; fence = 0 })
  let rows = s.grants ++ new_grant_row g grant_hash ∷ []
  ok (tt, record s { db = record s.db { grants = rows }; anchor = a })
provision_row s g grant_hash (some row) =
    if not (row.grant_hash == grant_hash) || not (row.principal_id == g.principal_id)
    then err grant_conflict
    else ok (tt, s)

unfoldable pub provision_grant : Store → CapabilityGrant → ℕ → Tx (Unit {0})
provision_grant s g grant_hash =
    require_anchor s >> provision_row s g grant_hash (find_grant s g.grant_id g.version)

unfoldable pub verify_grant : Store → CapabilityGrant → ℕ → Result StoreError (Unit {0})
verify_grant s g grant_hash = do
  row ← or_raise (find_grant s g.grant_id g.version) unknown_grant
  require (row.grant_hash == grant_hash && row.principal_id == g.principal_id) grant_conflict

abbrev pub suspended : GrantStatus → Bool → ControlStatus
suspended active true = ControlStatus.halted
suspended status _ = ControlStatus.runtime status

unfoldable pub get_grant_control : Store → ℕ → ℕ → ℕ → Result StoreError (ControlStatus × ℕ × ℕ)
get_grant_control s principal_id g v = do
  row ← or_raise (find_grant s g v) unknown_grant
  require (row.principal_id == principal_id) grant_conflict
  let epoch = row.runtime_epoch
  let fence = row.fence_counter
  if is_anchor_missing s
      then ok (ControlStatus.anchor_required, epoch, fence)
      else elim (anchor_regressed s g v (mark_of row)) [
        | ok true ↦ ok (ControlStatus.regressed, epoch, fence)
        | ok false ↦ ok (suspended row.runtime_status (is_halted s principal_id), epoch, fence)
        | err _ ↦ ok (ControlStatus.anchor_unavailable, epoch, fence)
      ]

-- Whether the row is behind its anchor. Only ACTIVE needs an answer from the anchor.
abbrev pub behind_anchor : Store → ℕ → ℕ → GrantRow → GrantStatus → Result StoreError Bool
behind_anchor s g v row status = elim (anchor_regressed s g v (mark_of row)) [
  | ok b ↦ ok b
  | err e ↦ if is_active status then err e else ok false
]

-- The anchor after a lifecycle change: a stop does not wait for it.
abbrev pub anchor_stop : Result StoreError (Option Anchor) → Report (Option Anchor)
anchor_stop (ok a) = done a
anchor_stop (err e) = behind

abbrev pub finish : Store → Report (Option Anchor) → Report (Unit {0}) × Store
finish s (done a) = (done tt, record s { anchor = a })
finish s behind = (behind, s)

-- `current == status`: repeating a stop repairs an anchor that was left behind.
abbrev pub repeat_status : Store → ℕ → ℕ → GrantRow → GrantStatus → Tx (Report (Unit {0}))
repeat_status s g v row status =
    if is_active status
    then ok (done tt, s)
    else ok (finish s (anchor_stop (anchor_record s.anchor g v (mark_of row))))

-- A reactivation needs the anchor; a stop commits without it.
abbrev pub status_recorded :
    Store → GrantStatus → Result StoreError (Option Anchor) → Tx (Report (Unit {0}))
status_recorded t status (ok a) = ok (done tt, record t { anchor = a })
status_recorded t status (err e) = if is_active status then err e else ok (behind, t)

-- `current != status`: the epoch advances with the status.
abbrev pub change_status : Store → ℕ → ℕ → GrantRow → GrantStatus → Tx (Report (Unit {0}))
change_status s g v row status =
    let epoch = row.runtime_epoch + 1 in
    let mark : Mark = record { epoch = epoch; fence = row.fence_counter } in
    let t = update_grant s g v (λ r. record r { runtime_status = status; runtime_epoch = epoch }) in
    status_recorded t status (anchor_record s.anchor g v mark)

abbrev pub update_status : Store → ℕ → ℕ → GrantRow → GrantStatus → Tx (Report (Unit {0}))
update_status s g v row status =
    if same_status row.runtime_status status
    then repeat_status s g v row status
    else change_status s g v row status

unfoldable pub set_grant_status : Store → ℕ → ℕ → ℕ → GrantStatus → Tx (Report (Unit {0}))
unfolding anchor_record
set_grant_status s principal_id g v status = do
  require_anchor s
  row ← or_raise (find_grant s g v) unknown_grant
  require (row.principal_id == principal_id) grant_conflict
  is_behind ← behind_anchor s g v row status
  require (not is_behind) authority_regression
  require (not (is_revoked row.runtime_status && not (is_revoked status))) grant_conflict
  update_status s g v row status
