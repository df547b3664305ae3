-- ===== src/Store/Authority/Reported.antt =====
-- The status that get_grant_control reports is the one that the consumption of permits enforces.
use faar_runtime.Common.{
  ℕ, ◌≡◌, ◌↔◌, refl, sym, ◌∙◌, ap, Bool, true, false, some, ◌==◌, ==_iff, if◌then◌else◌,
}
use faar_runtime.Common.Result.{Result, ok, err, ok_inj, ◌>>◌, require}
use faar_runtime.Models.Enums.{GrantStatus, active, paused, revoked}
use faar_runtime.Store.Schema.{GrantRow, Store, StoreError, ControlStatus, runtime, grant_conflict}
use faar_runtime.Store.Access.{
  find_grant, is_active, mark_of, is_anchor_missing, anchor_regressed, is_halted,
}
use faar_runtime.Store.Grants.{get_grant_control, suspended}
use faar_runtime.Store.Permits.{Presented}
use faar_runtime.Store.Authority.Consumption.{IsGranted}

-- What is reported of a row, from the tests that are made of it.
abbrev reported :
    (mine missing halted : Bool)
    → Result StoreError Bool
    → GrantStatus
    → (epoch fence : ℕ) → Result StoreError (ControlStatus × ℕ × ℕ)
reported mine missing halted r status epoch fence =
    require mine grant_conflict
    >> (if missing then ok (ControlStatus.anchor_required, epoch, fence) else elim r [
      | ok true ↦ ok (ControlStatus.regressed, epoch, fence)
      | ok false ↦ ok (suspended status halted, epoch, fence)
      | err _ ↦ ok (ControlStatus.anchor_unavailable, epoch, fence)
    ])

control_row :
    (s : Store) (p g v : ℕ) (row : GrantRow)
    → find_grant s g v ≡ some row
    → get_grant_control s p g v
      ≡ reported
          (row.principal_id == p)
          (is_anchor_missing s)
          (is_halted s p)
          (anchor_regressed s g v (mark_of row))
          row.runtime_status
          row.runtime_epoch
          row.fence_counter
unfolding get_grant_control
control_row s p g v row found = rw found refl

reported_active :
    (mine missing halted : Bool) (r : Result StoreError Bool) (status : GrantStatus)
    (epoch fence e : ℕ)
    → reported mine missing halted r status epoch fence ≡ ok (runtime active, e, fence)
    → (mine ≡ true)
      × (is_active status ≡ true)
      × (epoch ≡ e)
      × (halted ≡ false)
      × (missing ≡ false)
      × (r ≡ ok false)
reported_active false missing halted r status epoch fence e h = cc
reported_active true true halted r status epoch fence e h = cc
reported_active true false halted (err x) status epoch fence e h = cc
reported_active true false halted (ok true) status epoch fence e h = cc
reported_active true false true (ok false) active epoch fence e h = cc
reported_active true false true (ok false) paused epoch fence e h = cc
reported_active true false true (ok false) revoked epoch fence e h = cc
reported_active true false false (ok false) paused epoch fence e h = cc
reported_active true false false (ok false) revoked epoch fence e h = cc
reported_active true false false (ok false) active epoch fence e h =
    (refl, refl, ap (λ x. x.1) (ok_inj h), refl, refl, refl)

granted_reported :
    (mine missing halted : Bool) (r : Result StoreError Bool) (status : GrantStatus)
    (epoch fence e : ℕ)
    → mine ≡ true
    → is_active status ≡ true
    → epoch ≡ e
    → halted ≡ false
    → missing ≡ false
    → r ≡ ok false
    → reported mine missing halted r status epoch fence ≡ ok (runtime active, e, fence)
granted_reported mine missing halted r active epoch fence e m a ep hl ms rr =
    rw (m, ms, rr, hl, ep) refl
granted_reported mine missing halted r paused epoch fence e m a ep hl ms rr = cc
granted_reported mine missing halted r revoked epoch fence e m a ep hl ms rr = cc

-- For a grant version that is provisioned, get_grant_control reports ACTIVE at the epoch of a permit
-- exactly when the grant satisfies all that the consumption of the permit asks of it: the reported
-- status folds in the principal, the lifecycle, the halts, the anchor and its marks in the same way.
pub active_iff-IsGranted :
    (s : Store) (q : Presented) (row : GrantRow)
    → find_grant s q.grant_id q.grant_version ≡ some row
    → IsGranted s q row ↔ (
        get_grant_control s q.principal_id q.grant_id q.grant_version
        ≡ ok (runtime active, q.grant_epoch, row.fence_counter))
active_iff-IsGranted s q row found = (
  λ g.
      control_row s q.principal_id q.grant_id q.grant_version row found
      ∙ granted_reported _ _ _ _ row.runtime_status row.runtime_epoch row.fence_counter
          q.grant_epoch ((==_iff row.principal_id q.principal_id).1 g.principal) g.active g.epoch
          g.not_halted g.anchor_present g.not_regressed,
  λ h.
      let (mine, is_on, epoch, free, present, mark) =
        reported_active _ _ _ _ row.runtime_status row.runtime_epoch row.fence_counter q.grant_epoch
          (sym (control_row s q.principal_id q.grant_id q.grant_version row found) ∙ h) in
      record {
        principal = (==_iff row.principal_id q.principal_id).0 mine;
        active = is_on;
        epoch = epoch;
        not_halted = free;
        anchor_present = present;
        not_regressed = mark;
      },
)
