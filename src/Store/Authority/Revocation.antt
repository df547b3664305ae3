-- ===== src/Store/Authority/Revocation.antt =====
-- A revoked grant version stays revoked and hands out no authority.
use faar_runtime.Common.{
  not-true, ℕ, ◌≡◌, ◌≢◌, sym, ◌∙◌, true, false, not, some, arith, some_inj, ◌==◌,
}
use faar_runtime.Common.Result.{ok}
use faar_runtime.Models.Grant.{CapabilityGrant}
use faar_runtime.Store.Schema.{GrantRow, Store, unknown_grant, grant_conflict}
use faar_runtime.Store.Access.{
  find_grant, is_active, is_revoked, is_halted, mark_of, require_anchor, anchor_regressed,
  anchor_record,
}
use faar_runtime.Store.Fences.{next_execution_fence}
use faar_runtime.Store.Permits.{consume_execution_permit, Presented, consumed}
use faar_runtime.Store.Evidence.{Crypto}
use faar_runtime.Store.Ensures.{
  Ensures, Ensures-ok, Ensures-bind, Ensures-require, Ensures-or_raise,
}
use faar_runtime.Store.Steps.{Run, Run-Advances}
use faar_runtime.Store.Authority.Consumption.{consumed-IsAccepted}

-- A fence is allocated only for an active grant whose scope is not halted.
pub record IsOpen (s : Store) (k : CapabilityGrant) : Type 0 where
  pub row : GrantRow
  pub provisioned : find_grant s k.grant_id k.version ≡ some row
  pub principal : (row.principal_id == k.principal_id) ≡ true
  pub active : is_active row.runtime_status ≡ true
  pub not_halted : is_halted s k.principal_id ≡ false

pub fenced-IsOpen :
    (s : Store) (k : CapabilityGrant) (r : ℕ × ℕ) (t : Store)
    → next_execution_fence s k ≡ ok (r, t)
    → IsOpen s k
unfolding next_execution_fence
fenced-IsOpen s k r t h = Ensures-ok (λ _ _. IsOpen s k) _ r t ensured h
  where
    ensured : Ensures (λ _ _. IsOpen s k) (next_execution_fence s k)
    ensured =
        Ensures-bind (λ _ _. IsOpen s k) (require_anchor s) _
          λ _ _.
            Ensures-or_raise (λ _ _. IsOpen s k) (find_grant s k.grant_id k.version) unknown_grant _
              λ row found.
                Ensures-require (λ _ _. IsOpen s k) (row.principal_id == k.principal_id)
                  grant_conflict _
                  λ mine.
                    Ensures-require (λ _ _. IsOpen s k) (is_active row.runtime_status)
                      grant_conflict _
                      λ active.
                        Ensures-require (λ _ _. IsOpen s k) (not (is_halted s k.principal_id))
                          grant_conflict _
                          λ free.
                            Ensures-bind (λ _ _. IsOpen s k)
                              (anchor_regressed s k.grant_id k.version (mark_of row)) _
                              λ is_behind _.
                                Ensures-require (λ _ _. IsOpen s k) (not is_behind) grant_conflict _
                                  λ _.
                                    Ensures-bind (λ _ _. IsOpen s k)
                                      (anchor_record s.anchor k.grant_id k.version _) _
                                      λ a _. record {
                                        row = row;
                                        provisioned = found;
                                        principal = mine;
                                        active = active;
                                        not_halted = not-true (is_halted s k.principal_id) free;
                                      }

not_both :
    (r : GrantRow) → is_active r.runtime_status ≡ true → is_revoked r.runtime_status ≡ true → ⊥
not_both r h k = ground arith

-- A revoked grant version is still revoked after any run; no fence is allocated for it and no
-- permit of it is consumed.
pub revoked_for_good :
    (c : Crypto) (s u w : Store) (k : CapabilityGrant) (row : GrantRow) (r : ℕ × ℕ) (q : Presented)
    (ts : ℕ)
    → find_grant s k.grant_id k.version ≡ some row
    → is_revoked row.runtime_status ≡ true
    → Run c s u
    → q.grant_id ≡ k.grant_id
    → q.grant_version ≡ k.version
    → ((later : GrantRow) × (find_grant u k.grant_id k.version ≡ some later)
        × (is_revoked later.runtime_status ≡ true))
      × (next_execution_fence u k ≢ ok (r, w))
      × (consume_execution_permit u q ts ≢ ok (consumed, w))
revoked_for_good c s u w k row r q ts found revoked run same_grant same_version =
    let (later, again, e) = (Run-Advances c run).grants k.grant_id k.version row found in
    let still = e.stays_revoked revoked in
    (
      (later, again, still),
      λ h.
          let open_ = fenced-IsOpen u k r w h in
          not_both later (rw (some_inj (sym open_.provisioned ∙ again)) at open_.active) still,
      λ h.
          let (p, a) = consumed-IsAccepted u q ts w h in
          let here : find_grant u q.grant_id q.grant_version ≡ some later =
            rw (same_grant, same_version) again in
          not_both later (rw (some_inj (sym a.provisioned ∙ here)) at a.granted.active) still,
    )
