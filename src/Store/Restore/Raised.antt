-- ===== src/Store/Restore/Raised.antt =====
-- The operations that write to the anchor lower no mark of it.
use faar_runtime.Common.{ℕ, ◌+◌, ◌≡◌, refl, not, ◌&&◌, ◌||◌, Option, none, some, ◌==◌}
use faar_runtime.Common.Result.{Result, ok, err}
use faar_runtime.Anchor.{Mark, Anchor}
use faar_runtime.Models.Enums.{GrantStatus}
use faar_runtime.Models.Grant.{CapabilityGrant}
use faar_runtime.Store.Schema.{
  GrantRow, Store, StoreError, unknown_grant, grant_conflict, authority_regression,
}
use faar_runtime.Store.Access.{
  find_grant, is_active, is_revoked, same_status, mark_of, require_anchor, anchor_regressed,
  anchor_record, is_halted,
}
use faar_runtime.Store.Grants.{
  provision_grant, provision_row, set_grant_status, repeat_status, change_status, status_recorded,
  anchor_stop, finish, behind_anchor, update_grant,
}
use faar_runtime.Store.Fences.{next_execution_fence}
use faar_runtime.Store.Ensures.{
  Ensures, Ensures-bind, Ensures-require, Ensures-or_raise, Ensures-if,
}
use faar_runtime.Store.Restore.Marks.{NeverLowers, anchor_record-Reaches}

-- No mark of the anchor is lower afterwards.
abbrev pub Raises : Store → Store → Type 0
Raises s t = NeverLowers s.anchor t.anchor

pub same_marks : (a : Option Anchor) → NeverLowers a a
same_marks a k m r = r

pub provision_grant-Raises :
    (s : Store) (g : CapabilityGrant) (hash : ℕ)
    → Ensures (λ _. Raises s) (provision_grant s g hash)
unfolding provision_grant
provision_grant-Raises s g hash =
    Ensures-bind (λ _. Raises s) (require_anchor s) _
      λ _ _. provisioned (find_grant s g.grant_id g.version)
  where
    provisioned : (o : Option GrantRow) → Ensures (λ _. Raises s) (provision_row s g hash o)
    provisioned none =
        Ensures-bind (λ _. Raises s)
          (anchor_record s.anchor g.grant_id g.version (record { epoch = 1; fence = 0 })) _
          λ a e. anchor_record-Reaches s.anchor a g.grant_id g.version _ e
    provisioned (some row) =
        Ensures-if (λ _. Raises s)
          (not (row.grant_hash == hash) || not (row.principal_id == g.principal_id))
          (err grant_conflict) (ok (tt, s)) (λ _. tt) (λ _. same_marks s.anchor)

pub next_execution_fence-Raises :
    (s : Store) (g : CapabilityGrant) → Ensures (λ _. Raises s) (next_execution_fence s g)
unfolding next_execution_fence
next_execution_fence-Raises s g =
    Ensures-bind (λ _. Raises s) (require_anchor s) _
      λ _ _.
        Ensures-or_raise (λ _. Raises s) (find_grant s g.grant_id g.version) unknown_grant _
          λ row found.
            Ensures-require (λ _. Raises s) (row.principal_id == g.principal_id) grant_conflict _
              λ _.
                Ensures-require (λ _. Raises s) (is_active row.runtime_status) grant_conflict _
                  λ _.
                    Ensures-require (λ _. Raises s) (not (is_halted s g.principal_id))
                      grant_conflict _
                      λ _.
                        Ensures-bind (λ _. Raises s)
                          (anchor_regressed s g.grant_id g.version (mark_of row)) _
                          λ is_behind _.
                            Ensures-require (λ _. Raises s) (not is_behind) grant_conflict _
                              λ _.
                                Ensures-bind (λ _. Raises s)
                                  (anchor_record s.anchor g.grant_id g.version _) _
                                  λ a e. anchor_record-Reaches s.anchor a g.grant_id g.version _ e

repeat_status-Raises :
    (s : Store) (g v : ℕ) (row : GrantRow) (status : GrantStatus)
    → Ensures (λ _. Raises s) (repeat_status s g v row status)
repeat_status-Raises s g v row status =
    Ensures-if (λ _. Raises s) (is_active status) _ _ (λ _. same_marks s.anchor)
      λ _. finished (anchor_record s.anchor g v (mark_of row)) refl
  where
    finished :
        (r : Result StoreError (Option Anchor))
        → anchor_record s.anchor g v (mark_of row) ≡ r
        → Raises s (finish s (anchor_stop r)).1
    finished (ok a) e = anchor_record-Reaches s.anchor a g v (mark_of row) e
    finished (err x) e = same_marks s.anchor

change_status-Raises :
    (s : Store) (g v : ℕ) (row : GrantRow) (status : GrantStatus)
    → Ensures (λ _. Raises s) (change_status s g v row status)
change_status-Raises s g v row status = recorded (anchor_record s.anchor g v mark) refl
  where
    mark : Mark
    mark = record { epoch = row.runtime_epoch + 1; fence = row.fence_counter }

    t : Store
    t =
        update_grant s g v
          (λ r. record r { runtime_status = status; runtime_epoch = row.runtime_epoch + 1 })

    recorded :
        (r : Result StoreError (Option Anchor))
        → anchor_record s.anchor g v mark ≡ r
        → Ensures (λ _. Raises s) (status_recorded t status r)
    recorded (ok a) e = anchor_record-Reaches s.anchor a g v mark e
    recorded (err x) e =
        Ensures-if (λ _. Raises s) (is_active status) _ _ (λ _. tt) (λ _. same_marks s.anchor)

pub set_grant_status-Raises :
    (s : Store) (p g v : ℕ) (status : GrantStatus)
    → Ensures (λ _. Raises s) (set_grant_status s p g v status)
unfolding set_grant_status
set_grant_status-Raises s p g v status =
    Ensures-bind (λ _. Raises s) (require_anchor s) _
      λ _ _.
        Ensures-or_raise (λ _. Raises s) (find_grant s g v) unknown_grant _
          λ row found.
            Ensures-require (λ _. Raises s) (row.principal_id == p) grant_conflict _
              λ _.
                Ensures-bind (λ _. Raises s) (behind_anchor s g v row status) _
                  λ is_behind _.
                    Ensures-require (λ _. Raises s) (not is_behind) authority_regression _
                      λ _.
                        Ensures-require (λ _. Raises s)
                          (not (is_revoked row.runtime_status && not (is_revoked status)))
                          grant_conflict _
                          λ _.
                            Ensures-if (λ _. Raises s) (same_status row.runtime_status status) _ _
                              (λ _. repeat_status-Raises s g v row status)
                              (λ _. change_status-Raises s g v row status)
