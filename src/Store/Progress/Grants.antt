-- ===== src/Store/Progress/Grants.antt =====
-- The operations on grants develop their rows: provision_grant, set_grant_status,
-- next_execution_fence, revoke_after_restore and halt.
use mathlib.Core.Path.{ap₂}
use faar_runtime.Common.{
  ℕ, ◌==◌, ◌||◌, ◌+◌, ◌≡◌, refl, sym, ◌∙◌, subst, true, not, ◌&&◌, Option, none, some, List, [],
  ◌∷◌, ◌++◌, arith, some_inj, max,
}
use faar_runtime.Common.Result.{Result, ok, err}
use faar_runtime.Table.{update}
use faar_runtime.Table.Find.{find_holds}
use faar_runtime.Table.Kept.{Kept, Kept-append, Kept-update}
use faar_runtime.Anchor.{Mark, Anchor, AnchorError}
use faar_runtime.Models.Enums.{GrantStatus, revoked}
use faar_runtime.Models.Grant.{CapabilityGrant}
use faar_runtime.Store.Schema.{
  GrantRow, Store, StoreError, Report, done, behind, unknown_grant, grant_conflict,
  authority_regression,
}
use faar_runtime.Store.Access.{
  at_grant, find_grant, is_active, is_revoked, same_status, mark_of, require_anchor,
  anchor_regressed, anchor_record, is_halted,
}
use faar_runtime.Store.Grants.{
  provision_grant, provision_row, new_grant_row, set_grant_status, repeat_status, change_status,
  status_recorded, anchor_stop, finish, behind_anchor, update_grant,
}
use faar_runtime.Store.Fences.{
  next_execution_fence, revoke_after_restore, closed, floor_mark, high_mark, reset_anchor,
  report_mark,
}
use faar_runtime.Store.Ensures.{
  Ensures, Ensures-bind, Ensures-require, Ensures-or_raise, Ensures-if,
}
use faar_runtime.Store.Progress.Rows.{GrantExtends, GrantExtends-refl, Advances, Advances-refl}

abbrev with_grants : Store → List GrantRow → Option Anchor → Store
with_grants s rows a = record s { db = record s.db { grants = rows }; anchor = a }

-- Only the grants and the anchor change.
grants_changed :
    (s : Store) (rows : List GrantRow) (a : Option Anchor)
    → ((g v : ℕ) → Kept (at_grant g v) GrantExtends s.grants rows)
    → Advances s (with_grants s rows a)
grants_changed s rows a kept = record {
  grants = kept;
  permits = (Advances-refl s).permits;
  intents = (Advances-refl s).intents;
  owners = (Advances-refl s).owners;
  ledger = (Advances-refl s).ledger;
  reservations = (Advances-refl s).reservations;
}

same_grant :
    (g v h w : ℕ) (x : GrantRow) → at_grant g v x ≡ true → at_grant h w x ≡ true → (g ≡ h) × (v ≡ w)
same_grant g v h w x a b = ground arith

module _ (s : Store) (g v : ℕ) (row : GrantRow) (found : find_grant s g v ≡ some row)
    (f : GrantRow → GrantRow) where
  -- The key is unique: the row that an UPDATE by key changes is the one that was read.
  pub found_again :
      (h w : ℕ) (x : GrantRow) → find_grant s h w ≡ some x → at_grant g v x ≡ true → row ≡ x
  found_again h w x hx hit =
      let (e, k) = same_grant g v h w x hit (find_holds (at_grant h w) s.grants hx) in
      some_inj (sym found ∙ ap₂ (find_grant s) e k ∙ hx)

  pub updated_grant :
      ((x : GrantRow) → (f x).grant_id ≡ x.grant_id)
      → ((x : GrantRow) → (f x).version ≡ x.version)
      → GrantExtends row (f row)
      → (a : Option Anchor) → Advances s (with_grants s (update (at_grant g v) f s.grants) a)
  updated_grant same_id same_version ext a =
      grants_changed s (update (at_grant g v) f s.grants) a λ h w.
        Kept-update GrantExtends GrantExtends-refl (at_grant h w) (at_grant g v) f s.grants
          (λ x. rw (same_id x, same_version x))
          (λ x hx hit. subst (λ y. GrantExtends y (f y)) (found_again h w x hx hit) ext)

pub provision_grant-Advances :
    (s : Store) (g : CapabilityGrant) (hash : ℕ)
    → Ensures (λ _ t. Advances s t) (provision_grant s g hash)
unfolding provision_grant
provision_grant-Advances s g hash =
    Ensures-bind (λ _. Advances s) (require_anchor s) _
      λ _ _. provisioned (find_grant s g.grant_id g.version)
  where
    provisioned : (o : Option GrantRow) → Ensures (λ _ t. Advances s t) (provision_row s g hash o)
    provisioned none =
        Ensures-bind (λ _. Advances s)
          (anchor_record s.anchor g.grant_id g.version (record { epoch = 1; fence = 0 })) _
          λ a _.
            grants_changed s (s.grants ++ new_grant_row g hash ∷ []) a
              λ h w. Kept-append GrantExtends GrantExtends-refl (at_grant h w) s.grants _
    provisioned (some row) =
        Ensures-if (λ _. Advances s)
          (not (row.grant_hash == hash) || not (row.principal_id == g.principal_id))
          (err grant_conflict) (ok (tt, s)) (λ _. tt) (λ _. Advances-refl s)

pub next_execution_fence-Advances :
    (s : Store) (g : CapabilityGrant) → Ensures (λ _ t. Advances s t) (next_execution_fence s g)
unfolding next_execution_fence
next_execution_fence-Advances s g =
    Ensures-bind (λ _. Advances s) (require_anchor s) _
      λ _ _.
        Ensures-or_raise (λ _. Advances s) (find_grant s g.grant_id g.version) unknown_grant _
          λ row found.
            Ensures-require (λ _. Advances s) (row.principal_id == g.principal_id) grant_conflict _
              λ _.
                Ensures-require (λ _. Advances s) (is_active row.runtime_status) grant_conflict _
                  λ _.
                    Ensures-require (λ _. Advances s) (not (is_halted s g.principal_id))
                      grant_conflict _
                      λ _.
                        Ensures-bind (λ _. Advances s)
                          (anchor_regressed s g.grant_id g.version (mark_of row)) _
                          λ is_behind _.
                            Ensures-require (λ _. Advances s) (not is_behind) grant_conflict _
                              λ _.
                                Ensures-bind (λ _. Advances s)
                                  (anchor_record s.anchor g.grant_id g.version _) _
                                  λ a _.
                                    updated_grant s g.grant_id g.version row found
                                      (λ r. record r { fence_counter = row.fence_counter + 1 })
                                      (λ _. refl) (λ _. refl) (ground arith) a

repeat_status-Advances :
    (s : Store) (g v : ℕ) (row : GrantRow) (status : GrantStatus)
    → Ensures (λ _ t. Advances s t) (repeat_status s g v row status)
repeat_status-Advances s g v row status =
    Ensures-if (λ _. Advances s) (is_active status) _ _ (λ _. Advances-refl s)
      λ _. finished (anchor_stop (anchor_record s.anchor g v (mark_of row)))
  where
    finished : (r : Report (Option Anchor)) → Advances s (finish s r).1
    finished (done a) = grants_changed s s.grants a (Advances-refl s).grants
    finished behind = Advances-refl s

-- A lifecycle change of a version that is not revoked, or that is revoked again.
lifecycle-Extends :
    (row : GrantRow) (status : GrantStatus)
    → (not (is_revoked row.runtime_status && not (is_revoked status))) ≡ true
    → GrantExtends row
        (record row { runtime_status = status; runtime_epoch = row.runtime_epoch + 1 })
lifecycle-Extends row status h = ground arith

change_status-Advances :
    (s : Store) (g v : ℕ) (row : GrantRow) (status : GrantStatus)
    → find_grant s g v ≡ some row
    → (not (is_revoked row.runtime_status && not (is_revoked status))) ≡ true
    → Ensures (λ _ t. Advances s t) (change_status s g v row status)
change_status-Advances s g v row status found fits = recorded (
    anchor_record s.anchor g v
      (record { epoch = row.runtime_epoch + 1; fence = row.fence_counter }))
  where
    moved : GrantRow → GrantRow
    moved r = record r { runtime_status = status; runtime_epoch = row.runtime_epoch + 1 }

    t : Store
    t = update_grant s g v moved

    advances : (a : Option Anchor) → Advances s (record t { anchor = a })
    advances =
        updated_grant s g v row found moved (λ _. refl) (λ _. refl)
          (lifecycle-Extends row status fits)

    recorded :
        (r : Result StoreError (Option Anchor))
        → Ensures (λ _ u. Advances s u) (status_recorded t status r)
    recorded (ok a) = advances a
    recorded (err e) =
        Ensures-if (λ _. Advances s) (is_active status) _ _ (λ _. tt) (λ _. advances s.anchor)

pub set_grant_status-Advances :
    (s : Store) (p g v : ℕ) (status : GrantStatus)
    → Ensures (λ _ t. Advances s t) (set_grant_status s p g v status)
unfolding set_grant_status
set_grant_status-Advances s p g v status =
    Ensures-bind (λ _. Advances s) (require_anchor s) _
      λ _ _.
        Ensures-or_raise (λ _. Advances s) (find_grant s g v) unknown_grant _
          λ row found.
            Ensures-require (λ _. Advances s) (row.principal_id == p) grant_conflict _
              λ _.
                Ensures-bind (λ _. Advances s) (behind_anchor s g v row status) _
                  λ is_behind _.
                    Ensures-require (λ _. Advances s) (not is_behind) authority_regression _
                      λ _.
                        Ensures-require (λ _. Advances s)
                          (not (is_revoked row.runtime_status && not (is_revoked status)))
                          grant_conflict _
                          λ fits.
                            Ensures-if (λ _. Advances s) (same_status row.runtime_status status) _ _
                              (λ _. repeat_status-Advances s g v row status)
                              (λ _. change_status-Advances s g v row status found fits)

closed-Extends :
    (row : GrantRow) (m : Mark)
    → GrantExtends row (record row {
      runtime_status = revoked;
      runtime_epoch = max row.runtime_epoch m.epoch + 1;
      fence_counter = max row.fence_counter m.fence;
    })
closed-Extends row m = ground arith

pub revoke_after_restore-Advances :
    (s : Store) (g v : ℕ) → Ensures (λ _ t. Advances s t) (revoke_after_restore s g v)
unfolding revoke_after_restore
revoke_after_restore-Advances s g v =
    Ensures-bind (λ _. Advances s) (require_anchor s) _
      λ _ _.
        Ensures-or_raise (λ _. Advances s) (find_grant s g v) unknown_grant _
          λ row found.
            reported row found (floor_mark (high_mark s.anchor g v)) _
              (reset_anchor s.anchor g v _ (high_mark s.anchor g v))
  where
    reported :
        (row : GrantRow)
        → find_grant s g v ≡ some row
        → (m mark : Mark) (r : Result AnchorError (Option Anchor))
        → Advances s (report_mark (update_grant s g v (closed row m)) mark r).1
    reported row found m mark (ok a) =
        updated_grant s g v row found (closed row m) (λ _. refl) (λ _. refl) (closed-Extends row m)
          a
    reported row found m mark (err e) =
        updated_grant s g v row found (closed row m) (λ _. refl) (λ _. refl) (closed-Extends row m)
          s.anchor
