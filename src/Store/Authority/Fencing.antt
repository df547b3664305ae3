-- ===== src/Store/Authority/Fencing.antt =====
-- A permit is used once, and never after it was voided, fenced or its grant revoked.
use faar_runtime.Common.{
  ℕ, ◌+◌, ◌≤◌, ◌≡◌, ◌≢◌, refl, sym, ◌∙◌, ap, subst, Bool, true, false, not, ◌&&◌, Option, none,
  some, arith, some_inj, is_some, Option-cases, inl, inr, ◌==◌,
}
use faar_runtime.Common.Result.{Result, ok, err}
use faar_runtime.Table.{find, update}
use faar_runtime.Table.Find.{find-update_hit, find_holds}
use faar_runtime.Store.Schema.{
  GrantRow, PermitRow, ControlScope, Store, Report, StoreError, unknown_grant, grant_conflict,
  authority_regression, value_error, unknown_principal,
}
use faar_runtime.Store.Access.{
  at_grant, find_grant, is_active, is_revoked, same_status, require_anchor, anchor_record, mark_of,
}
use faar_runtime.Anchor.{Anchor}
use faar_runtime.Models.Enums.{GrantStatus}
use faar_runtime.Store.Grants.{
  set_grant_status, update_grant, update_status, status_recorded, behind_anchor,
}
use faar_runtime.Store.Ensures.{
  Ensures, Ensures-ok, Ensures-bind, Ensures-require, Ensures-or_raise, Ensures-if,
}
use faar_runtime.Store.Progress.Controls.{halt-Advances}
use faar_runtime.Store.Progress.Grants.{set_grant_status-Advances}
use faar_runtime.Store.Progress.Permits.{void_unconsumed_permits-Advances}
use faar_runtime.Store.Controls.{halt, in_scope, bump_epoch, is_unprovisioned}
use faar_runtime.Store.Permits.{
  consume_execution_permit, void_unconsumed_permits, is_pending, Presented, consumed, at_permit,
}
use faar_runtime.Store.Evidence.{Crypto}
use faar_runtime.Store.Progress.Rows.{Advances}
use faar_runtime.Store.Steps.{Run}
use faar_runtime.Store.Authority.Consumption.{consumed_row}
use faar_runtime.Store.Authority.Death.{spent, void, fenced, same_grant, dead_for_good}

-- A permit that was consumed once is not consumed again, in whatever state and by whomever it is
-- presented after any number of operations.
pub single_use :
    (c : Crypto) (s t u w : Store) (q q' : Presented) (ts ts' : ℕ)
    → consume_execution_permit s q ts ≡ ok (consumed, t)
    → Run c t u
    → q'.permit_id ≡ q.permit_id
    → consume_execution_permit u q' ts' ≢ ok (consumed, w)
single_use c s t u w q q' ts ts' used r same =
    let (p, found, stamp) = consumed_row s q ts t used in
    dead_for_good c t u w q' ts' (spent p (rw same found) (ap (λ (o : Option ℕ). is_some o) stamp))
      r

-- After void_unconsumed_permits no permit of the intent that was not consumed before is ever
-- consumed, whatever runs in between and whatever the venue's clock says.
pub void_kills :
    (c : Crypto) (s u w : Store) (q : Presented) (i ts ts' : ℕ) (p : PermitRow)
    → find (at_permit q.permit_id) s.execution_permits ≡ some p
    → p.intent_id ≡ i
    → p.consumed_at ≡ none
    → Run c (void_unconsumed_permits s i ts).1 u
    → consume_execution_permit u q ts' ≢ ok (consumed, w)
unfolding void_unconsumed_permits
void_kills c s u w q i ts ts' p found mine fresh r = elim (Option-cases p.voided_at) [
  | inl pending ↦
      dead_for_good c _ u w q ts'
        (void (record p { voided_at = some ts })
          (find-update_hit (at_permit q.permit_id) (λ x. x.intent_id == i && is_pending x)
            (λ x. record x { voided_at = some ts }) s.execution_permits (λ _. refl) found
            (is_hit p mine fresh pending))
          refl)
        r
  | inr (n, old) ↦
      let (x, again, e) = (void_unconsumed_permits-Advances s i ts).permits q.permit_id p found in
      dead_for_good c _ u w q ts'
        (void x again (e.stays_voided (ap (λ (o : Option ℕ). is_some o) old))) r
]
  where
    is_hit :
        (p : PermitRow)
        → p.intent_id ≡ i
        → p.consumed_at ≡ none
        → p.voided_at ≡ none
        → (p.intent_id == i && is_pending p) ≡ true
    is_hit p a b d = ground arith

-- The grants after a halt.
halted_grants :
    (s : Store) (scope : ControlScope) (reason : Option ℕ) (allow : Bool) (r : Report ℕ) (t : Store)
    → halt s scope reason allow ≡ ok (r, t)
    → t.grants ≡ update (in_scope scope) bump_epoch s.grants
unfolding halt
halted_grants s scope reason allow r t h = Ensures-ok P _ r t ensured h
  where
    P : Report ℕ → Store → Type 0
    P _ u = u.grants ≡ update (in_scope scope) bump_epoch s.grants

    ensured : Ensures P (halt s scope reason allow)
    ensured = Ensures-or_raise P reason value_error _ λ why _.
        Ensures-bind P (require_anchor s) _ λ _ _.
          Ensures-require P (not (is_unprovisioned s scope allow)) unknown_principal _ λ _. refl

-- A halt fences every permit that was issued before it in its scope: none is consumed later, also
-- after the scope is resumed. Its conditions are that the halt committed (with or without the
-- anchor) and that the permit's epoch is not beyond that of its grant.
pub halt_fences :
    (c : Crypto) (s t u w : Store) (scope : ControlScope) (reason : Option ℕ) (allow : Bool)
    (r : Report ℕ) (q : Presented) (ts : ℕ) (p : PermitRow) (row : GrantRow)
    → halt s scope reason allow ≡ ok (r, t)
    → find (at_permit q.permit_id) s.execution_permits ≡ some p
    → find_grant s p.grant_id p.grant_version ≡ some row
    → in_scope scope row ≡ true
    → p.grant_epoch ≤ row.runtime_epoch
    → Run c t u
    → consume_execution_permit u q ts ≢ ok (consumed, w)
halt_fences c s t u w scope reason allow r q ts p row halted found grant inside below run =
    let (x, again, e) =
      (Ensures-ok (λ _. Advances s) _ r t (halt-Advances s scope reason allow) halted).permits
        q.permit_id p found in
    dead_for_good c t u w q ts
      (fenced x (bump_epoch row) again
        (same_grant t p x (bump_epoch row) e (
          ap (find (at_grant p.grant_id p.grant_version))
            (halted_grants s scope reason allow r t halted)
          ∙ find-update_hit (at_grant p.grant_id p.grant_version) (in_scope scope) bump_epoch
              s.grants (λ _. refl) grant inside))
        (omega (arith, e.epoch)))
      run

-- The row of a grant after its status changed.
abbrev set_to : GrantRow → GrantStatus → GrantRow → GrantRow
set_to row status r = record r { runtime_status = status; runtime_epoch = row.runtime_epoch + 1 }

changed_status :
    (s : Store) (pr g v : ℕ) (status : GrantStatus) (r : Report (Unit {0})) (t : Store)
    (row : GrantRow)
    → set_grant_status s pr g v status ≡ ok (r, t)
    → find_grant s g v ≡ some row
    → same_status row.runtime_status status ≡ false
    → find_grant t g v ≡ some (set_to row status row)
unfolding set_grant_status
changed_status s pr g v status r t row h found differs = Ensures-ok P _ r t ensured h
  where
    P : Report (Unit {0}) → Store → Type 0
    P _ u = find_grant u g v ≡ some (set_to row status row)

    updated : find_grant (update_grant s g v (set_to row status)) g v ≡ some (set_to row status row)
    updated =
        find-update_hit (at_grant g v) (at_grant g v) (set_to row status) s.grants (λ _. refl) found
          (find_holds (at_grant g v) s.grants found)

    recorded :
        (o : Result StoreError (Option Anchor))
        → Ensures P (status_recorded (update_grant s g v (set_to row status)) status o)
    recorded (ok a) = updated
    recorded (err e) = Ensures-if P (is_active status) _ _ (λ _. tt) (λ _. updated)

    moved : (x : GrantRow) → row ≡ x → Ensures P (update_status s g v x status)
    moved x same =
        subst (λ (y : GrantRow). Ensures P (update_status s g v y status)) same
          (rw differs (recorded (anchor_record s.anchor g v (mark_of (set_to row status row)))))

    ensured : Ensures P (set_grant_status s pr g v status)
    ensured = Ensures-bind P (require_anchor s) _ λ _ _.
        Ensures-or_raise P (find_grant s g v) unknown_grant _ λ x again.
          Ensures-require P (x.principal_id == pr) grant_conflict _ λ _.
            Ensures-bind P (behind_anchor s g v x status) _ λ is_behind _.
              Ensures-require P (not is_behind) authority_regression _ λ _.
                Ensures-require P (not (is_revoked x.runtime_status && not (is_revoked status)))
                  grant_conflict _ λ _. moved x (some_inj (sym found ∙ again))

-- A pause, a revocation or a reactivation fences every permit that was issued before it under the
-- grant version: none is consumed later, also after the grant is active again. Its conditions are
-- that the status changed and that the permit's epoch is not beyond that of its grant.
pub status_change_fences :
    (c : Crypto) (s t u w : Store) (pr : ℕ) (status : GrantStatus) (r : Report (Unit {0}))
    (q : Presented) (ts : ℕ) (p : PermitRow) (row : GrantRow)
    → set_grant_status s pr p.grant_id p.grant_version status ≡ ok (r, t)
    → find (at_permit q.permit_id) s.execution_permits ≡ some p
    → find_grant s p.grant_id p.grant_version ≡ some row
    → same_status row.runtime_status status ≡ false
    → p.grant_epoch ≤ row.runtime_epoch
    → Run c t u
    → consume_execution_permit u q ts ≢ ok (consumed, w)
status_change_fences c s t u w pr status r q ts p row changed found grant differs below run =
    let (x, again, e) =
      (Ensures-ok (λ _. Advances s) _ r t
          (set_grant_status-Advances s pr p.grant_id p.grant_version status) changed).permits
        q.permit_id p found in
    let after =
      changed_status s pr p.grant_id p.grant_version status r t row changed grant differs in
    dead_for_good c t u w q ts
      (fenced x (set_to row status row) again (same_grant t p x (set_to row status row) e after)
        (omega (arith, e.epoch)))
      run
