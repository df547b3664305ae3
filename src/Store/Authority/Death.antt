-- ===== src/Store/Authority/Death.antt =====
-- What makes a permit dead, and that a dead permit is never consumed.
use faar_runtime.Common.{
  ℕ, ◌<◌, ◌≡◌, ◌≢◌, sym, ◌∙◌, ap, true, Option, none, some, arith, some_inj, is_some, is_none,
}
use faar_runtime.Common.Result.{ok}
use faar_runtime.Table.{find}
use faar_runtime.Store.Schema.{GrantRow, PermitRow, Store}
use faar_runtime.Store.Access.{find_grant, is_active, is_revoked}
use faar_runtime.Store.Permits.{consume_execution_permit, Presented, consumed, at_permit, binds}
use faar_runtime.Store.Evidence.{Crypto}
use faar_runtime.Store.Progress.Rows.{Advances, PermitExtends}
use faar_runtime.Store.Steps.{Run, Run-Advances}
use faar_runtime.Store.Authority.Consumption.{IsAccepted, consumed-IsAccepted}

-- What a permit and its grant must not have become for the permit to be accepted.
pub data IsDead (s : Store) (i : ℕ) : Type 0 where
  spent :
      (p : PermitRow)
      → find (at_permit i) s.execution_permits ≡ some p
      → is_some p.consumed_at ≡ true
      → IsDead s i
  void :
      (p : PermitRow)
      → find (at_permit i) s.execution_permits ≡ some p
      → is_some p.voided_at ≡ true
      → IsDead s i
  fenced :
      (p : PermitRow) (row : GrantRow)
      → find (at_permit i) s.execution_permits ≡ some p
      → find_grant s p.grant_id p.grant_version ≡ some row
      → p.grant_epoch < row.runtime_epoch
      → IsDead s i
  revoked :
      (p : PermitRow) (row : GrantRow)
      → find (at_permit i) s.execution_permits ≡ some p
      → find_grant s p.grant_id p.grant_version ≡ some row
      → is_revoked row.runtime_status ≡ true
      → IsDead s i

pub same_grant :
    (t : Store) (p q : PermitRow) (row : GrantRow)
    → PermitExtends p q
    → find_grant t p.grant_id p.grant_version ≡ some row
    → find_grant t q.grant_id q.grant_version ≡ some row
same_grant t p q row e h = rw (e.grant, e.version) h

-- Death is final.
IsDead-Advances : {s t : Store} {i : ℕ} → Advances s t → IsDead s i → IsDead t i
IsDead-Advances {i = i} a (spent p found h) =
    let (q, again, e) = a.permits i p found in spent q again (e.stays_consumed h)
IsDead-Advances {i = i} a (void p found h) =
    let (q, again, e) = a.permits i p found in void q again (e.stays_voided h)
IsDead-Advances {t = t} {i = i} a (fenced p row found grant h) =
    let (q, again, e) = a.permits i p found in
    let (row', grant', k) = a.grants p.grant_id p.grant_version row grant in
    fenced q row' again (same_grant t p q row' e grant') (omega (arith, e.epoch, k.epoch))
IsDead-Advances {t = t} {i = i} a (revoked p row found grant h) =
    let (q, again, e) = a.permits i p found in
    let (row', grant', k) = a.grants p.grant_id p.grant_version row grant in
    revoked q row' again (same_grant t p q row' e grant') (k.stays_revoked h)

-- The permit that a caller presents is bound to the row of the ledger.
binds_parts :
    (q : Presented) (p : PermitRow)
    → binds q p ≡ true
    → (p.grant_id ≡ q.grant_id)
      × (p.grant_version ≡ q.grant_version)
      × (p.grant_epoch ≡ q.grant_epoch)
binds_parts q p h = ground arith

module _ (s : Store) (q : Presented) (ts : ℕ) (t : Store) where
  accepted_unique :
      (p x : PermitRow)
      → IsAccepted s q x
      → find (at_permit q.permit_id) s.execution_permits ≡ some p
      → x ≡ p
  accepted_unique p x a h = some_inj (sym a.recorded ∙ h)

  accepted_grant :
      (x : PermitRow) (row : GrantRow) (a : IsAccepted s q x)
      → find_grant s x.grant_id x.grant_version ≡ some row
      → a.row ≡ row
  accepted_grant x row a h =
      let (g, v, _) = binds_parts q x a.bound in some_inj (sym a.provisioned ∙ rw (← g, ← v) h)

  -- A dead permit is refused.
  dead-refused : IsDead s q.permit_id → consume_execution_permit s q ts ≢ ok (consumed, t)
  dead-refused (spent p found h) e =
      let (x, a) = consumed-IsAccepted s q ts t e in
      let same = accepted_unique p x a found in clash p.consumed_at h (rw same at a.unconsumed)
    where
      clash : (o : Option ℕ) → is_some o ≡ true → is_none o ≡ true → ⊥
      clash none h k = cc
      clash (some n) h k = cc
  dead-refused (void p found h) e =
      let (x, a) = consumed-IsAccepted s q ts t e in
      let same = accepted_unique p x a found in clash p.voided_at h (rw same at a.unvoided)
    where
      clash : (o : Option ℕ) → is_some o ≡ true → is_none o ≡ true → ⊥
      clash none h k = cc
      clash (some n) h k = cc
  dead-refused (fenced p row found grant h) e =
      let (x, a) = consumed-IsAccepted s q ts t e in
      let same = accepted_unique p x a found in
      let one = accepted_grant x row a (rw same grant) in
      let (_, _, bound) = binds_parts q x a.bound in
      omega (
        arith,
        a.granted.epoch,
        bound,
        ap (λ (y : PermitRow). y.grant_epoch) same,
        ap (λ (y : GrantRow). y.runtime_epoch) one,
      )
  dead-refused (revoked p row found grant h) e =
      let (x, a) = consumed-IsAccepted s q ts t e in
      let same = accepted_unique p x a found in
      let one = accepted_grant x row a (rw same grant) in
      not_both row (rw one at a.granted.active) h
    where
      not_both :
          (r : GrantRow)
          → is_active r.runtime_status ≡ true
          → is_revoked r.runtime_status ≡ true
          → ⊥
      not_both r h k = ground arith

-- A dead permit is refused in every later state.
pub dead_for_good :
    (c : Crypto) (s u w : Store) (q : Presented) (ts : ℕ)
    → IsDead s q.permit_id
    → Run c s u
    → consume_execution_permit u q ts ≢ ok (consumed, w)
dead_for_good c s u w q ts d r = dead-refused u q ts w (IsDead-Advances (Run-Advances c r) d)
