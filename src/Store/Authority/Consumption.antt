-- ===== src/Store/Authority/Consumption.antt =====
-- When consume_execution_permit accepts a permit, and what it writes then.
use faar_runtime.Common.{
  not-false, ℕ, ◌+◌, ◌≡◌, refl, ap, ◌∙◌, Bool, true, false, not, ◌&&◌, Option, none, some, List, [],
  ◌∷◌, arith, is_some, is_none, ◌==◌, ==_iff, ◌++◌, if◌then◌else◌,
}
use faar_runtime.Common.Result.{ok}
use faar_runtime.Table.{find, exists, update}
use faar_runtime.Table.Find.{find-update_hit, find_holds}
use faar_runtime.Store.Ensures.{Ensures, Ensures-bind, Ensures-if, Ensures-ok}
use faar_runtime.Store.Schema.{GrantRow, PermitRow, Store}
use faar_runtime.Store.Access.{
  Tx, at_grant, find_grant, is_active, mark_of, is_anchor_missing, is_halted, anchor_regressed,
  anchor_record,
}
use faar_runtime.Store.Permits.{
  consume_execution_permit, Presented, PermitReason, Consumption, consumed, refused, at_permit,
  binds, supersedes, reason_if, anchor_reasons, control_reasons, commit_consumption,
  consume_controlled, consume_granted, consume_row, consume_found, ledger_binding_mismatch,
  already_consumed, voided, superseded,
}

-- The grant as the transaction saw it.
pub record IsGranted (s : Store) (q : Presented) (row : GrantRow) : Type 0 where
  pub principal : row.principal_id ≡ q.principal_id
  pub active : is_active row.runtime_status ≡ true
  pub epoch : row.runtime_epoch ≡ q.grant_epoch
  pub not_halted : is_halted s q.principal_id ≡ false
  pub anchor_present : is_anchor_missing s ≡ false
  pub not_regressed : anchor_regressed s q.grant_id q.grant_version (mark_of row) ≡ ok false

-- The permit as the transaction saw it.
pub record IsAccepted (s : Store) (q : Presented) (p : PermitRow) : Type 0 where
  pub recorded : find (at_permit q.permit_id) s.execution_permits ≡ some p
  pub bound : binds q p ≡ true
  pub unconsumed : is_none p.consumed_at ≡ true
  pub unvoided : is_none p.voided_at ≡ true
  pub last : exists (supersedes p) s.execution_permits ≡ false
  pub row : GrantRow
  pub provisioned : find_grant s q.grant_id q.grant_version ≡ some row
  pub granted : IsGranted s q row

anchor_reasons-nil :
    (s : Store) (q : Presented) (row : GrantRow)
    → anchor_reasons s q row ≡ []
    → (is_anchor_missing s ≡ false)
      × (anchor_regressed s q.grant_id q.grant_version (mark_of row) ≡ ok false)
anchor_reasons-nil s q row h = ground arith

reason_if-nil :
    (b : Bool) (r : PermitReason) (rest : List PermitReason)
    → reason_if b r ++ rest ≡ []
    → (b ≡ false) × (rest ≡ [])
reason_if-nil b r rest h = ground arith

control_reasons-nil :
    (s : Store) (q : Presented) (row : GrantRow) → control_reasons s q row ≡ [] → IsGranted s q row
control_reasons-nil s q row h =
    let (principal, h₁) = reason_if-nil (not (row.principal_id == q.principal_id)) _ _ h in
    let (active, h₂) = reason_if-nil (not (is_active row.runtime_status)) _ _ h₁ in
    let (epoch, h₃) = reason_if-nil (not (row.runtime_epoch == q.grant_epoch)) _ _ h₂ in
    let (not_halted, h₄) = reason_if-nil (is_halted s q.principal_id) _ _ h₃ in
    let (present, mark) = anchor_reasons-nil s q row h₄ in
    record {
      principal = (==_iff row.principal_id q.principal_id).0 (not-false _ principal);
      active = not-false (is_active row.runtime_status) active;
      epoch = (==_iff row.runtime_epoch q.grant_epoch).0 (not-false _ epoch);
      not_halted = not_halted;
      anchor_present = present;
      not_regressed = mark;
    }

module _ (s : Store) (q : Presented) (ts : ℕ) (t : Store) where
  controlled-IsGranted :
      (row : GrantRow) (rs : List PermitReason)
      → control_reasons s q row ≡ rs
      → consume_controlled s q row ts rs ≡ ok (consumed, t)
      → IsGranted s q row
  controlled-IsGranted row [] e h = control_reasons-nil s q row e
  controlled-IsGranted row (r ∷ rs) e h = cc

  consume_granted-IsGranted :
      (o : Option GrantRow)
      → consume_granted s q ts o ≡ ok (consumed, t)
      → (row : GrantRow) × (o ≡ some row) × IsGranted s q row
  consume_granted-IsGranted none h = cc
  consume_granted-IsGranted (some row) h =
      (row, refl, controlled-IsGranted row (control_reasons s q row) refl h)

  row-IsAccepted :
      (p : PermitRow)
      → find (at_permit q.permit_id) s.execution_permits ≡ some p
      → consume_row s q p ts ≡ ok (consumed, t)
      → IsAccepted s q p
  row-IsAccepted p found h =
      let (bound, unconsumed, unvoided, last, rest) =
        passed (binds q p) (is_some p.consumed_at) (is_some p.voided_at)
          (exists (supersedes p) s.execution_permits)
          (consume_granted s q ts (find_grant s q.grant_id q.grant_version)) h in
      let (row, provisioned, granted) =
        consume_granted-IsGranted (find_grant s q.grant_id q.grant_version) rest in
      record {
        recorded = found;
        bound = bound;
        unconsumed = not_some p.consumed_at unconsumed;
        unvoided = not_some p.voided_at unvoided;
        last = last;
        row = row;
        provisioned = provisioned;
        granted = granted;
      }
    where
      not_some : (o : Option ℕ) → is_some o ≡ false → is_none o ≡ true
      not_some none h = refl
      not_some (some x) h = cc

      passed :
          (a b d e : Bool) (m : Tx Consumption)
          → (if not a
              then ok (refused (ledger_binding_mismatch ∷ []), s)
              else if b
              then ok (refused (already_consumed ∷ []), s)
              else if d
              then ok (refused (voided ∷ []), s)
              else if e
              then ok (refused (superseded ∷ []), s)
              else m)
            ≡ ok (consumed, t)
          → (a ≡ true) × (b ≡ false) × (d ≡ false) × (e ≡ false) × (m ≡ ok (consumed, t))
      passed a b d e m h = ground arith

  found-IsAccepted :
      (o : Option PermitRow)
      → find (at_permit q.permit_id) s.execution_permits ≡ o
      → consume_found s q ts o ≡ ok (consumed, t)
      → (p : PermitRow) × IsAccepted s q p
  found-IsAccepted none e h = cc
  found-IsAccepted (some p) e h = (p, row-IsAccepted p e h)

  pub consumed-IsAccepted :
      consume_execution_permit s q ts ≡ ok (consumed, t) → (p : PermitRow) × IsAccepted s q p
  unfolding consume_execution_permit
  consumed-IsAccepted h = found-IsAccepted (find (at_permit q.permit_id) s.execution_permits) refl h

-- The ledger after an accepted permit: the row is consumed, and the fence of the grant advanced.
pub record IsSpent (s : Store) (q : Presented) (ts : ℕ) (t : Store) : Type 0 where
  pub permits :
      t.execution_permits
      ≡ update
          (λ p. at_permit q.permit_id p && is_none p.consumed_at)
          (λ p. record p { consumed_at = some ts })
          s.execution_permits
  pub grants :
      t.grants
      ≡ update
          (at_grant q.grant_id q.grant_version)
          (λ r. record r { fence_counter = r.fence_counter + 1 })
          s.grants

abbrev SpentIf : Store → Presented → ℕ → Consumption → Store → Type 0
SpentIf s q ts consumed t = IsSpent s q ts t
SpentIf s q ts (refused _) t = t ≡ s

module _ (s : Store) (q : Presented) (ts : ℕ) where
  commit-spent : (row : GrantRow) → Ensures (SpentIf s q ts) (commit_consumption s q row ts)
  commit-spent row =
      Ensures-bind (SpentIf s q ts) (anchor_record s.anchor q.grant_id q.grant_version _) _
        λ a _. record { permits = refl; grants = refl }

  controlled-spent :
      (row : GrantRow) (rs : List PermitReason)
      → Ensures (SpentIf s q ts) (consume_controlled s q row ts rs)
  controlled-spent row [] = commit-spent row
  controlled-spent row (r ∷ rs) = refl

  granted-spent : (o : Option GrantRow) → Ensures (SpentIf s q ts) (consume_granted s q ts o)
  granted-spent none = refl
  granted-spent (some row) = controlled-spent row (control_reasons s q row)

  found-spent : (o : Option PermitRow) → Ensures (SpentIf s q ts) (consume_found s q ts o)
  found-spent none = refl
  found-spent (some p) =
      Ensures-if (SpentIf s q ts) (not (binds q p)) _ _ (λ _. refl)
        λ _.
          Ensures-if (SpentIf s q ts) (is_some p.consumed_at) _ _ (λ _. refl)
            λ _.
              Ensures-if (SpentIf s q ts) (is_some p.voided_at) _ _ (λ _. refl)
                λ _.
                  Ensures-if (SpentIf s q ts) (exists (supersedes p) s.execution_permits) _ _
                    (λ _. refl) λ _. granted-spent (find_grant s q.grant_id q.grant_version)

  pub consume-spent : Ensures (SpentIf s q ts) (consume_execution_permit s q ts)
  unfolding consume_execution_permit
  consume-spent = found-spent (find (at_permit q.permit_id) s.execution_permits)

-- A refusal, whatever its reason, leaves the store as it was.
pub refused_keeps :
    (s : Store) (q : Presented) (ts : ℕ) (rs : List PermitReason) (t : Store)
    → consume_execution_permit s q ts ≡ ok (refused rs, t)
    → t ≡ s
refused_keeps s q ts rs t h = Ensures-ok (SpentIf s q ts) _ (refused rs) t (consume-spent s q ts) h

pub consumed-IsSpent :
    (s : Store) (q : Presented) (ts : ℕ) (t : Store)
    → consume_execution_permit s q ts ≡ ok (consumed, t)
    → IsSpent s q ts t
consumed-IsSpent s q ts t h = Ensures-ok (SpentIf s q ts) _ consumed t (consume-spent s q ts) h

-- The row of an accepted permit afterwards.
pub consumed_row :
    (s : Store) (q : Presented) (ts : ℕ) (t : Store)
    → consume_execution_permit s q ts ≡ ok (consumed, t)
    → (p : PermitRow) × (find (at_permit q.permit_id) t.execution_permits ≡ some p)
      × (p.consumed_at ≡ some ts)
consumed_row s q ts t h =
    let (p, a) = consumed-IsAccepted s q ts t h in
    (
      record p { consumed_at = some ts },
      ap (find (at_permit q.permit_id)) (consumed-IsSpent s q ts t h).permits
          ∙ find-update_hit (at_permit q.permit_id)
              (λ p. at_permit q.permit_id p && is_none p.consumed_at)
              (λ p. record p { consumed_at = some ts }) s.execution_permits (λ _. refl) a.recorded
              (both (find_holds (at_permit q.permit_id) s.execution_permits a.recorded)
                a.unconsumed),
      refl,
    )
  where
    both : {a b : Bool} → a ≡ true → b ≡ true → (a && b) ≡ true
    both h k = ground arith

-- A permit is consumed only if the ledger has it as presented, not consumed, not voided and last of
-- its intent, under a grant of the principal that is active, at the permit's epoch, not halted and
-- not behind its anchor. The consumption then writes the permit and the fence of the grant, and
-- nothing else in these tables.
pub consumption_sound :
    (s : Store) (q : Presented) (ts : ℕ) (t : Store)
    → consume_execution_permit s q ts ≡ ok (consumed, t)
    → ((p : PermitRow) × IsAccepted s q p) × IsSpent s q ts t
consumption_sound s q ts t h = (consumed-IsAccepted s q ts t h, consumed-IsSpent s q ts t h)
