-- ===== src/Store/Restore/RaisedByStops.antt =====
-- The emergency stops, the caps and the consumption of a permit lower no mark either.
use faar_runtime.Common.{
  ℕ, ◌+◌, ◌≡◌, refl, sym, ◌∙◌, some_inj, Bool, true, false, not, Option, none, some, List, [], ◌∷◌,
  arith, max, is_some, if◌then◌else◌, subst,
}
use faar_runtime.Common.Result.{Result, ok, err, ◌>>=◌, ok_inj}
use faar_runtime.Table.{find, exists, update, select}
use faar_runtime.Anchor.{
  Mark, grant_key, exposure_caps, Anchor, AnchorError, unavailable, lt_mark, high_water,
  record_mark, reset_mark, same_key,
}
use faar_runtime.Store.Schema.{
  GrantRow, PermitRow, ControlScope, Store, StoreError, unknown_grant, value_error,
  unknown_principal,
}
use faar_runtime.Store.Access.{find_grant, mark_of, require_anchor, anchored, anchor_record}
use faar_runtime.Store.Grants.{update_grant}
use faar_runtime.Store.Fences.{
  revoke_after_restore, closed, floor_mark, high_mark, reset_anchor, report_mark,
}
use faar_runtime.Store.Controls.{
  halt, anchor_rows, in_scope, bump_epoch, is_unprovisioned, set_exposure_cap, is_valid_cap,
  caps_mark, record_caps, next_version, cap_recorded, is_tightening, stored_cap,
}
use faar_runtime.Store.Permits.{
  consume_execution_permit, Presented, PermitReason, at_permit, binds, supersedes, control_reasons,
  consume_controlled, consume_granted, consume_found,
}
use faar_runtime.Store.Ensures.{
  Ensures, Ensures-bind, Ensures-require, Ensures-or_raise, Ensures-if,
}
use faar_runtime.Store.Restore.Marks.{
  Reaches, NeverLowers, record_mark-Reaches, anchor_record-Reaches, put-Reaches,
}
use faar_runtime.Store.Restore.Raised.{Raises, same_marks}

past_lem :
    (epoch fence : ℕ) (x m : Mark)
    → lt_mark x m ≡ false
    → lt_mark (record { epoch = max epoch x.epoch + 1; fence = max fence x.fence }) m ≡ false
unfolding lt_mark
past_lem epoch fence x m h = ground arith

-- Resetting past a mark that was read raises it.
reset_anchor-Raises :
    (a : Anchor) (b : Option Anchor) (g v : ℕ) (row : GrantRow)
    → reset_anchor
        (some a)
        g
        v
        (mark_of (closed row (floor_mark (high_mark (some a) g v)) row))
        (high_mark (some a) g v)
      ≡ ok b
    → NeverLowers (some a) b
unfolding high_water reset_mark
reset_anchor-Raises a b g v row h = by_read (high_water a (grant_key g v)) refl h
  where
    past : Option Mark → Mark
    past o = mark_of (closed row (floor_mark (ok o)) row)

    put_mark : Option Mark → Anchor
    put_mark o = record a {
      marks = λ x. if same_key (grant_key g v) x then some (past o) else a.marks x;
    }

    was_read :
        (w : Bool) (o : Option Mark)
        → (if w then ok (a.marks (grant_key g v)) else err unavailable) ≡ ok o
        → a.marks (grant_key g v) ≡ o
    was_read true o e = ok_inj e
    was_read false o e = cc

    above :
        (o : Option Mark)
        → a.marks (grant_key g v) ≡ o
        → (m : Mark) → Reaches (some a) (grant_key g v) m
        → lt_mark (past o) m ≡ false
    above none e m (high, at_k, le) = absurd (none_some (sym e ∙ at_k))
      where
        none_some : {x : Mark} → none ≡ some x → ⊥
        none_some k = cc
    above (some x) e m (high, at_k, le) =
        over x m (subst (λ y. lt_mark y m ≡ false) (some_inj (sym at_k ∙ e)) le)
      where
        over : (x m : Mark) → lt_mark x m ≡ false → lt_mark (past (some x)) m ≡ false
        over x m h = past_lem row.runtime_epoch row.fence_counter x m h

    by_write :
        (w : Bool) (o : Option Mark)
        → a.marks (grant_key g v) ≡ o
        → (elim (if w then ok (put_mark o) else err unavailable) [
          | ok x ↦ ok (some x)
          | err x ↦ err x
        ])
          ≡ ok b
        → NeverLowers (some a) b
    by_write true o e k =
        subst (NeverLowers (some a)) (ok_inj k) (put-Reaches a (grant_key g v) (past o) (above o e))
    by_write false o e k = cc

    by_read :
        (r : Result AnchorError (Option Mark))
        → high_water a (grant_key g v) ≡ r
        → reset_anchor (some a) g v (mark_of (closed row (floor_mark r) row)) r ≡ ok b
        → NeverLowers (some a) b
    by_read (err x) e k = cc
    by_read (ok o) e k =
        by_write (a.writable (grant_key g v)) o (was_read (a.readable (grant_key g v)) o e) k

pub revoke_after_restore-Raises :
    (s : Store) (g v : ℕ) → Ensures (λ _. Raises s) (revoke_after_restore s g v)
unfolding revoke_after_restore
revoke_after_restore-Raises s g v =
    Ensures-bind (λ _. Raises s) (require_anchor s) _
      λ _ _.
        Ensures-or_raise (λ _. Raises s) (find_grant s g v) unknown_grant _
          λ row found. reported row s.anchor refl _ refl
  where
    reported :
        (row : GrantRow) (o : Option Anchor)
        → s.anchor ≡ o
        → (r : Result AnchorError (Option Anchor))
        → reset_anchor o g v
            (mark_of (closed row (floor_mark (high_mark o g v)) row))
            (high_mark o g v)
          ≡ r
        → Raises s
            (report_mark
              (update_grant s g v (closed row (floor_mark (high_mark s.anchor g v))))
              (mark_of (closed row (floor_mark (high_mark s.anchor g v)) row))
              r).1
    reported row none e (ok b) k = rw e (subst (NeverLowers none) (ok_inj k) (same_marks none))
    reported row (some a) e (ok b) k = rw e (reset_anchor-Raises a b g v row k)
    reported row o e (err x) k = same_marks s.anchor

anchor_rows-Raises :
    (a : Option Anchor) (rows : List GrantRow) → NeverLowers a (anchor_rows a rows).0
unfolding anchor_rows
anchor_rows-Raises a [] = same_marks a
anchor_rows-Raises a (r ∷ rows) =
    by_result (anchor_record a r.grant_id r.version (mark_of r)) refl
      (λ b. anchor_rows-Raises b rows)
  where
    by_result :
        (x : Result StoreError (Option Anchor))
        → anchor_record a r.grant_id r.version (mark_of r) ≡ x
        → ((b : Option Anchor) → NeverLowers b (anchor_rows b rows).0)
        → NeverLowers a
            (elim x as (λ _. Option Anchor × Bool) [
              | ok b ↦ anchor_rows b rows
              | err e ↦ (a, false)
            ]).0
    by_result (ok b) e rest =
        λ k m h. rest b k m (anchor_record-Reaches a b r.grant_id r.version (mark_of r) e k m h)
    by_result (err x) e rest = same_marks a

pub halt-Raises :
    (s : Store) (scope : ControlScope) (reason : Option ℕ) (allow : Bool)
    → Ensures (λ _. Raises s) (halt s scope reason allow)
unfolding halt
halt-Raises s scope reason allow =
    Ensures-or_raise (λ _. Raises s) reason value_error _
      λ why _.
        Ensures-bind (λ _. Raises s) (require_anchor s) _
          λ _ _.
            Ensures-require (λ _. Raises s) (not (is_unprovisioned s scope allow)) unknown_principal
              _
              λ _.
                anchor_rows-Raises s.anchor
                  (select (in_scope scope) (update (in_scope scope) bump_epoch s.grants))

record_caps-Raises :
    (a b : Option Anchor) (version : ℕ) → record_caps a version ≡ ok b → NeverLowers a b
record_caps-Raises none b version h = subst (NeverLowers none) (ok_inj h) (same_marks none)
record_caps-Raises (some a) b version h = by_result (record_mark a exposure_caps _) refl h
  where
    mark : Mark
    mark = record { epoch = version; fence = 0 }

    by_result :
        (r : Result AnchorError Anchor)
        → record_mark a exposure_caps mark ≡ r
        → (anchored r >>= λ x. ok (some x)) ≡ ok b
        → NeverLowers (some a) b
    by_result (ok x) e k =
        subst (NeverLowers (some a)) (ok_inj k) (record_mark-Reaches a x exposure_caps mark e).0
    by_result (err x) e k = cc

pub set_exposure_cap-Raises :
    (s : Store) (scope : ControlScope) (cap : Option ℕ) (allow : Bool)
    → Ensures (λ _. Raises s) (set_exposure_cap s scope cap allow)
unfolding set_exposure_cap
set_exposure_cap-Raises s scope cap allow =
    Ensures-bind (λ _. Raises s) (require_anchor s) _
      λ _ _.
        Ensures-require (λ _. Raises s) (is_valid_cap cap) value_error _
          λ _.
            Ensures-require (λ _. Raises s) (not (is_unprovisioned s scope allow)) unknown_principal
              _
              λ _.
                Ensures-bind (λ _. Raises s) (caps_mark s.anchor) _
                  λ mark _.
                    capped (next_version s mark) (record_caps s.anchor (next_version s mark)) refl
  where
    capped :
        (version : ℕ) (r : Result StoreError (Option Anchor))
        → record_caps s.anchor version ≡ r
        → Ensures (λ _. Raises s) (cap_recorded s scope cap version r)
    capped version (ok a) e = record_caps-Raises s.anchor a version e
    capped version (err x) e =
        Ensures-if (λ _. Raises s) (is_tightening cap (stored_cap scope s.exposure_caps)) _ _
          (λ _. same_marks s.anchor) (λ _. tt)

module _ (s : Store) (q : Presented) (ts : ℕ) where
  controlled-Raises :
      (row : GrantRow) (rs : List PermitReason)
      → Ensures (λ _. Raises s) (consume_controlled s q row ts rs)
  controlled-Raises row [] =
      Ensures-bind (λ _. Raises s) (anchor_record s.anchor q.grant_id q.grant_version _) _
        λ a e. anchor_record-Reaches s.anchor a q.grant_id q.grant_version _ e
  controlled-Raises row (r ∷ rs) = same_marks s.anchor

  granted-Raises : (o : Option GrantRow) → Ensures (λ _. Raises s) (consume_granted s q ts o)
  granted-Raises none = same_marks s.anchor
  granted-Raises (some row) = controlled-Raises row (control_reasons s q row)

  found-Raises : (o : Option PermitRow) → Ensures (λ _. Raises s) (consume_found s q ts o)
  found-Raises none = same_marks s.anchor
  found-Raises (some p) =
      Ensures-if (λ _. Raises s) (not (binds q p)) _ _ (λ _. same_marks s.anchor)
        λ _.
          Ensures-if (λ _. Raises s) (is_some p.consumed_at) _ _ (λ _. same_marks s.anchor)
            λ _.
              Ensures-if (λ _. Raises s) (is_some p.voided_at) _ _ (λ _. same_marks s.anchor)
                λ _.
                  Ensures-if (λ _. Raises s) (exists (supersedes p) s.execution_permits) _ _
                    (λ _. same_marks s.anchor)
                    λ _. granted-Raises (find_grant s q.grant_id q.grant_version)

  pub consume_execution_permit-Raises : Ensures (λ _. Raises s) (consume_execution_permit s q ts)
  unfolding consume_execution_permit
  consume_execution_permit-Raises = found-Raises (find (at_permit q.permit_id) s.execution_permits)
