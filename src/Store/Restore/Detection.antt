-- ===== src/Store/Restore/Detection.antt =====
-- A datastore that was restored from a copy older than the anchor hands out no authority.
use faar_runtime.Common.{
  not-true, ℕ, ◌+◌, ◌≡◌, ◌≢◌, refl, sym, ◌∙◌, ap, subst, Bool, true, false, not, Option, none, some,
  arith, some_inj, ◌==◌, is_some, List, [], ◌∷◌, if◌then◌else◌,
}
use faar_runtime.Common.Result.{ok, err, ok_inj, ◌>>=◌}
use faar_runtime.Table.{find, exists}
use faar_runtime.Anchor.{Mark, grant_key, Anchor, lt_mark, regressed, high_water, unavailable}
use faar_runtime.Models.Grant.{CapabilityGrant}
use faar_runtime.Store.Schema.{GrantRow, PermitRow, Store, unknown_grant, grant_conflict}
use faar_runtime.Store.Access.{
  find_grant, is_active, is_halted, mark_of, require_anchor, anchored, anchor_regressed,
  anchor_record,
}
use faar_runtime.Store.Fences.{next_execution_fence}
use faar_runtime.Store.Permits.{
  consume_execution_permit, Presented, PermitReason, Consumption, consumed, refused, at_permit,
  binds, supersedes, control_reasons, consume_controlled, consume_granted, consume_found,
}
use faar_runtime.Store.Evidence.{Crypto}
use faar_runtime.Store.Ensures.{
  Ensures, Ensures-ok, Ensures-bind, Ensures-require, Ensures-or_raise, Ensures-if,
}
use faar_runtime.Store.Steps.{Run}
use faar_runtime.Store.Authority.Consumption.{consumed-IsAccepted}
use faar_runtime.Store.Restore.Marks.{Reaches, anchor_record-reached}
use faar_runtime.Store.Restore.Runs.{Run-Raises}

-- The row of a grant is behind the mark of its anchor.
abbrev IsOlder : Store → ℕ → ℕ → Type 0
IsOlder x g v =
    (row : GrantRow) × (m : Mark) × (find_grant x g v ≡ some row)
    × Reaches x.anchor (grant_key g v) m
    × (lt_mark (mark_of row) m ≡ true)

regressed_lem :
    (x high m : Mark) (o : Option Mark)
    → o ≡ some high
    → lt_mark x m ≡ true
    → lt_mark high m ≡ false
    → regressed x o ≡ true
unfolding regressed lt_mark
regressed_lem x high m none e h k = cc
regressed_lem x high m (some y) e h k =
    ordered x y m h (subst (λ z. lt_mark z m ≡ false) (sym (some_inj e)) k)
  where
    ordered : (x y m : Mark) → lt_mark x m ≡ true → lt_mark y m ≡ false → lt_mark x y ≡ true
    ordered x y m h k = ground arith

older_regressed :
    (x : Store) (g v : ℕ) (row : GrantRow) (m : Mark)
    → Reaches x.anchor (grant_key g v) m
    → lt_mark (mark_of row) m ≡ true
    → anchor_regressed x g v (mark_of row) ≢ ok false
unfolding anchor_regressed high_water
older_regressed x g v row m r lt h = by_anchor x.anchor r h
  where
    by_read :
        (b : Bool) (o : Option Mark) (high : Mark)
        → o ≡ some high
        → lt_mark high m ≡ false
        → (anchored (if b then ok o else err unavailable) >>= λ mark.
            ok (regressed (mark_of row) mark))
          ≢ ok false
    by_read true o high e le k =
        differ (sym (regressed_lem (mark_of row) high m o e lt le) ∙ ok_inj k)
      where
        differ : true ≡ false → ⊥
        differ h = cc
    by_read false o high e le k = cc

    by_anchor :
        (o : Option Anchor)
        → Reaches o (grant_key g v) m
        → (elim o [
          | none ↦ ok false
          | some a ↦
              anchored (high_water a (grant_key g v)) >>= λ mark. ok (regressed (mark_of row) mark)
        ])
          ≢ ok false
    by_anchor none r = absurd r
    by_anchor (some a) (high, at_k, le) =
        by_read (a.readable (grant_key g v)) (a.marks (grant_key g v)) high at_k le

-- No permit of a grant that is behind its anchor is consumed, and no fence of it is allocated.
older_refused :
    (x w : Store) (q : Presented) (k : CapabilityGrant) (ts : ℕ) (r : ℕ × ℕ)
    → IsOlder x q.grant_id q.grant_version
    → IsOlder x k.grant_id k.version
    → (consume_execution_permit x q ts ≢ ok (consumed, w)) × (next_execution_fence x k ≢ ok (r, w))
unfolding next_execution_fence
older_refused x w q k ts r (row, m, found, reaches, lt) (row', m', found', reaches', lt') = (
  λ h.
      let (p, a) = consumed-IsAccepted x q ts w h in
      let same : a.row ≡ row = some_inj (sym a.provisioned ∙ found) in
      older_regressed x q.grant_id q.grant_version row m reaches lt (
        subst (λ y. anchor_regressed x q.grant_id q.grant_version (mark_of y) ≡ ok false) same
          a.granted.not_regressed),
  λ h. Ensures-ok (λ _ _. ⊥) _ r w unfenced h,
)
  where
    unfenced : Ensures (λ _ _. ⊥) (next_execution_fence x k)
    unfenced =
        Ensures-bind (λ _ _. ⊥) (require_anchor x) _
          λ _ _.
            Ensures-or_raise (λ _ _. ⊥) (find_grant x k.grant_id k.version) unknown_grant _
              λ y again.
                Ensures-require (λ _ _. ⊥) (y.principal_id == k.principal_id) grant_conflict _
                  λ _.
                    Ensures-require (λ _ _. ⊥) (is_active y.runtime_status) grant_conflict _
                      λ _.
                        Ensures-require (λ _ _. ⊥) (not (is_halted x k.principal_id)) grant_conflict
                          _
                          λ _.
                            Ensures-bind (λ _ _. ⊥)
                              (anchor_regressed x k.grant_id k.version (mark_of y)) _
                              λ b e.
                                Ensures-require (λ _ _. ⊥) (not b) grant_conflict _
                                  λ fresh. absurd (
                                    older_regressed x k.grant_id k.version row' m' reaches' lt' (
                                      subst
                                        (λ z.
                                          anchor_regressed x k.grant_id k.version (mark_of z)
                                          ≡ ok false)
                                        (some_inj (sym again ∙ found'))
                                        (e ∙ ap ok (not-true b fresh))))

-- The datastore of an older store, under the anchor of a newer one.
abbrev pub restored : Store → Store → Store
restored old new = record new { db = old.db }

abbrev ReachedIf : Store → Presented → Consumption → Store → Type 0
ReachedIf s q consumed t =
    (row : GrantRow) × (find_grant s q.grant_id q.grant_version ≡ some row)
    × Reaches t.anchor (grant_key q.grant_id q.grant_version)
        (record { epoch = q.grant_epoch; fence = row.fence_counter + 1 })
ReachedIf s q (refused _) t = Unit

module _ (s : Store) (a : Anchor) (anchored_store : s.anchor ≡ some a) where
  recorded-reached :
      (g v : ℕ) (m : Mark) (b : Option Anchor)
      → anchor_record s.anchor g v m ≡ ok b
      → Reaches b (grant_key g v) m
  recorded-reached g v m b h =
      anchor_record-reached a b g v m (subst (λ o. anchor_record o g v m ≡ ok b) anchored_store h)

  consume-reached :
      (q : Presented) (ts : ℕ) → Ensures (ReachedIf s q) (consume_execution_permit s q ts)
  unfolding consume_execution_permit
  consume-reached q ts = by_permit (find (at_permit q.permit_id) s.execution_permits)
    where
      controlled :
          (row : GrantRow)
          → find_grant s q.grant_id q.grant_version ≡ some row
          → (rs : List PermitReason) → Ensures (ReachedIf s q) (consume_controlled s q row ts rs)
      controlled row found [] =
          Ensures-bind (ReachedIf s q) (anchor_record s.anchor q.grant_id q.grant_version _) _
            λ b e. (row, found, recorded-reached q.grant_id q.grant_version _ b e)
      controlled row found (r ∷ rs) = tt

      by_grant :
          (o : Option GrantRow)
          → find_grant s q.grant_id q.grant_version ≡ o
          → Ensures (ReachedIf s q) (consume_granted s q ts o)
      by_grant none e = tt
      by_grant (some row) e = controlled row e (control_reasons s q row)

      by_permit : (o : Option PermitRow) → Ensures (ReachedIf s q) (consume_found s q ts o)
      by_permit none = tt
      by_permit (some p) =
          Ensures-if (ReachedIf s q) (not (binds q p)) _ _ (λ _. tt)
            λ _.
              Ensures-if (ReachedIf s q) (is_some p.consumed_at) _ _ (λ _. tt)
                λ _.
                  Ensures-if (ReachedIf s q) (is_some p.voided_at) _ _ (λ _. tt)
                    λ _.
                      Ensures-if (ReachedIf s q) (exists (supersedes p) s.execution_permits) _ _
                        (λ _. tt) λ _. by_grant (find_grant s q.grant_id q.grant_version) refl

-- A datastore with an anchor that is restored to a copy from before a permit was consumed consumes
-- no permit of that grant version and allocates no fence of it, after any operations in between:
-- the mark of the consumption is in the anchor, and no operation lowers it.
pub restore_after_consumption :
    (c : Crypto) (s t u w : Store) (a : Anchor) (q q' : Presented) (k : CapabilityGrant)
    (ts ts' : ℕ) (r : ℕ × ℕ)
    → s.anchor ≡ some a
    → consume_execution_permit s q ts ≡ ok (consumed, t)
    → Run c t u
    → q'.grant_id ≡ q.grant_id
    → q'.grant_version ≡ q.grant_version
    → k.grant_id ≡ q.grant_id
    → k.version ≡ q.grant_version
    → (consume_execution_permit (restored s u) q' ts' ≢ ok (consumed, w))
      × (next_execution_fence (restored s u) k ≢ ok (r, w))
unfolding lt_mark
restore_after_consumption c s t u w a q q' k ts ts' r with_anchor h run eg ev kg kv =
    older_refused (restored s u) w q' k ts' r (older_at q'.grant_id q'.grant_version eg ev)
      (older_at k.grant_id k.version kg kv)
  where
    behind_mark :
        (row : GrantRow) (epoch : ℕ)
        → row.runtime_epoch ≡ epoch
        → lt_mark (mark_of row) (record { epoch = epoch; fence = row.fence_counter + 1 }) ≡ true
    behind_mark row epoch e = ground arith

    older : IsOlder (restored s u) q.grant_id q.grant_version
    older =
        let (row, found, reaches) =
          Ensures-ok (ReachedIf s q) _ consumed t (consume-reached s a with_anchor q ts) h in
        let (p, accepted) = consumed-IsAccepted s q ts t h in
        let epoch : row.runtime_epoch ≡ q.grant_epoch =
          ap (λ (x : GrantRow). x.runtime_epoch) (some_inj (sym found ∙ accepted.provisioned))
          ∙ accepted.granted.epoch in
        (
          row,
          record { epoch = q.grant_epoch; fence = row.fence_counter + 1 },
          found,
          Run-Raises c run _ _ reaches,
          behind_mark row q.grant_epoch epoch,
        )

    older_at : (g v : ℕ) → g ≡ q.grant_id → v ≡ q.grant_version → IsOlder (restored s u) g v
    older_at g v eg ev =
        subst (λ x. IsOlder (restored s u) x v) (sym eg)
          (subst (λ x. IsOlder (restored s u) q.grant_id x) (sym ev) older)
