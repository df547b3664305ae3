-- ===== src/Store/Authority/Stops.antt =====
-- Which changes commit whatever the anchor answers, and which need it.
use faar_runtime.Common.{
  ℕ, ◌≡◌, ◌≢◌, refl, sym, ◌∙◌, ap, Bool, true, false, not, ◌&&◌, Option, some, is_none, arith,
  if◌then◌else◌,
}
use faar_runtime.Common.Result.{Result, ok, err, ◌>>=◌, require, or_raise}
use faar_runtime.Anchor.{Mark, AnchorError, Anchor, exposure_caps, high_water}
use faar_runtime.Store.Schema.{
  GrantRow, ControlScope, Store, StoreError, Report, value_error, unknown_principal, unknown_grant,
}
use faar_runtime.Store.Access.{Tx, find_grant, is_anchor_missing, require_anchor, anchored}
use faar_runtime.Store.Fences.{revoke_after_restore}
use faar_runtime.Store.Controls.{halt, is_unprovisioned, set_exposure_cap, is_valid_cap, caps_mark}
use faar_runtime.Store.Ensures.{Ensures-ok, Ensures-bind, Ensures-require}

-- The transaction commits.
abbrev pub Commits : {A : Type 0} → Tx A → Type 0
Commits {A = A} m = (x : A × Store) × (m ≡ ok x)

Commits-bind :
    {A B : Type 0} (m : Result StoreError B) (f : B → Tx A) (b : B)
    → m ≡ ok b
    → Commits (f b)
    → Commits (m >>= f)
Commits-bind m f b h (x, k) = (x, ap (λ r. r >>= f) h ∙ k)

require_anchor-present : (s : Store) → is_none s.anchor ≡ false → require_anchor s ≡ ok tt
unfolding require_anchor is_anchor_missing
require_anchor-present s h = present s.anchor_required (is_none s.anchor) h
  where
    present :
        (r n : Bool) → n ≡ false → (if r && n then err StoreError.anchor_missing else ok tt) ≡ ok tt
    present r n h = ground arith

require-true : (b : Bool) (e : StoreError) → b ≡ true → require b e ≡ ok tt
require-true true e h = refl
require-true false e h = cc

or_raise-some :
    {B : Type 0} (o : Option B) (e : StoreError) (b : B) → o ≡ some b → or_raise o e ≡ ok b
or_raise-some o e b h = ap (λ x. or_raise x e) h

-- A halt with a reason, of a scope that has a grant or on insistence, and the closing of a grant
-- version that is provisioned commit whatever the anchor answers, if the store was opened with one.
pub stops_commit :
    (s : Store) (scope : ControlScope) (reason : ℕ) (allow : Bool) (g v : ℕ) (row : GrantRow)
    → is_none s.anchor ≡ false
    → is_unprovisioned s scope allow ≡ false
    → find_grant s g v ≡ some row
    → Commits (halt s scope (some reason) allow) × Commits (revoke_after_restore s g v)
unfolding halt revoke_after_restore
stops_commit s scope reason allow g v row with_anchor provisioned found =
    let present = require_anchor-present s with_anchor in
    (
      Commits-bind (require_anchor s) _ tt present (
          Commits-bind (require (not (is_unprovisioned s scope allow)) unknown_principal) _ tt
            (require-true (not (is_unprovisioned s scope allow)) unknown_principal
              (ap not provisioned))
            (_, refl)),
      Commits-bind (require_anchor s) _ tt present (
          Commits-bind (or_raise (find_grant s g v) unknown_grant) _ row
            (or_raise-some (find_grant s g v) unknown_grant row found) (_, refl)),
    )

-- No change of an exposure cap commits, a tightening included, while the mark of the caps cannot be
-- read.
pub cap_needs_mark :
    (s : Store) (a : Anchor) (scope : ControlScope) (cap : Option ℕ) (allow : Bool) (r : Report ℕ)
    (t : Store)
    → s.anchor ≡ some a
    → a.readable exposure_caps ≡ false
    → set_exposure_cap s scope cap allow ≢ ok (r, t)
unfolding set_exposure_cap high_water
cap_needs_mark s a scope limit allow r t with_anchor unreadable h =
    Ensures-ok (λ _ _. ⊥) _ r t
      (Ensures-bind (λ _ _. ⊥) (require_anchor s) _
        λ _ _.
          Ensures-require (λ _ _. ⊥) (is_valid_cap limit) value_error _
            λ _.
              Ensures-require (λ _ _. ⊥) (not (is_unprovisioned s scope allow)) unknown_principal _
                λ _.
                  Ensures-bind (λ _ _. ⊥) (caps_mark s.anchor) _
                    λ mark e. absurd (no_mark (sym (ap caps_mark with_anchor) ∙ e)))
      h
  where
    refused :
        (b : Bool) {x : Option Mark}
        → b ≡ false
        → anchored (if b then ok (a.marks exposure_caps) else err AnchorError.unavailable) ≡ ok x
        → ⊥
    refused true h e = cc
    refused false h e = cc

    no_mark : {x : Option Mark} → caps_mark (some a) ≡ ok x → ⊥
    no_mark e = refused (a.readable exposure_caps) unreadable e
