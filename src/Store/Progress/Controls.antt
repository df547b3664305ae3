-- ===== src/Store/Progress/Controls.antt =====
-- The emergency controls and the exposure caps develop the rows.
use faar_runtime.Common.{ℕ, refl, Bool, not, Option, arith}
use faar_runtime.Common.Result.{Result, ok, err}
use faar_runtime.Table.{exists}
use faar_runtime.Table.Kept.{Kept-update}
use faar_runtime.Anchor.{Anchor}
use faar_runtime.Store.Schema.{
  GrantRow, ControlScope, Store, StoreError, value_error, unknown_principal, key_error, ControlRow,
}
use faar_runtime.Store.Access.{at_grant, same_scope, require_anchor}
use faar_runtime.Store.Controls.{
  halt, in_scope, bump_epoch, is_unprovisioned, resume, set_exposure_cap, is_valid_cap, caps_mark,
  record_caps, next_version, with_cap, cap_recorded, is_tightening, stored_cap,
}
use faar_runtime.Store.Ensures.{
  Ensures, Ensures-bind, Ensures-require, Ensures-or_raise, Ensures-if,
}
use faar_runtime.Store.Progress.Rows.{GrantExtends, GrantExtends-refl, Advances, Advances-refl}

-- A halt bumps the epoch of every grant of the scope.
bumped-Extends : (x : GrantRow) → GrantExtends x (bump_epoch x)
bumped-Extends x = ground arith

pub halt-Advances :
    (s : Store) (scope : ControlScope) (reason : Option ℕ) (allow : Bool)
    → Ensures (λ _ t. Advances s t) (halt s scope reason allow)
unfolding halt
halt-Advances s scope reason allow =
    Ensures-or_raise (λ _. Advances s) reason value_error _
      λ why _.
        Ensures-bind (λ _. Advances s) (require_anchor s) _
          λ _ _.
            Ensures-require (λ _. Advances s) (not (is_unprovisioned s scope allow))
              unknown_principal _
              λ _. record {
                grants = λ g v.
                    Kept-update GrantExtends GrantExtends-refl (at_grant g v) (in_scope scope)
                      bump_epoch s.grants (λ _. refl) (λ x _ _. bumped-Extends x);
                permits = (Advances-refl s).permits;
                intents = (Advances-refl s).intents;
                owners = (Advances-refl s).owners;
                ledger = (Advances-refl s).ledger;
                reservations = (Advances-refl s).reservations;
              }

-- The tables of the controls and of the caps are not those of the rows.
pub resume-Advances :
    (s : Store) (scope : ControlScope) → Ensures (λ _ t. Advances s t) (resume s scope)
unfolding resume
resume-Advances s scope =
    Ensures-bind (λ _. Advances s) (require_anchor s) _
      λ _ _.
        Ensures-require (λ _. Advances s)
          (exists (λ (c : ControlRow). same_scope c.scope scope) s.runtime_controls) key_error _
          λ _. record {
            grants = (Advances-refl s).grants;
            permits = (Advances-refl s).permits;
            intents = (Advances-refl s).intents;
            owners = (Advances-refl s).owners;
            ledger = (Advances-refl s).ledger;
            reservations = (Advances-refl s).reservations;
          }

pub set_exposure_cap-Advances :
    (s : Store) (scope : ControlScope) (cap : Option ℕ) (allow : Bool)
    → Ensures (λ _ t. Advances s t) (set_exposure_cap s scope cap allow)
unfolding set_exposure_cap
set_exposure_cap-Advances s scope cap allow =
    Ensures-bind (λ _. Advances s) (require_anchor s) _
      λ _ _.
        Ensures-require (λ _. Advances s) (is_valid_cap cap) value_error _
          λ _.
            Ensures-require (λ _. Advances s) (not (is_unprovisioned s scope allow))
              unknown_principal _
              λ _.
                Ensures-bind (λ _. Advances s) (caps_mark s.anchor) _
                  λ mark _.
                    capped (next_version s mark) (record_caps s.anchor (next_version s mark))
  where
    advances : (version : ℕ) (a : Option Anchor) → Advances s (with_cap s scope cap version a)
    advances version a = record {
      grants = (Advances-refl s).grants;
      permits = (Advances-refl s).permits;
      intents = (Advances-refl s).intents;
      owners = (Advances-refl s).owners;
      ledger = (Advances-refl s).ledger;
      reservations = (Advances-refl s).reservations;
    }

    capped :
        (version : ℕ) (r : Result StoreError (Option Anchor))
        → Ensures (λ _ t. Advances s t) (cap_recorded s scope cap version r)
    capped version (ok a) = advances version a
    capped version (err e) =
        Ensures-if (λ _. Advances s) (is_tightening cap (stored_cap scope s.exposure_caps)) _ _
          (λ _. advances version s.anchor) (λ _. tt)
