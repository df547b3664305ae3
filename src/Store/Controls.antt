-- ===== src/Store/Controls.antt =====
-- The emergency controls and the exposure caps: halt, resume, set_exposure_cap. A scope is already
-- parsed (`_validate_control_scope`); a blank reason is `none`.
use faar_runtime.Common.{
  ℕ, ◌+◌, max, Bool, true, false, not, ◌&&◌, Option, none, some, List, [], ◌∷◌, ◌++◌, ltb, ◌==◌,
  if◌then◌else◌,
}
use faar_runtime.Common.Result.{Result, ok, err, ◌>>=◌, ◌>>◌, require, or_raise}
use faar_runtime.Table.{find, exists, update, select, count}
use faar_runtime.Anchor.{Mark, Anchor, exposure_caps, high_water, record_mark}
use faar_runtime.Store.Schema.{
  GrantRow, ControlScope, global, principal, ControlRow, CapRow, Store, Report, done, behind,
  StoreError, unknown_principal, value_error, key_error,
}
use faar_runtime.Store.Access.{
  Tx, same_scope, mark_of, require_anchor, anchored, anchor_record, principal_grant_count,
}

-- The grants of a scope.
abbrev pub in_scope : ControlScope → GrantRow → Bool
in_scope global row = true
in_scope (principal p) row = row.principal_id == p

-- INSERT … ON CONFLICT(scope) DO UPDATE SET halted=1, reason, control_epoch+1
abbrev pub halt_control : ControlScope → ℕ → List ControlRow → List ControlRow
halt_control scope reason rows =
    if exists (λ (c : ControlRow). same_scope c.scope scope) rows
    then update (λ c. same_scope c.scope scope)
        (λ c. record c { halted = true; reason = reason; control_epoch = c.control_epoch + 1 }) rows
    else rows ++ record { scope = scope; halted = true; reason = reason; control_epoch = 1 } ∷ []

-- Records the mark of each row, up to the first that the anchor refuses.
unfoldable pub anchor_rows : Option Anchor → List GrantRow → Option Anchor × Bool
unfolding anchor_record
anchor_rows a [] = (a, true)
anchor_rows a (r ∷ rows) = elim (anchor_record a r.grant_id r.version (mark_of r)) [
  | ok b ↦ anchor_rows b rows
  | err e ↦ (a, false)
]

abbrev pub bump_epoch : GrantRow → GrantRow
bump_epoch r = record r { runtime_epoch = r.runtime_epoch + 1 }

-- A principal's scope with no provisioned grant is refused unless the caller insists.
abbrev pub is_unprovisioned : Store → ControlScope → Bool → Bool
is_unprovisioned s global allow = false
is_unprovisioned s (principal p) allow = not allow && principal_grant_count s p == 0

-- The number of grant versions that are fenced.
unfoldable pub halt : Store → ControlScope → Option ℕ → Bool → Tx (Report ℕ)
halt s scope reason allow_unprovisioned = do
  why ← or_raise reason value_error
  require_anchor s
  require (not (is_unprovisioned s scope allow_unprovisioned)) unknown_principal
  let rows = update (in_scope scope) bump_epoch s.grants
  let t = record s {
    db = record s.db {
      grants = rows;
      runtime_controls = halt_control scope why s.runtime_controls;
    };
  }
  let (a, all_recorded) = anchor_rows s.anchor (select (in_scope scope) rows)
  let fenced = count (in_scope scope) s.grants
  ok (if all_recorded then done fenced else behind, record t { anchor = a })

unfoldable pub resume : Store → ControlScope → Tx (Unit {0})
resume s scope = do
  require_anchor s
  require (exists (λ (c : ControlRow). same_scope c.scope scope) s.runtime_controls) key_error
  let rows =
      update (λ (c : ControlRow). same_scope c.scope scope)
        (λ c. record c { halted = false; control_epoch = c.control_epoch + 1 }) s.runtime_controls
  ok (tt, record s { db = record s.db { runtime_controls = rows } })

abbrev pub at_scope : ControlScope → CapRow → Bool
at_scope scope c = same_scope c.scope scope

-- DELETE, or INSERT … ON CONFLICT(scope) DO UPDATE
abbrev pub put_cap : ControlScope → Option ℕ → List CapRow → List CapRow
put_cap scope none rows = select (λ c. not (at_scope scope c)) rows
put_cap scope (some cap) rows =
    if exists (at_scope scope) rows
    then update (at_scope scope) (λ c. record c { max_turnover_usd = some cap }) rows
    else rows ++ record { scope = scope; max_turnover_usd = some cap } ∷ []

abbrev pub stored_cap : ControlScope → List CapRow → Option ℕ
stored_cap scope rows = elim (find (at_scope scope) rows) [
  | none ↦ none
  | some c ↦ c.max_turnover_usd
]

-- `max_turnover_usd is not None and (previous is None or max_turnover_usd < previous)`
abbrev pub is_tightening : Option ℕ → Option ℕ → Bool
is_tightening none previous = false
is_tightening (some cap) none = true
is_tightening (some cap) (some old) = ltb cap old

abbrev pub is_valid_cap : Option ℕ → Bool
is_valid_cap none = true
is_valid_cap (some cap) = ltb 0 cap

abbrev pub caps_mark : Option Anchor → Result StoreError (Option Mark)
caps_mark none = ok none
caps_mark (some a) = anchored (high_water a exposure_caps)

abbrev pub record_caps : Option Anchor → ℕ → Result StoreError (Option Anchor)
record_caps none version = ok none
record_caps (some a) version =
    anchored (record_mark a exposure_caps (record { epoch = version; fence = 0 })) >>= λ b.
    ok (some b)

-- Past the version of the datastore and that of the anchor.
abbrev pub next_version : Store → Option Mark → ℕ
next_version s mark = max s.exposure_caps_version (elim mark [ none ↦ 0 | some m ↦ m.epoch ]) + 1

abbrev pub with_cap : Store → ControlScope → Option ℕ → ℕ → Option Anchor → Store
with_cap s scope cap version a = record s {
  db = record s.db {
    exposure_caps = put_cap scope cap s.exposure_caps;
    exposure_caps_version = version;
  };
  anchor = a;
}

-- A tightened cap commits although the anchor failed.
abbrev pub cap_recorded :
    Store → ControlScope → Option ℕ → ℕ → Result StoreError (Option Anchor) → Tx (Report ℕ)
cap_recorded s scope cap version (ok a) =
    ok (done (count (in_scope scope) s.grants), with_cap s scope cap version a)
cap_recorded s scope cap version (err e) =
    if is_tightening cap (stored_cap scope s.exposure_caps)
    then ok (behind, with_cap s scope cap version s.anchor)
    else err e

-- The number of grant versions in the scope.
unfoldable pub set_exposure_cap : Store → ControlScope → Option ℕ → Bool → Tx (Report ℕ)
set_exposure_cap s scope cap allow_unprovisioned = do
  require_anchor s
  require (is_valid_cap cap) value_error
  require (not (is_unprovisioned s scope allow_unprovisioned)) unknown_principal
  mark ← caps_mark s.anchor
  let version = next_version s mark
  cap_recorded s scope cap version (record_caps s.anchor version)
