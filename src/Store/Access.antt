-- ===== src/Store/Access.antt =====
-- The transactions of the store and the lookups that its operations share.
use faar_runtime.Common.{
  ℕ, Bool, true, false, ◌&&◌, ◌||◌, Option, none, some, is_none, ◌==◌, if◌then◌else◌,
}
use faar_runtime.Common.Result.{Result, ok, err, ◌>>=◌}
use faar_runtime.Table.{find, exists, count}
use faar_runtime.Anchor.{Mark, grant_key, Anchor, AnchorError, high_water, record_mark, regressed}
use faar_runtime.Models.Enums.{GrantStatus, active, paused, revoked}
use faar_runtime.Store.Schema.{
  GrantRow, ControlScope, global, principal, ControlRow, Store, StoreError, anchor_missing,
  anchor_unavailable,
}

-- What a transaction ends with: COMMIT with a value, or ROLLBACK with the exception.
abbrev pub Tx : Type 0 → Type 0
Tx A = Result StoreError (A × Store)

-- A call of a transaction: the datastore after a ROLLBACK is the one before it.
abbrev pub atomically : {A : Type 0} → Store → Tx A → Result StoreError A × Store
atomically s (ok (a, t)) = (ok a, t)
atomically s (err e) = (err e, s)

-- WHERE grant_id=? AND version=?
abbrev pub at_grant : ℕ → ℕ → GrantRow → Bool
at_grant g v row = row.grant_id == g && row.version == v

abbrev pub find_grant : Store → ℕ → ℕ → Option GrantRow
find_grant s g v = find (at_grant g v) s.grants

abbrev pub is_active : GrantStatus → Bool
is_active active = true
is_active _ = false

abbrev pub is_revoked : GrantStatus → Bool
is_revoked revoked = true
is_revoked _ = false

abbrev pub same_status : GrantStatus → GrantStatus → Bool
same_status active active = true
same_status paused paused = true
same_status revoked revoked = true
same_status _ _ = false

abbrev pub same_scope : ControlScope → ControlScope → Bool
same_scope global global = true
same_scope (principal p) (principal q) = p == q
same_scope _ _ = false

abbrev pub mark_of : GrantRow → Mark
mark_of row = record { epoch = row.runtime_epoch; fence = row.fence_counter }

-- _anchor_missing
unfoldable pub is_anchor_missing : Store → Bool
is_anchor_missing s = s.anchor_required && is_none s.anchor

-- _require_anchor
unfoldable pub require_anchor : Store → Result StoreError (Unit {0})
unfolding is_anchor_missing
require_anchor s = if is_anchor_missing s then err anchor_missing else ok tt

-- every failure of the anchor reaches the caller as AnchorUnavailable
abbrev pub anchored : {A : Type 0} → Result AnchorError A → Result StoreError A
anchored (ok a) = ok a
anchored (err _) = err anchor_unavailable

-- _anchor_regressed
unfoldable pub anchor_regressed : Store → ℕ → ℕ → Mark → Result StoreError Bool
unfolding high_water
anchor_regressed s g v m = elim s.anchor [
  | none ↦ ok false
  | some a ↦ anchored (high_water a (grant_key g v)) >>= λ mark. ok (regressed m mark)
]

-- _anchor_record
unfoldable pub anchor_record : Option Anchor → ℕ → ℕ → Mark → Result StoreError (Option Anchor)
anchor_record none g v m = ok none
anchor_record (some a) g v m = anchored (record_mark a (grant_key g v) m) >>= λ b. ok (some b)

-- WHERE halted=1 AND (scope='global' OR scope='principal:<id>')
abbrev pub halts : ℕ → ControlRow → Bool
halts p c = c.halted && (same_scope c.scope global || same_scope c.scope (principal p))

-- _active_halt_locked: whether a scope of the principal is halted
unfoldable pub is_halted : Store → ℕ → Bool
is_halted s p = exists (halts p) s.runtime_controls

-- _principal_grant_count_locked
unfoldable pub principal_grant_count : Store → ℕ → ℕ
principal_grant_count s p = count (λ (r : GrantRow). r.principal_id == p) s.grants
