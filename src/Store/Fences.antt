-- ===== src/Store/Fences.antt =====
-- next_execution_fence and revoke_after_restore.
use faar_runtime.Common.{ℕ, ◌+◌, max, not, Option, none, some, ◌==◌}
use faar_runtime.Common.Result.{Result, ok, err, ◌>>=◌, ◌>>◌, require, or_raise}
use faar_runtime.Anchor.{Mark, AnchorError, grant_key, Anchor, high_water, reset_mark}
use faar_runtime.Models.Enums.{revoked}
use faar_runtime.Models.Grant.{CapabilityGrant}
use faar_runtime.Store.Schema.{GrantRow, Store, Report, done, behind, unknown_grant, grant_conflict}
use faar_runtime.Store.Access.{
  Tx, find_grant, is_active, mark_of, require_anchor, anchor_regressed, anchor_record, is_halted,
}
use faar_runtime.Store.Grants.{update_grant}

-- The fence counter advances, and the anchor with it, or nothing changes.
unfoldable pub next_execution_fence : Store → CapabilityGrant → Tx (ℕ × ℕ)
next_execution_fence s g = do
  require_anchor s
  row ← or_raise (find_grant s g.grant_id g.version) unknown_grant
  require (row.principal_id == g.principal_id) grant_conflict
  require (is_active row.runtime_status) grant_conflict
  require (not (is_halted s g.principal_id)) grant_conflict
  is_behind ← anchor_regressed s g.grant_id g.version (mark_of row)
  require (not is_behind) grant_conflict
  let counter = row.fence_counter + 1
  a ←
      anchor_record s.anchor g.grant_id g.version
        (record { epoch = row.runtime_epoch; fence = counter })
  let t = update_grant s g.grant_id g.version (λ r. record r { fence_counter = counter })
  ok ((row.runtime_epoch, counter), record t { anchor = a })

-- The mark of the anchor, or (0, 0) where there is none or it cannot be read.
abbrev pub floor_mark : Result AnchorError (Option Mark) → Mark
floor_mark (ok (some m)) = m
floor_mark (ok none) = record { epoch = 0; fence = 0 }
floor_mark (err _) = record { epoch = 0; fence = 0 }

abbrev pub high_mark : Option Anchor → ℕ → ℕ → Result AnchorError (Option Mark)
high_mark none g v = ok none
high_mark (some a) g v = high_water a (grant_key g v)

-- The anchor is reset only if it could be read; its failure is reported after the COMMIT.
abbrev pub reset_anchor :
    Option Anchor
    → ℕ
    → ℕ
    → Mark
    → Result AnchorError (Option Mark)
    → Result AnchorError (Option Anchor)
reset_anchor none g v m read = ok none
reset_anchor (some a) g v m (err e) = err e
reset_anchor (some a) g v m (ok _) = elim (reset_mark a (grant_key g v) m) [
  | ok b ↦ ok (some b)
  | err e ↦ err e
]

abbrev pub report_mark : Store → Mark → Result AnchorError (Option Anchor) → Report Mark × Store
report_mark t m (ok a) = (done m, record t { anchor = a })
report_mark t m (err e) = (behind, t)

-- The row of a version that is closed past every mark that the anchor has.
abbrev pub closed : GrantRow → Mark → GrantRow → GrantRow
closed row m r = record r {
  runtime_status = revoked;
  runtime_epoch = max row.runtime_epoch m.epoch + 1;
  fence_counter = max row.fence_counter m.fence;
}

unfoldable pub revoke_after_restore : Store → ℕ → ℕ → Tx (Report Mark)
revoke_after_restore s g v = do
  require_anchor s
  row ← or_raise (find_grant s g v) unknown_grant
  let read = high_mark s.anchor g v
  let mark = mark_of (closed row (floor_mark read) row)
  ok (
      report_mark (update_grant s g v (closed row (floor_mark read))) mark
        (reset_anchor s.anchor g v mark read))
