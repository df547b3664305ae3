-- ===== src/Store/Tests/Authority.antt =====
-- Permits, fences and restores on the fixtures.
use faar_runtime.Common.{
  ◌+◌, ◌≡◌, ◌≢◌, refl, arith, true, false, Option, some, [], ◌∷◌, if◌then◌else◌,
}
use faar_runtime.Common.Result.{ok}
use faar_runtime.Table.{find}
use faar_runtime.Anchor.{Anchor, same_key, grant_key, max_mark}
use faar_runtime.Models.Enums.{paused, revoked, reserved}
use faar_runtime.Store.Schema.{GrantRow, PermitRow, Store, done, global}
use faar_runtime.Store.Access.{find_grant, is_revoked, anchor_record}
use faar_runtime.Store.Grants.{set_grant_status}
use faar_runtime.Store.Fences.{next_execution_fence}
use faar_runtime.Store.Controls.{halt}
use faar_runtime.Store.Permits.{
  consume_execution_permit, void_unconsumed_permits, consumed, refused, already_consumed, at_permit,
}
use faar_runtime.Store.Steps.{here}
use faar_runtime.Store.Authority.Consumption.{
  IsAccepted, IsGranted, IsSpent, consumption_sound, refused_keeps,
}
use faar_runtime.Store.Authority.Completeness.{consumption_complete}
use faar_runtime.Store.Authority.Fencing.{single_use, void_kills, halt_fences, status_change_fences}
use faar_runtime.Store.Authority.Revocation.{revoked_for_good}
use faar_runtime.Store.Restore.Detection.{restored, restore_after_consumption}
use faar_runtime.Store.Tests.Fixtures.{
  grant, grant_row, permit, presented, anchor, store_at, after, crypto,
}

abbrev store : Store
store = store_at reserved

abbrev spent : Store
spent = after store (consume_execution_permit store presented 5)

spent_eq : consume_execution_permit store presented 5 ≡ ok (consumed, spent)
unfolding consume_execution_permit find faar_runtime.Table.exists
    faar_runtime.Store.Access.is_halted faar_runtime.Store.Access.is_anchor_missing
    faar_runtime.Store.Access.anchor_regressed faar_runtime.Anchor.regressed same_key anchor_record
    faar_runtime.Anchor.record_mark
spent_eq = refl

consumption_sound_example :
    ((p : PermitRow) × IsAccepted store presented p) × IsSpent store presented 5 spent
consumption_sound_example = consumption_sound store presented 5 spent spent_eq

granted : IsGranted store presented grant_row
unfolding faar_runtime.Store.Access.is_halted faar_runtime.Table.exists
    faar_runtime.Store.Access.is_anchor_missing faar_runtime.Store.Access.anchor_regressed
    faar_runtime.Anchor.regressed same_key
granted = record {
  principal = refl;
  active = refl;
  epoch = refl;
  not_halted = refl;
  anchor_present = refl;
  not_regressed = refl;
}

accepted : IsAccepted store presented permit
unfolding find faar_runtime.Table.exists
accepted = record {
  recorded = refl;
  bound = refl;
  unconsumed = refl;
  unvoided = refl;
  last = refl;
  row = grant_row;
  provisioned = refl;
  granted = granted;
}

abbrev marked : Option Anchor
marked = some (record anchor {
  marks = λ k.
      if same_key (grant_key 10 1) k
      then some (record { epoch = 1; fence = 2 })
      else anchor.marks k;
})

marked_eq :
    anchor_record store.anchor 10 1 (record { epoch = 1; fence = accepted.row.fence_counter + 1 })
    ≡ ok marked
unfolding anchor_record faar_runtime.Anchor.record_mark accepted
marked_eq = refl

consumption_complete_example :
    (t : Store) × (consume_execution_permit store presented 5 ≡ ok (consumed, t))
consumption_complete_example =
    consumption_complete store presented 5 permit accepted marked marked_eq

again_eq : consume_execution_permit spent presented 6 ≡ ok (refused (already_consumed ∷ []), spent)
unfolding consume_execution_permit find faar_runtime.Table.exists
    faar_runtime.Store.Access.is_halted faar_runtime.Store.Access.is_anchor_missing
    faar_runtime.Store.Access.anchor_regressed faar_runtime.Anchor.regressed same_key anchor_record
    faar_runtime.Anchor.record_mark faar_runtime.Table.update
again_eq = refl

refused_keeps_example : spent ≡ spent
refused_keeps_example = refused_keeps spent presented 6 (already_consumed ∷ []) spent again_eq

single_use_example : consume_execution_permit spent presented 6 ≢ ok (consumed, store)
single_use_example =
    single_use crypto store spent spent store presented presented 5 6 spent_eq here refl

abbrev cleared : Store
cleared = (void_unconsumed_permits store 100 4).1

found_permit : find (at_permit 900) store.execution_permits ≡ some permit
unfolding find
found_permit = refl

void_kills_example : consume_execution_permit cleared presented 6 ≢ ok (consumed, store)
void_kills_example =
    void_kills crypto store cleared store presented 100 4 6 permit found_permit refl refl here

found_grant : find_grant store 10 1 ≡ some grant_row
unfolding find
found_grant = refl

abbrev halted_store : Store
halted_store = after store (halt store global (some 3) false)

halt_eq : halt store global (some 3) false ≡ ok (done 1, halted_store)
unfolding halt faar_runtime.Store.Access.require_anchor faar_runtime.Store.Controls.anchor_rows
    faar_runtime.Table.select faar_runtime.Table.update faar_runtime.Anchor.record_mark
    faar_runtime.Table.count
halt_eq = refl

halt_fences_example : consume_execution_permit halted_store presented 6 ≢ ok (consumed, store)
halt_fences_example =
    halt_fences crypto store halted_store halted_store store global (some 3) false (done 1)
      presented 6 permit grant_row halt_eq found_permit found_grant refl (ground arith) here

abbrev paused_store : Store
paused_store = after store (set_grant_status store 1 10 1 paused)

pause_eq : set_grant_status store 1 10 1 paused ≡ ok (done tt, paused_store)
unfolding set_grant_status faar_runtime.Store.Access.require_anchor find
    faar_runtime.Store.Access.anchor_regressed faar_runtime.Anchor.regressed same_key
    faar_runtime.Anchor.record_mark
pause_eq = refl

status_change_fences_example :
    consume_execution_permit paused_store presented 6 ≢ ok (consumed, store)
status_change_fences_example =
    status_change_fences crypto store paused_store paused_store store 1 paused (done tt) presented 6
      permit grant_row pause_eq found_permit found_grant refl (ground arith) here

abbrev revoked_store : Store
revoked_store = after store (set_grant_status store 1 10 1 revoked)

abbrev revoked_row : GrantRow
revoked_row = record grant_row { runtime_status = revoked; runtime_epoch = 2 }

found_revoked : find_grant revoked_store 10 1 ≡ some revoked_row
unfolding find set_grant_status faar_runtime.Store.Access.require_anchor
    faar_runtime.Store.Access.anchor_regressed faar_runtime.Anchor.regressed same_key
    faar_runtime.Anchor.record_mark faar_runtime.Table.update
found_revoked = refl

revoked_for_good_example :
    ((later : GrantRow) × (find_grant revoked_store 10 1 ≡ some later)
      × (is_revoked later.runtime_status ≡ true))
    × (next_execution_fence revoked_store grant ≢ ok ((2, 2), store))
    × (consume_execution_permit revoked_store presented 6 ≢ ok (consumed, store))
revoked_for_good_example =
    revoked_for_good crypto revoked_store revoked_store store grant revoked_row (2, 2) presented 6
      found_revoked refl here refl refl

-- The copy that is restored is the datastore from before the consumption.
restore_after_consumption_example :
    (consume_execution_permit (restored store spent) presented 9 ≢ ok (consumed, store))
    × (next_execution_fence (restored store spent) grant ≢ ok ((1, 2), store))
restore_after_consumption_example =
    restore_after_consumption crypto store spent spent store anchor presented presented grant 5 9
      (1, 2) refl spent_eq here refl refl refl refl
