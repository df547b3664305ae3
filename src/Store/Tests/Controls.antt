-- ===== src/Store/Tests/Controls.antt =====
-- Stops, caps and a second permit on the fixtures.
use faar_runtime.Common.{◌≡◌, ◌≢◌, ◌↔◌, refl, arith, false, none, some}
use faar_runtime.Common.Result.{ok}
use faar_runtime.Table.{find}
use faar_runtime.Anchor.{Anchor}
use faar_runtime.Models.Enums.{active, reserved}
use faar_runtime.Models.Grant.{Intent}
use faar_runtime.Store.Schema.{Store, runtime, global, done}
use faar_runtime.Store.Access.{find_grant}
use faar_runtime.Store.Fences.{revoke_after_restore}
use faar_runtime.Store.Controls.{halt, set_exposure_cap}
use faar_runtime.Store.Permits.{
  record_execution_permit, consume_execution_permit, consumed, at_permit,
}
use faar_runtime.Store.Steps.{here}
use faar_runtime.Store.Grants.{get_grant_control}
use faar_runtime.Store.Authority.Consumption.{IsGranted}
use faar_runtime.Store.Authority.Reported.{active_iff-IsGranted}
use faar_runtime.Store.Authority.Stops.{Commits, stops_commit, cap_needs_mark}
use faar_runtime.Store.Authority.Supersession.{superseded_for_good}
use faar_runtime.Store.Tests.Fixtures.{
  grant, grant_row, payment, permit, presented, anchor, store_at, after, crypto,
}

-- The anchor answers nothing.
abbrev silent : Anchor
silent = record anchor { readable = λ _. false; writable = λ _. false }

abbrev cut_off : Store
cut_off = record (store_at reserved) { anchor = some silent }

found_cut_off : find_grant cut_off 10 1 ≡ some grant_row
unfolding find
found_cut_off = refl

stops_commit_example :
    Commits (halt cut_off global (some 3) false) × Commits (revoke_after_restore cut_off 10 1)
stops_commit_example = stops_commit cut_off global 3 false 10 1 grant_row refl refl found_cut_off

cap_needs_mark_example : set_exposure_cap cut_off global (some 1) false ≢ ok (done 1, cut_off)
cap_needs_mark_example =
    cap_needs_mark cut_off silent global (some 1) false (done 1) cut_off refl refl

abbrev store : Store
store = store_at reserved

abbrev retry : Intent
retry = record payment { intent_id = 100 }

abbrev reissued : Store
reissued = after store (record_execution_permit store 901 retry grant 1 2 67 none (some 8))

reissue_eq : record_execution_permit store 901 retry grant 1 2 67 none (some 8) ≡ ok (tt, reissued)
unfolding record_execution_permit faar_runtime.Table.exists
reissue_eq = refl

found_first : find (at_permit 900) store.execution_permits ≡ some permit
unfolding find
found_first = refl

superseded_for_good_example : consume_execution_permit reissued presented 9 ≢ ok (consumed, store)
superseded_for_good_example =
    superseded_for_good crypto store reissued reissued store 901 retry grant 1 2 67 none (some 8)
      presented 9 permit found_first refl (ground arith) reissue_eq here

found_row : find_grant store 10 1 ≡ some grant_row
unfolding find
found_row = refl

active_iff-IsGranted_example :
    IsGranted store presented grant_row
    ↔ (get_grant_control store 1 10 1 ≡ ok (runtime active, 1, 1))
active_iff-IsGranted_example = active_iff-IsGranted store presented grant_row found_row
