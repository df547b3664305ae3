-- ===== src/Runtime/Termination/Judgement.antt =====
-- From the answer of the verifier to an absence, while the row is the one that was read.
use faar_runtime.Common.{ℕ, Bool, Option, none, some, List}
use faar_runtime.Common.Result.{Result, ok, err}
use faar_runtime.Models.Enums.{SettlementStatus}
use faar_runtime.Models.Grant.{CapabilityGrant, Intent}
use faar_runtime.Store.Schema.{IntentRow, evidence_integrity}
use faar_runtime.Settlement.Quorum.{SettlementRecord}
use faar_runtime.Worker.Defs.{
  Env, World, M, Verification, recorded, raised, malformed, Raised, store_error,
}
use faar_runtime.Worker.Judgement.{Credentials}
use faar_runtime.Worker.Effects.{Does, IsEffect, Does-raise, effect_rules}
use faar_runtime.Runtime.Calls.{RuntimeResult}
use faar_runtime.Runtime.Submission.{Retry}
use faar_runtime.Runtime.Absence
use faar_runtime.Runtime.Judging
use faar_runtime.Runtime.Reconciliation
use faar_runtime.Runtime.Reconciliation.{on_log, failed_lookup, verified}
use faar_runtime.Runtime.Judging.{by_status, stop_or}
use faar_runtime.Runtime.Effects.Calls.{change-Does, log-Does, current_result-Does, stop-Does}
use faar_runtime.Runtime.Effects.Outcomes.{
  undecided-Does, finalize-Does, confirm-Does, keep_open-Does, cancelled-Does,
}
use faar_runtime.Runtime.Termination.Keeps.{
  IsLeased, Same, Lasts, From, From-Does, From-if, From-bind, kept-observe, kept-attempt, kept-log,
}

module _ (e : Env) {R : World → World → Type 0} (eff : IsEffect e R)
    (lasts : (w u : World) → R w u → Lasts w u) (i : Intent) (g : CapabilityGrant)
    (x : Option Credentials) (retry : Retry) (leased : IsLeased e i.intent_id) (P : World → Type 0)
    (stays : (w u : World) → Same i.intent_id w u → P w → P u) (stored : IntentRow)
    (absents : (allow : Bool) (block : Option ℕ) (now : ℕ)
      → From P (Absence.absent e retry stored i g x allow block now)) where
  ends : (m : M RuntimeResult) → Does R m → From P m
  ends m h = From-Does P lasts m h

  by_status-From :
      (allow : Bool) (block : Option ℕ) (now : ℕ) (r : SettlementRecord) (status : SettlementStatus)
      → From P (by_status e retry stored i g x allow block now r status)
  by_status-From allow block now r SettlementStatus.finalized = ends _ (finalize-Does e eff _ r)
  by_status-From allow block now r SettlementStatus.confirmed = ends _ (confirm-Does e eff _ r)
  by_status-From allow block now r SettlementStatus.partially_filled =
      ends _ (keep_open-Does e eff _ r)
  by_status-From allow block now r SettlementStatus.cancelled =
      ends _ (cancelled-Does e eff stored r)
  by_status-From allow block now r SettlementStatus.contradictory =
      ends _ (stop-Does e eff _ _ _ _ _)
  by_status-From allow block now r SettlementStatus.unknown = ends _ (undecided-Does e eff _ _)
  by_status-From allow block now r SettlementStatus.none = absents allow block now

  stop_or-From :
      (o : Option ℕ) (m : M RuntimeResult) → From P m → From P (stop_or e retry stored o m)
  stop_or-From none m h = h
  stop_or-From (some reason) m h = ends _ (stop-Does e eff _ _ _ _ _)

  judge-From :
      (allow : Bool) (block : Option ℕ) (now : ℕ) (r : SettlementRecord)
      → From P (Judging.judge e retry stored i g x allow block now r)
  unfolding Judging.judge
  judge-From allow block now r =
      search (From-if P, ends, undecided-Does e eff, stop-Does e eff, stop_or-From, by_status-From)
        depth 14

  on_log-From :
      (m : M RuntimeResult) (r : Result Raised ℕ) → From P m → From P (on_log e retry stored m r)
  on_log-From m (ok a) h = h
  on_log-From m (err (store_error evidence_integrity)) h = ends _ (Does-raise e eff _)
  on_log-From m (err other) h = ends _ (stop-Does e eff _ _ _ _ _)

  failed_lookup-Does : (reasons : List ℕ) → Does R (failed_lookup e retry i.intent_id reasons)
  failed_lookup-Does reasons =
      search (effect_rules, change-Does e eff, log-Does e eff, current_result-Does e eff) depth 14

  verified-From :
      (allow : Bool) (block : Option ℕ) (now : ℕ) (v : Verification)
      → From P (verified e retry stored i g x allow block now v)
  verified-From allow block now raised = ends _ (failed_lookup-Does _)
  verified-From allow block now malformed = ends _ (stop-Does e eff _ _ _ _ _)
  verified-From allow block now (recorded r) =
      From-bind e _ leased P stays _ _ (kept-attempt e _ leased _ (kept-log e _ leased _))
        (λ a. on_log-From _ a (judge-From allow block now r))

  pub look_up-From :
      (allow : Bool) (block : Option ℕ) (now : ℕ)
      → From P (Reconciliation.look_up e retry stored i g x allow block now)
  unfolding Reconciliation.look_up
  look_up-From allow block now =
      From-bind e _ leased P stays _ _ (kept-observe e _ leased _)
        (λ v. verified-From allow block now v)
