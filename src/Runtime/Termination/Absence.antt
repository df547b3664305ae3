-- ===== src/Runtime/Termination/Absence.antt =====
-- From an absence to a nested reconciliation, while the row is the one that was read.
use faar_runtime.Common.{ℕ, Bool, Option, none, some}
use faar_runtime.Models.Grant.{CapabilityGrant, Intent}
use faar_runtime.Store.Schema.{IntentRow}
use faar_runtime.Worker.Defs.{Env, World, M}
use faar_runtime.Worker.Judgement.{Credentials}
use faar_runtime.Worker.Effects.{Does, IsEffect}
use faar_runtime.Runtime.Calls.{RuntimeResult}
use faar_runtime.Runtime.Submission
use faar_runtime.Runtime.Submission.{Retry}
use faar_runtime.Runtime.Absence
use faar_runtime.Runtime.Absence.{with_credentials}
use faar_runtime.Runtime.Effects.Calls.{stop-Does}
use faar_runtime.Runtime.Effects.Absence.{terminalize-Does, wait-Does}
use faar_runtime.Runtime.Termination.Keeps.{
  IsLeased, Same, Lasts, From, From-Does, From-if, From-bind, From-then, kept-observe, kept-status,
  kept-void_permits, kept-count,
}

module _ (e : Env) {R : World → World → Type 0} (eff : IsEffect e R)
    (lasts : (w u : World) → R w u → Lasts w u) (i : Intent) (g : CapabilityGrant) (retry : Retry)
    (leased : IsLeased e i.intent_id) (P : World → Type 0)
    (stays : (w u : World) → Same i.intent_id w u → P w → P u)
    (begins : (x : Credentials) (now : ℕ) → From P (Submission.begin e retry i g x now)) where
  ends : (m : M RuntimeResult) → Does R m → From P m
  ends m h = From-Does P lasts m h

  checked-From : (x : Credentials) (now : ℕ) → From P (Submission.checked e retry i g x now)
  unfolding Submission.checked
  checked-From x now =
      search
        (
          From-if P,
          From-bind e _ leased P stays,
          kept-status e _ leased,
          ends,
          stop-Does e eff,
          begins,
        )
        depth 14

  pub submit-From : (x : Credentials) → From P (Submission.submit e retry i g x)
  unfolding Submission.submit
  submit-From x =
      search
        (
          From-if P,
          From-bind e _ leased P stays,
          kept-observe e _ leased,
          ends,
          stop-Does e eff,
          checked-From,
        )
        depth 14

  reauthorize-From : (x : Credentials) (now : ℕ) → From P (Absence.reauthorize e retry i g x now)
  unfolding Absence.reauthorize
  reauthorize-From x now =
      search (From-if P, ends, terminalize-Does e eff retry, submit-From) depth 14

  with_credentials-From :
      (x : Option Credentials) (now : ℕ) → From P (with_credentials e retry i g x now)
  with_credentials-From none now = ends _ (terminalize-Does e eff retry _ _ _ _)
  with_credentials-From (some x) now = reauthorize-From x now

  resubmit-From : (x : Option Credentials) (now : ℕ) → From P (Absence.resubmit e retry i g x now)
  unfolding Absence.resubmit
  resubmit-From x now =
      search
        (
          From-if P,
          From-bind e _ leased P stays,
          kept-status e _ leased,
          ends,
          terminalize-Does e eff retry,
          with_credentials-From,
        )
        depth 14

  pub absent-From :
      (stored : IntentRow) (x : Option Credentials) (allow : Bool) (block : Option ℕ) (now : ℕ)
      → From P (Absence.absent e retry stored i g x allow block now)
  unfolding Absence.absent Absence.act_on_absence
  absent-From stored x allow block now =
      search
        (
          From-if P,
          From-bind e _ leased P stays,
          From-then e _ leased P stays,
          kept-void_permits e _ leased,
          kept-count e _ leased,
          ends,
          wait-Does e eff retry,
          stop-Does e eff,
          terminalize-Does e eff retry,
          resubmit-From,
        )
        depth 14
