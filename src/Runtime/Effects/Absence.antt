-- ===== src/Runtime/Effects/Absence.antt =====
-- What is done with an authoritative NONE relates the worlds before and after, if a submission does.
use faar_runtime.Common.{ℕ, Bool, Option, none, some, List}
use faar_runtime.Models.Enums.{IntentState}
use faar_runtime.Models.Grant.{CapabilityGrant, Intent}
use faar_runtime.Store.Schema.{IntentRow}
use faar_runtime.Worker.Defs.{Env, World, Entry}
use faar_runtime.Worker.Judgement.{Credentials}
use faar_runtime.Worker.Effects.{IsEffect, Does, Does-if, effect_rules}
use faar_runtime.Runtime.Submission.{Retry, submit}
use faar_runtime.Runtime.Absence
use faar_runtime.Runtime.Absence.{with_credentials}
use faar_runtime.Runtime.Effects.Calls.{
  get-Does, change-Does, log-Does, assert-Does, verify-Does, status-Does, count-Does,
  void_permits-Does, current_result-Does, stop-Does,
}

ruleset rules = (
  effect_rules, get-Does, change-Does, log-Does, status-Does, count-Does, void_permits-Does,
  assert-Does, verify-Does, current_result-Does, stop-Does,
)

module _ (e : Env) {R : World → World → Type 0} (eff : IsEffect e R) (retry : Retry) where
  pub terminalize-Does :
      (i : ℕ) (state : IntentState) (reasons : List ℕ) (entry : Entry)
      → Does R (Absence.terminalize e retry i state reasons entry)
  unfolding Absence.terminalize
  terminalize-Does i state reasons entry = search (rules) depth 14

  pub wait-Does : (i : ℕ) (block : Option ℕ) → Does R (Absence.wait_for_window e retry i block)
  unfolding Absence.wait_for_window
  wait-Does i block = search (rules) depth 14

module _ (e : Env) {R : World → World → Type 0} (eff : IsEffect e R) (retry : Retry) (i : Intent)
    (g : CapabilityGrant) (submits : (x : Credentials) → Does R (submit e retry i g x)) where
  reauthorize-Does : (x : Credentials) (now : ℕ) → Does R (Absence.reauthorize e retry i g x now)
  unfolding Absence.reauthorize
  reauthorize-Does x now = Does-if e eff _ _ _ (terminalize-Does e eff retry _ _ _ _) (submits x)

  with_credentials-Does :
      (x : Option Credentials) (now : ℕ) → Does R (with_credentials e retry i g x now)
  with_credentials-Does none now = terminalize-Does e eff retry _ _ _ _
  with_credentials-Does (some x) now = reauthorize-Does x now

  pub resubmit-Does :
      (x : Option Credentials) (now : ℕ) → Does R (Absence.resubmit e retry i g x now)
  unfolding Absence.resubmit
  resubmit-Does x now = search (rules, terminalize-Does e eff retry, with_credentials-Does) depth 14

  pub absent-Does :
      (row : IntentRow) (x : Option Credentials) (allow : Bool) (block : Option ℕ) (now : ℕ)
      → Does R (Absence.absent e retry row i g x allow block now)
  unfolding Absence.absent
  absent-Does row x allow block now =
      search (rules, wait-Does e eff retry, terminalize-Does e eff retry, resubmit-Does) depth 14
