-- ===== src/Runtime/Effects/Submission.antt =====
-- A submission runs operations of the store, if the reconciliation after it does.
use faar_runtime.Common.{ℕ, Bool, Option, List}
use faar_runtime.Common.Result.{Result, ok, err}
use faar_runtime.Models.Grant.{CapabilityGrant, Intent}
use faar_runtime.Models.Requests.{ExecutionRequest, SignedPermit}
use faar_runtime.Permits.Effects.{issue-Does}
use faar_runtime.Store.Schema.{evidence_integrity}
use faar_runtime.Store.Steps.{Step, here, next}
use faar_runtime.Store.Lifecycle.{
  Submission, started, not_expected, attempt_limit_reached, velocity_limit_reached,
}
use faar_runtime.Worker.Defs.{
  Env, World, Answer, Raised, store_error, permit_issuance_error, transport,
}
use faar_runtime.Worker.Judgement.{Credentials}
use faar_runtime.Worker.Effects.{IsEffect, Does, Does-call, Does-raise, Does-bind, effect_rules}
use faar_runtime.Runtime.Submission
use faar_runtime.Runtime.Submission.{
  Retry, on_receipt, answered, fail_safe, previous_live, refused, issued, begun,
}
use faar_runtime.Runtime.Effects.Calls.{
  change-Does, log-Does, status-Does, current_result-Does, stop-Does,
}

ruleset rules = (effect_rules, change-Does, log-Does, status-Does, current_result-Does, stop-Does)

module _ (e : Env) {R : World → World → Type 0} (eff : IsEffect e R) (retry : Retry)
    (again : (b : Bool) (o : Option ℕ) → Does R (retry b o)) where
  on_receipt-Does : (i : ℕ) (x : Raised) → Does R (on_receipt e retry i x)
  on_receipt-Does i (store_error evidence_integrity) = Does-raise e eff _
  on_receipt-Does i other = log-Does e eff i _

  pub answered-Does : (i : ℕ) (p : SignedPermit) (a : Answer) → Does R (answered e retry i p a)
  answered-Does i p Answer.receipt = search (rules, again, on_receipt-Does) depth 14
  answered-Does i p Answer.ambiguous = search (rules, again) depth 14
  answered-Does i p Answer.deadline_exceeded = search (rules, again) depth 14
  answered-Does i p Answer.deterministic_failure = search (rules, again) depth 14
  answered-Does i p Answer.crashed = search (rules, again) depth 14
  answered-Does i p Answer.interrupted = search (rules) depth 14

  pub refused-Does : (i : ℕ) (codes : List ℕ) → Does R (refused e retry i codes)
  refused-Does i codes = search (rules, again) depth 14

  pub failed-Does : (q : ExecutionRequest) (x : Raised) → Does R (issued e retry q (err x))
  failed-Does q (permit_issuance_error codes) = refused-Does q.intent_id codes
  failed-Does q other = search (rules) depth 14

-- The whole submission, if handing a permit over is such an action.
module _ (e : Env) {R : World → World → Type 0} (eff : IsEffect e R) (retry : Retry)
    (again : (b : Bool) (o : Option ℕ) → Does R (retry b o))
    (sends : (q : ExecutionRequest) (p : SignedPermit) → Does R (transport e q p)) where
  execute-Does : (q : ExecutionRequest) (p : SignedPermit) → Does R (Submission.execute e retry q p)
  unfolding Submission.execute
  execute-Does q p = search (rules, answered-Does e eff retry again) depth 14

  issued-Does :
      (q : ExecutionRequest) (r : Result Raised SignedPermit) → Does R (issued e retry q r)
  issued-Does q (ok p) = execute-Does q p
  issued-Does q (err y) = failed-Does e eff retry again q y

  pub begun-Does :
      (i : Intent) (g : CapabilityGrant) (x : Credentials) (now : ℕ) (r : Submission)
      → Does R (begun e retry i g x now r)
  begun-Does i g x now (started n) = search (rules, issue-Does, issued-Does) depth 14
  begun-Does i g x now (not_expected n) = again _ _
  begun-Does i g x now (attempt_limit_reached n) = search (rules) depth 14
  begun-Does i g x now (velocity_limit_reached n) = search (rules) depth 14

  pub begin-Does :
      (i : Intent) (g : CapabilityGrant) (x : Credentials) (now : ℕ)
      → Does R (Submission.begin e retry i g x now)
  unfolding Submission.begin
  begin-Does i g x now =
      Does-bind e eff _ _ (Does-call e eff _ (λ s r t h. next here (Step.submit _ _ _ now r t h)))
        (begun-Does i g x now)

-- The checks before an attempt, if the attempt is such an action.
module _ (e : Env) {R : World → World → Type 0} (eff : IsEffect e R) (retry : Retry) (i : Intent)
    (begins : (g : CapabilityGrant) (x : Credentials) (now : ℕ)
      → Does R (Submission.begin e retry i g x now)) where
  checked-Does :
      (g : CapabilityGrant) (x : Credentials) (now : ℕ)
      → Does R (Submission.checked e retry i g x now)
  unfolding Submission.checked
  checked-Does g x now = search (rules, begins) depth 14

  pub submit-Does :
      (g : CapabilityGrant) (x : Credentials) → Does R (Submission.submit e retry i g x)
  unfolding Submission.submit
  submit-Does g x = search (rules, checked-Does) depth 14
