-- ===== src/Permits/Effects.antt =====
-- The issuance of a permit affects the datastore by operations of the store only.
use faar_runtime.Common.{ℕ, Option}
use faar_runtime.Common.Result.{Result, ok, err, ok_inj}
use faar_runtime.Models.Grant.{CapabilityGrant, Intent}
use faar_runtime.Models.Requests.{ExecutionRequest, SignedPermit}
use faar_runtime.Store.Schema.{permit_conflict}
use faar_runtime.Store.Steps.{here, next, next_fence, issue, claim}
use faar_runtime.Store.Fences.{next_execution_fence}
use faar_runtime.Store.Permits.{record_execution_permit}
use faar_runtime.Store.Usage.{claim_permit_risk_state, Admission, admitted, rejected}
use faar_runtime.Permits.Issue
use faar_runtime.Permits.Issue.{
  on_record, recorded, minted, on_fence, fenced, on_claim, claimed, issue_reasons, distinct,
}
use faar_runtime.Worker.Defs.{Env, World, Raised, store_error, call}
use faar_runtime.Worker.Judgement.{Credentials}
use faar_runtime.Worker.Effects.{
  IsEffect, Does, Does-call, Does-reading, Does-raise, Does-bind, Does-catch, Does-then, Does-pure,
  effect_rules,
}

module _ (e : Env) {R : World → World → Type 0} (eff : IsEffect e R) where
  on_record-Does : {A : Type 0} (x : Raised) → Does R (on_record e {A = A} x)
  on_record-Does (store_error permit_conflict) = Does-raise e eff _
  on_record-Does other = Does-raise e eff _

  record-Does :
      (permit : ℕ) (i : Intent) (g : CapabilityGrant) (epoch fence hash : ℕ)
      (expires now : Option ℕ)
      → Does R (call e (λ s. record_execution_permit s permit i g epoch fence hash expires now))
  record-Does permit i g epoch fence hash expires now =
      Does-call e eff _ (λ s a t h. next here (issue permit i g epoch fence hash expires now t h))

  recorded-Does :
      (i : Intent) (g : CapabilityGrant) (epoch fence now : ℕ) (p : SignedPermit)
      → Does R (recorded e i g epoch fence now p)
  recorded-Does i g epoch fence now p =
      Does-catch e eff _ _
        (Does-then e eff _ _ (record-Does _ i g epoch fence _ _ _) (Does-pure e eff p))
        on_record-Does

  minted-Does :
      (q : ExecutionRequest) (i : Intent) (g : CapabilityGrant) (x : Credentials) (now : ℕ)
      (r : ℕ × ℕ)
      → Does R (minted e q i g x now r)
  minted-Does q i g x now r = search (effect_rules, recorded-Does, Does-reading e eff)

  fenced-Does :
      (q : ExecutionRequest) (i : Intent) (g : CapabilityGrant) (x : Credentials) (now : ℕ)
      → Does R (fenced e q i g x now)
  fenced-Does q i g x now =
      Does-bind e eff _ (on_fence e q i g x now)
        (search (
          effect_rules,
          Does-call e eff (λ s. next_execution_fence s g)
              (λ s r t h. next here (next_fence g r t h)),
        ))
        by_fence
    where
      by_fence : (r : Result Raised (ℕ × ℕ)) → Does R (on_fence e q i g x now r)
      by_fence (ok r) = minted-Does q i g x now r
      by_fence (err y) = Does-raise e eff _

  claimed-Does :
      (q : ExecutionRequest) (i : Intent) (g : CapabilityGrant) (x : Credentials) (now : ℕ)
      → Does R (claimed e q i g x now)
  claimed-Does q i g x now =
      Does-bind e eff _ (on_claim e q i g x now)
        (search (
          effect_rules,
          Does-call e eff (λ s. ok (claim_permit_risk_state s i g x.risk))
              (λ s r t h. next here (claim i g x.risk r t (ok_inj h))),
        ))
        by_claim
    where
      by_claim : (r : Result Raised Admission) → Does R (on_claim e q i g x now r)
      by_claim (ok admitted) = fenced-Does q i g x now
      by_claim (ok (rejected rs)) = Does-raise e eff _
      by_claim (err y) = Does-raise e eff _

  pub issue-Does :
      (q : ExecutionRequest) (i : Intent) (g : CapabilityGrant) (x : Credentials) (now : ℕ)
      → Does R (Issue.issue e q i g x now)
  unfolding Issue.issue
  issue-Does q i g x now = search (effect_rules, claimed-Does, Does-reading e eff)
