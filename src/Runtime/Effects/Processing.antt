-- ===== src/Runtime/Effects/Processing.antt =====
-- A call of `process` relates the worlds before and after, if what it submits and reconciles does.
use faar_runtime.Common.{ℕ, Bool, Option, some, List, []}
use faar_runtime.Common.Result.{Result, ok, err}
use faar_runtime.Models.Enums.{IntentState, authorized, reserved, Verdict}
use faar_runtime.Models.Grant.{CapabilityGrant, Intent}
use faar_runtime.Store.Schema.{IntentRow, unknown_grant, grant_conflict, ControlStatus}
use faar_runtime.Store.Steps.{Step, here, next}
use faar_runtime.Store.Usage.{Admission, admitted, rejected}
use faar_runtime.Worker.Defs.{Env, Entry, World, Raised, store_error, ◌>>=◌}
use faar_runtime.Worker.Judgement.{Credentials, Judgement}
use faar_runtime.Worker.Effects.{IsEffect, Does, Does-raise, Does-bind, Does-call, effect_rules}
use faar_runtime.Runtime.Submission.{submit}
use faar_runtime.Runtime.Reconciliation.{reconcile_again}
use faar_runtime.Runtime.Processing
use faar_runtime.Runtime.Processing.{
  process, on_admission, by_verdict, on_grant, submit_or_reconcile,
}
use faar_runtime.Runtime.Calls.{change, because}
use faar_runtime.Runtime.Effects.Calls.{
  get-Does, change-Does, log-Does, assert-Does, verify-Does, status-Does, current_result-Does,
  stop_if_possible-Does, release_orphaned_hold-Does, handled-Does, guarded-Does,
}

ruleset rules = (
  effect_rules, get-Does, change-Does, log-Does, status-Does, assert-Does, verify-Does,
  current_result-Does, stop_if_possible-Does, release_orphaned_hold-Does,
)

module _ (e : Env) {R : World → World → Type 0} (eff : IsEffect e R) (fuel : ℕ) (i : Intent)
    (g : CapabilityGrant) (x : Credentials)
    (agains : (b : Bool) (o : Option ℕ) → Does R (reconcile_again e fuel i g (some x) b o))
    (submits : Does R (submit e (reconcile_again e fuel i g (some x)) i g x)) where
  -- The intent is reserved, recorded and submitted.
  reach-Does :
      (entry : Entry)
      → Does R (
          change e i.intent_id authorized reserved (because [])
          >>= submit_or_reconcile e fuel i g x entry)
  reach-Does entry = search (rules) depth 14

module _ (e : Env) {R : World → World → Type 0} (eff : IsEffect e R) (fuel : ℕ) (i : Intent)
    (g : CapabilityGrant) (x : Credentials)
    (agains : (b : Bool) (o : Option ℕ) → Does R (reconcile_again e fuel i g (some x) b o))
    (reaches : (entry : Entry)
      → Does R (
          change e i.intent_id authorized reserved (because [])
          >>= submit_or_reconcile e fuel i g x entry)) where
  register-Does : Does R (Processing.register_intent e fuel i g x)
  unfolding Processing.register_intent
  register-Does = record {
    at = λ w.
        (Does-call e eff _ (λ s r t h. next here (
            Step.register_intent i (e.hashes.intent i) (e.content w.calls Entry.registered) r t
              h))).at
          w;
  }

  end-Does :
      (from_ to_ : IntentState) (reasons : List ℕ) (entry : Entry)
      → Does R (Processing.end e fuel i g x from_ to_ reasons entry)
  unfolding Processing.end
  end-Does from_ to_ reasons entry = search (rules) depth 14

  recover-Does : (now : ℕ) → Does R (Processing.recover e fuel i g x now)
  unfolding Processing.recover
  recover-Does now = search (rules, end-Does) depth 14

  on_admission-Does : (a : Admission) → Does R (on_admission e fuel i g x a)
  on_admission-Does admitted = search (rules) depth 14
  on_admission-Does (rejected rs) = search (rules) depth 14

  admit-Does : (now : ℕ) → Does R (Processing.admit e fuel i g x now)
  unfolding Processing.admit
  admit-Does now =
      Does-bind e eff _ _
        (Does-call e eff _ (λ s r t h. next here (Step.reserve i g x.risk now r t h)))
        on_admission-Does

  by_verdict-Does :
      (now : ℕ) (j : Judgement) (v : Verdict) → Does R (by_verdict e fuel i g x now j v)
  by_verdict-Does now j Verdict.allow = search (rules, end-Does, admit-Does) depth 14
  by_verdict-Does now j other = end-Does _ _ _ _

  decide-Does : (now : ℕ) → Does R (Processing.decide e fuel i g x now)
  unfolding Processing.decide
  decide-Does now = search (rules, end-Does, by_verdict-Does) depth 14

  inactive-Does :
      (row : IntentRow) (status : ControlStatus)
      → Does R (Processing.inactive e fuel i g x row status)
  unfolding Processing.inactive
  inactive-Does row status = search (rules, end-Does) depth 14

  with_status-Does :
      (now : ℕ) (row : IntentRow) → Does R (Processing.with_status e fuel i g x now row)
  unfolding Processing.with_status
  with_status-Does now row = search (rules, inactive-Does, recover-Does, decide-Does) depth 14

  on_grant-Does :
      (now : ℕ) (row : IntentRow) (r : Result Raised (Unit {0}))
      → Does R (on_grant e fuel i g x now row r)
  on_grant-Does now row (ok a) = search (rules, with_status-Does) depth 14
  on_grant-Does now row (err (store_error unknown_grant)) = stop_if_possible-Does e eff row _
  on_grant-Does now row (err (store_error grant_conflict)) = stop_if_possible-Does e eff row _
  on_grant-Does now row (err other) = Does-raise e eff _

  unlocked-Does : (now : ℕ) → Does R (Processing.process_unlocked e fuel i g x now)
  unfolding Processing.process_unlocked
  unlocked-Does now = search (rules, register-Does, on_grant-Does) depth 14

  -- What is asked of a submission is asked where the intent was reserved.
  pub reaching-Does : Does R (process e fuel i g x)
  unfolding process
  reaching-Does = search (rules, register-Does, unlocked-Does, handled-Does, guarded-Does) depth 14

module _ (e : Env) {R : World → World → Type 0} (eff : IsEffect e R) (fuel : ℕ) (i : Intent)
    (g : CapabilityGrant) (x : Credentials)
    (agains : (b : Bool) (o : Option ℕ) → Does R (reconcile_again e fuel i g (some x) b o))
    (submits : Does R (submit e (reconcile_again e fuel i g (some x)) i g x)) where
  pub process-Does : Does R (process e fuel i g x)
  process-Does = reaching-Does e eff fuel i g x agains (reach-Does e eff fuel i g x agains submits)
