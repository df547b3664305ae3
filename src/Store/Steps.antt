-- ===== src/Store/Steps.antt =====
-- Every operation of the store as a step, and runs: the histories of a datastore under any mix of
-- callers. SQLite serialises the transactions, so an interleaving of workers is a sequence of steps.
use faar_runtime.Common.{ℕ, ◌≡◌, Bool, Option, List}
use faar_runtime.Common.Result.{ok}
use faar_runtime.Anchor.{Mark}
use faar_runtime.Models.Enums.{GrantStatus, IntentState}
use faar_runtime.Models.Grant.{CapabilityGrant, Intent, RiskSnapshot}
use faar_runtime.Store.Schema.{IntentRow, ControlScope, Store, Report}
use faar_runtime.Store.Grants.{provision_grant, set_grant_status}
use faar_runtime.Store.Fences.{next_execution_fence, revoke_after_restore}
use faar_runtime.Store.Controls.{halt, resume, set_exposure_cap}
use faar_runtime.Store.Permits.{
  record_execution_permit, void_unconsumed_permits, consume_execution_permit, Presented,
  Consumption,
}
use faar_runtime.Store.Usage.{
  reserve_usage, commit_usage, release_usage, claim_permit_risk_state, Admission,
}
use faar_runtime.Store.Evidence.{Crypto, Content, add_evidence}
use faar_runtime.Store.Lifecycle.{register, transition, begin_submission, Change, Submission}
use faar_runtime.Store.Ensures.{Ensures-ok}
use faar_runtime.Store.Progress.Rows.{Advances, Advances-refl, Advances-trans}
use faar_runtime.Store.Progress.Controls.{halt-Advances, resume-Advances, set_exposure_cap-Advances}
use faar_runtime.Store.Progress.Registration.{register-Advances, add_evidence-Advances}
use faar_runtime.Store.Progress.Grants.{
  provision_grant-Advances, set_grant_status-Advances, next_execution_fence-Advances,
  revoke_after_restore-Advances,
}
use faar_runtime.Store.Progress.Permits.{
  record_execution_permit-Advances, void_unconsumed_permits-Advances,
  consume_execution_permit-Advances,
}
use faar_runtime.Store.Progress.Usage.{
  reserve_usage-Advances, commit_usage-Advances, release_usage-Advances,
  claim_permit_risk_state-Advances,
}
use faar_runtime.Store.Progress.Lifecycle.{transition-Advances, begin_submission-Advances}

module _ (c : Crypto) where
  -- An operation that raises leaves the datastore as it is, and is no step.
  pub data Step (s : Store) : Store → Type 0 where
    provision :
        (g : CapabilityGrant) (hash : ℕ) (t : Store)
        → provision_grant s g hash ≡ ok (tt, t)
        → Step s t
    set_status :
        (p g v : ℕ) (status : GrantStatus) (r : Report (Unit {0})) (t : Store)
        → set_grant_status s p g v status ≡ ok (r, t)
        → Step s t
    next_fence :
        (g : CapabilityGrant) (r : ℕ × ℕ) (t : Store)
        → next_execution_fence s g ≡ ok (r, t)
        → Step s t
    restore :
        (g v : ℕ) (r : Report Mark) (t : Store) → revoke_after_restore s g v ≡ ok (r, t) → Step s t
    halt_scope :
        (scope : ControlScope) (reason : Option ℕ) (allow : Bool) (r : Report ℕ) (t : Store)
        → halt s scope reason allow ≡ ok (r, t)
        → Step s t
    resume_scope : (scope : ControlScope) (t : Store) → resume s scope ≡ ok (tt, t) → Step s t
    cap_scope :
        (scope : ControlScope) (cap : Option ℕ) (allow : Bool) (r : Report ℕ) (t : Store)
        → set_exposure_cap s scope cap allow ≡ ok (r, t)
        → Step s t
    issue :
        (permit : ℕ) (i : Intent) (g : CapabilityGrant) (epoch fence hash : ℕ)
        (expires now : Option ℕ) (t : Store)
        → record_execution_permit s permit i g epoch fence hash expires now ≡ ok (tt, t)
        → Step s t
    void : (i ts n : ℕ) (t : Store) → void_unconsumed_permits s i ts ≡ (n, t) → Step s t
    consume :
        (q : Presented) (ts : ℕ) (r : Consumption) (t : Store)
        → consume_execution_permit s q ts ≡ ok (r, t)
        → Step s t
    reserve :
        (i : Intent) (g : CapabilityGrant) (risk : RiskSnapshot) (now : ℕ) (r : Admission)
        (t : Store)
        → reserve_usage s i g risk now ≡ ok (r, t)
        → Step s t
    commit : (i : ℕ) → Step s (commit_usage s i)
    release : (i : ℕ) → Step s (release_usage s i)
    claim :
        (i : Intent) (g : CapabilityGrant) (risk : RiskSnapshot) (r : Admission) (t : Store)
        → claim_permit_risk_state s i g risk ≡ (r, t)
        → Step s t
    register_intent :
        (i : Intent) (hash : ℕ) (x : Content) (r : IntentRow) (t : Store)
        → register c s i hash x ≡ ok (r, t)
        → Step s t
    change :
        (i : ℕ) (expected : List IntentState) (state : IntentState) (d : Change) (r : Bool)
        (t : Store)
        → transition s i expected state d ≡ ok (r, t)
        → Step s t
    submit :
        (i : ℕ) (expected : List IntentState) (max_attempts now : ℕ) (r : Submission) (t : Store)
        → begin_submission s i expected max_attempts now ≡ ok (r, t)
        → Step s t
    append : (i : ℕ) (x : Content) (h : ℕ) (t : Store) → add_evidence c s i x ≡ ok (h, t) → Step s t

  pub data Run (s : Store) : Store → Type 0 where
    here : Run s s
    next : {t u : Store} → Run s t → Step t u → Run s u

  snd_Advances :
      {A : Type 0} (s : Store) (m : A × Store) (a : A) (t : Store)
      → Advances s m.1
      → m ≡ (a, t)
      → Advances s t
  snd_Advances s m a t h e = rw e at h

  pub Step-Advances : {s t : Store} → Step s t → Advances s t
  Step-Advances {s} (provision g hash t e) =
      Ensures-ok (λ _. Advances s) _ tt t (provision_grant-Advances s g hash) e
  Step-Advances {s} (set_status p g v status r t e) =
      Ensures-ok (λ _. Advances s) _ r t (set_grant_status-Advances s p g v status) e
  Step-Advances {s} (next_fence g r t e) =
      Ensures-ok (λ _. Advances s) _ r t (next_execution_fence-Advances s g) e
  Step-Advances {s} (restore g v r t e) =
      Ensures-ok (λ _. Advances s) _ r t (revoke_after_restore-Advances s g v) e
  Step-Advances {s} (halt_scope scope reason allow r t e) =
      Ensures-ok (λ _. Advances s) _ r t (halt-Advances s scope reason allow) e
  Step-Advances {s} (resume_scope scope t e) =
      Ensures-ok (λ _. Advances s) _ tt t (resume-Advances s scope) e
  Step-Advances {s} (cap_scope scope limit allow r t e) =
      Ensures-ok (λ _. Advances s) _ r t (set_exposure_cap-Advances s scope limit allow) e
  Step-Advances {s} (issue permit i g epoch fence hash expires now t e) =
      Ensures-ok (λ _. Advances s) _ tt t
        (record_execution_permit-Advances s permit i g epoch fence hash expires now) e
  Step-Advances {s} (void i ts n t e) =
      snd_Advances s _ n t (void_unconsumed_permits-Advances s i ts) e
  Step-Advances {s} (consume q ts r t e) =
      Ensures-ok (λ _. Advances s) _ r t (consume_execution_permit-Advances s q ts) e
  Step-Advances {s} (reserve i g risk now r t e) =
      Ensures-ok (λ _. Advances s) _ r t (reserve_usage-Advances s i g risk now) e
  Step-Advances {s} (commit i) = commit_usage-Advances s i
  Step-Advances {s} (release i) = release_usage-Advances s i
  Step-Advances {s} (claim i g risk r t e) =
      snd_Advances s _ r t (claim_permit_risk_state-Advances s i g risk) e
  Step-Advances {s} (register_intent i hash x r t e) =
      Ensures-ok (λ _. Advances s) _ r t (register-Advances c s i hash x) e
  Step-Advances {s} (change i expected state d r t e) =
      Ensures-ok (λ _. Advances s) _ r t (transition-Advances s i expected state d) e
  Step-Advances {s} (submit i expected max_attempts now r t e) =
      Ensures-ok (λ _. Advances s) _ r t (begin_submission-Advances s i expected max_attempts now) e
  Step-Advances {s} (append i x h t e) =
      Ensures-ok (λ _. Advances s) _ h t (add_evidence-Advances c s i x) e

  pub Run-Advances : {s t : Store} → Run s t → Advances s t
  Run-Advances {s} here = Advances-refl s
  Run-Advances {s} {t = u} (next {t = t} r st) =
      Advances-trans s t u (Run-Advances r) (Step-Advances st)
