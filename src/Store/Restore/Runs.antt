-- ===== src/Store/Restore/Runs.antt =====
-- No step, and so no run, lowers a mark of the anchor.
use faar_runtime.Common.{ℕ, sym, subst}
use faar_runtime.Store.Schema.{Store}
use faar_runtime.Store.Usage.{commit_usage, release_usage}
use faar_runtime.Store.Evidence.{Crypto}
use faar_runtime.Store.Ensures.{Ensures-ok}
use faar_runtime.Store.Steps.{
  Step, Run, here, next, provision, set_status, next_fence, restore, halt_scope, resume_scope,
  cap_scope, issue, void, consume, reserve, commit, release, claim, register_intent, change, submit,
  append,
}
use faar_runtime.Store.Restore.Marks.{NeverLowers}
use faar_runtime.Store.Restore.RaisedByStops.{
  revoke_after_restore-Raises, halt-Raises, set_exposure_cap-Raises,
  consume_execution_permit-Raises,
}
use faar_runtime.Store.Restore.Raised.{
  Raises, same_marks, provision_grant-Raises, next_execution_fence-Raises, set_grant_status-Raises,
}
use faar_runtime.Store.Restore.Untouched.{
  SameAnchor, resume-SameAnchor, record_execution_permit-SameAnchor,
  void_unconsumed_permits-SameAnchor, reserve_usage-SameAnchor, claim_permit_risk_state-SameAnchor,
  register-SameAnchor, transition-SameAnchor, begin_submission-SameAnchor, add_evidence-SameAnchor,
}

unchanged : (s t : Store) → SameAnchor s t → Raises s t
unchanged s t e = subst (NeverLowers s.anchor) (sym e) (same_marks s.anchor)

module _ (c : Crypto) where
  Step-Raises : {s t : Store} → Step c s t → Raises s t
  unfolding commit_usage release_usage
  Step-Raises {s} (provision g hash t e) =
      Ensures-ok (λ _. Raises s) _ tt t (provision_grant-Raises s g hash) e
  Step-Raises {s} (set_status p g v status r t e) =
      Ensures-ok (λ _. Raises s) _ r t (set_grant_status-Raises s p g v status) e
  Step-Raises {s} (next_fence g r t e) =
      Ensures-ok (λ _. Raises s) _ r t (next_execution_fence-Raises s g) e
  Step-Raises {s} (restore g v r t e) =
      Ensures-ok (λ _. Raises s) _ r t (revoke_after_restore-Raises s g v) e
  Step-Raises {s} (halt_scope scope reason allow r t e) =
      Ensures-ok (λ _. Raises s) _ r t (halt-Raises s scope reason allow) e
  Step-Raises {s} (resume_scope scope t e) =
      unchanged s t (Ensures-ok (λ _. SameAnchor s) _ tt t (resume-SameAnchor s scope) e)
  Step-Raises {s} (cap_scope scope limit allow r t e) =
      Ensures-ok (λ _. Raises s) _ r t (set_exposure_cap-Raises s scope limit allow) e
  Step-Raises {s} (issue permit i g epoch fence hash expires now t e) = unchanged s t (
      Ensures-ok (λ _. SameAnchor s) _ tt t
        (record_execution_permit-SameAnchor s permit i g epoch fence hash expires now) e)
  Step-Raises {s} (void i ts n t e) =
      unchanged s t
        (subst (λ (m : ℕ × Store). SameAnchor s m.1) e (void_unconsumed_permits-SameAnchor s i ts))
  Step-Raises {s} (consume q ts r t e) =
      Ensures-ok (λ _. Raises s) _ r t (consume_execution_permit-Raises s q ts) e
  Step-Raises {s} (reserve i g risk now r t e) =
      unchanged s t
        (Ensures-ok (λ _. SameAnchor s) _ r t (reserve_usage-SameAnchor s i g risk now) e)
  Step-Raises {s} (commit i) = same_marks s.anchor
  Step-Raises {s} (release i) = same_marks s.anchor
  Step-Raises {s} (claim i g risk r t e) =
      unchanged s t
        (subst (λ m. SameAnchor s m.1) e (claim_permit_risk_state-SameAnchor s i g risk))
  Step-Raises {s} (register_intent i hash x r t e) =
      unchanged s t (Ensures-ok (λ _. SameAnchor s) _ r t (register-SameAnchor c s i hash x) e)
  Step-Raises {s} (change i expected state d r t e) =
      unchanged s t
        (Ensures-ok (λ _. SameAnchor s) _ r t (transition-SameAnchor s i expected state d) e)
  Step-Raises {s} (submit i expected max_attempts now r t e) = unchanged s t (
      Ensures-ok (λ _. SameAnchor s) _ r t
        (begin_submission-SameAnchor s i expected max_attempts now) e)
  Step-Raises {s} (append i x h t e) =
      unchanged s t (Ensures-ok (λ _. SameAnchor s) _ h t (add_evidence-SameAnchor c s i x) e)

  pub Run-Raises : {s t : Store} → Run c s t → Raises s t
  Run-Raises {s} here = same_marks s.anchor
  Run-Raises {s} {t = u} (next {t = t} r st) = λ k m h. Step-Raises st k m (Run-Raises r k m h)
