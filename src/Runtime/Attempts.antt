-- ===== src/Runtime/Attempts.antt =====
-- Every permit that a worker hands to an adapter is paid for by an attempt that the datastore
-- counted before.
pub mod Counts
use faar_runtime.Common.{
  ℕ, ◌+◌, ◌≤◌, ◌≡◌, refl, sym, subst, Bool, true, false, Option, none, some, List, [], ◌∷◌, arith,
  eq_refl, if◌then◌else◌,
}
use faar_runtime.Common.Result.{Result, ok, err}
use faar_runtime.Models.Enums.{reserved, reconciling}
use faar_runtime.Models.Grant.{CapabilityGrant, Intent}
use faar_runtime.Models.Requests.{ExecutionRequest, SignedPermit, from_intent}
use faar_runtime.Permits.Effects.{issue-Does}
use faar_runtime.Store.Schema.{Store, IntentRow}
use faar_runtime.Store.Access.{Tx}
use faar_runtime.Store.Lifecycle.{
  find_intent, begin_submission, Submission, started, not_expected, attempt_limit_reached,
  velocity_limit_reached,
}
use faar_runtime.Store.Intents.Submission.{submission_within_limits}
use faar_runtime.Store.Progress.Rows.{Advances}
use faar_runtime.Store.Steps.{Step, Run, here, next, Run-Advances}
use faar_runtime.Worker.Defs.{
  exhaust, Env, World, M, Raised, store_unavailable, then_, ◌>>=◌, ◌>>◌, call, committed, transport,
}
use faar_runtime.Worker.Judgement.{Credentials}
use faar_runtime.Worker.Effects.{IsFair, IsEffect, Does, Does-attempt}
use faar_runtime.Runtime.Submission
use faar_runtime.Runtime.Submission.{Retry, issued, begun, answered}
use faar_runtime.Runtime.Reconciliation.{reconcile_again}
use faar_runtime.Runtime.Processing.{process}
use faar_runtime.Runtime.Effects.Calls.{log-Does, stop-Does}
use faar_runtime.Runtime.Effects.Submission.{answered-Does, failed-Does, submit-Does}
use faar_runtime.Runtime.Effects.Absence.{absent-Does}
use faar_runtime.Runtime.Effects.Reconciliation.{ActsOnAbsence, reconcile_again-Does}
use faar_runtime.Runtime.Effects.Processing.{process-Does}
use faar_runtime.Runtime.Attempts.Counts.{
  length, count_in, attempts, attempts-Advances, after, Spends, Spends-IsEffect, Spends-bind,
  Spends-then, transport-Spends,
}

module _ (e : Env) (fair : IsFair e) (i : Intent) (retry : Retry)
    (again : (b : Bool) (o : Option ℕ) → Does (Spends i.intent_id 0) (retry b o)) where
  eff : IsEffect e (Spends i.intent_id 0)
  eff = Spends-IsEffect e i.intent_id fair

  execute-Spends :
      (q : ExecutionRequest) (p : SignedPermit)
      → Does (Spends i.intent_id 1) (Submission.execute e retry q p)
  unfolding Submission.execute
  execute-Spends q p = Spends-then i.intent_id 0 1 _ _ (log-Does e eff _ _) (
      Spends-bind i.intent_id 1 0 _ _ (transport-Spends e _ q p)
        (answered-Does e eff retry again q.intent_id p))

  weaken : {A : Type 0} (m : M A) → Does (Spends i.intent_id 0) m → Does (Spends i.intent_id 1) m
  weaken m h = record { at = λ w. omega (arith, h.at w) }

  issued-Spends :
      (r : Result Raised SignedPermit)
      → Does (Spends i.intent_id 1) (issued e retry (from_intent i) r)
  issued-Spends (ok p) = execute-Spends (from_intent i) p
  issued-Spends (err x) = weaken _ (failed-Does e eff retry again (from_intent i) x)

  started-Spends :
      (g : CapabilityGrant) (x : Credentials) (now n : ℕ)
      → Does (Spends i.intent_id 1) (begun e retry i g x now (started n))
  started-Spends g x now n =
      Spends-bind i.intent_id 0 1 _ _
        (Does-attempt e eff _ (issue-Does e eff (from_intent i) i g x now)) issued-Spends

  -- The attempt that was counted pays for the permit.
  counted :
      (s t : Store) (max_attempts now n : ℕ)
      → begin_submission s i.intent_id (reserved ∷ reconciling ∷ []) max_attempts now
        ≡ ok (started n, t)
      → attempts t i.intent_id ≡ attempts s i.intent_id + 1
  counted s t max_attempts now n h =
      let k = submission_within_limits s t i.intent_id _ max_attempts now n h in
      rw (k.intents i.intent_id, eq_refl i.intent_id, k.found) k.counts

  module _ (g : CapabilityGrant) (x : Credentials) (now : ℕ) where
    moved :
        (w : World) (s t : Store) (r : Submission)
        → s ≡ e.others w.calls w.store
        → begin_submission s i.intent_id
            (reserved ∷ reconciling ∷ [])
            g.limits.max_submission_attempts
            now
          ≡ ok (r, t)
        → Spends i.intent_id 0 w (after w t)
    moved w s t r same h =
        eff.commits w t
          (subst (λ u. Run e.crypto u t) same (next here (Step.submit _ _ _ now r t h)))

    begun-Spends :
        (w : World) (s t : Store) (r : Submission)
        → s ≡ e.others w.calls w.store
        → begin_submission s i.intent_id
            (reserved ∷ reconciling ∷ [])
            g.limits.max_submission_attempts
            now
          ≡ ok (r, t)
        → Spends i.intent_id 0 w (begun e retry i g x now r (after w t)).1
    begun-Spends w s t (started n) same h = omega (
      arith,
      counted s t _ now n h,
      subst (λ u. attempts w.store i.intent_id ≤ attempts u i.intent_id) (sym same)
          (attempts-Advances w.store (e.others w.calls w.store) i.intent_id
            (Run-Advances e.crypto (fair w.calls w.store))),
      (started-Spends g x now n).at (after w t),
    )
    begun-Spends w s t (not_expected n) same h =
        omega (arith, moved w s t _ same h, (again true none).at (after w t))
    begun-Spends w s t (attempt_limit_reached n) same h =
        omega (arith, moved w s t _ same h, (stop-Does e eff _ _ _ _ _).at (after w t))
    begun-Spends w s t (velocity_limit_reached n) same h =
        omega (arith, moved w s t _ same h, (stop-Does e eff _ _ _ _ _).at (after w t))

    begin-Spends : Does (Spends i.intent_id 0) (Submission.begin e retry i g x now)
    unfolding Submission.begin ◌>>=◌ call
    begin-Spends = record {
      at = λ w. unlocked w (e.others w.calls w.store) (e.is_locked w.calls) refl;
    }
      where
        tried :
            (w : World) (s : Store) (r : Tx Submission)
            → s ≡ e.others w.calls w.store
            → begin_submission s i.intent_id
                (reserved ∷ reconciling ∷ [])
                g.limits.max_submission_attempts
                now
              ≡ r
            → Spends i.intent_id 0 w
                (then_ (begun e retry i g x now) (committed w s r).0 (committed w s r).1).1
        tried w s (ok (r, t)) same h = begun-Spends w s t r same h
        tried w s (err y) same h = eff.commits w s (subst (λ u. Run e.crypto u s) same here)

        unlocked :
            (w : World) (s : Store) (b : Bool)
            → s ≡ e.others w.calls w.store
            → let r : Result Raised Submission × World =
                if b
                then (err store_unavailable, after w s)
                else committed w s (
                    begin_submission s i.intent_id
                      (reserved ∷ reconciling ∷ [])
                      g.limits.max_submission_attempts
                      now) in
              Spends i.intent_id 0 w (then_ (begun e retry i g x now) r.0 r.1).1
        unlocked w s true same = eff.commits w s (subst (λ u. Run e.crypto u s) same here)
        unlocked w s false same = tried w s _ same refl

module _ (e : Env) (fair : IsFair e) (i : Intent) (g : CapabilityGrant)
    (x : Option Credentials) where
  acts_Spends :
      (retry : Retry)
      → ((b : Bool) (o : Option ℕ) → Does (Spends i.intent_id 0) (retry b o))
      → ActsOnAbsence e (Spends i.intent_id 0) retry i g x
  acts_Spends retry again row allow block now absence =
      absent-Does e (Spends-IsEffect e i.intent_id fair) retry i g
        (submit-Does e (Spends-IsEffect e i.intent_id fair) retry i
          (begin-Spends e fair i retry again) g)
        row x allow block now

  again_Spends :
      (fuel : ℕ) (b : Bool) (o : Option ℕ)
      → Does (Spends i.intent_id 0) (reconcile_again e fuel i g x b o)
  unfolding exhaust
  again_Spends =
      reconcile_again-Does e (Spends-IsEffect e i.intent_id fair) i g x acts_Spends
        (record { at = λ w. omega arith })

-- A call of `process` hands at most as many permits to adapters as the attempts of the intent that
-- the datastore counts grow from its begin to its end, if what the others do is a history of the
-- store's operations.
pub sent_le_attempts :
    (e : Env) (fuel : ℕ) (i : Intent) (g : CapabilityGrant) (x : Credentials) (w : World)
    → IsFair e
    → attempts w.store i.intent_id + length (process e fuel i g x w).1.sent
      ≤ length w.sent + attempts (process e fuel i g x w).1.store i.intent_id
sent_le_attempts e fuel i g x w fair = omega (
  arith,
  (process-Does e (Spends-IsEffect e i.intent_id fair) fuel i g x
        (again_Spends e fair i g (some x) fuel)
        (submit-Does e (Spends-IsEffect e i.intent_id fair) _ i
          (begin-Spends e fair i _ (again_Spends e fair i g (some x) fuel)) g x)).at
      w,
)
