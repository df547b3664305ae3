-- ===== src/Runtime/Termination/Begin.antt =====
-- An attempt that starts is counted, and only then a reconciliation is nested.
use faar_runtime.Common.{
  ℕ, ◌+◌, ◌≤◌, ◌<◌, ◌≡◌, refl, sym, ap, ◌∙◌, Bool, true, false, Option, some, [], ◌∷◌, arith,
  eq_refl, if◌then◌else◌, some_inj,
}
use faar_runtime.Common.Result.{Result, ok, err}
use faar_runtime.Models.Enums.{reserved, reconciling}
use faar_runtime.Models.Grant.{CapabilityGrant, Intent}
use faar_runtime.Models.Requests.{ExecutionRequest, SignedPermit}
use faar_runtime.Store.Schema.{Store, IntentRow}
use faar_runtime.Store.Access.{Tx}
use faar_runtime.Store.Steps.{Run-Advances}
use faar_runtime.Store.Lifecycle.{
  find_intent, is_expected, begin_submission, Submission, started, not_expected,
  attempt_limit_reached, velocity_limit_reached,
}
use faar_runtime.Store.Intents.Submission.{submission_within_limits}
use faar_runtime.Worker.Defs.{
  Env, World, Raised, store_unavailable, then_, ◌>>=◌, call, committed, transport,
}
use faar_runtime.Worker.Judgement.{Credentials}
use faar_runtime.Worker.Effects.{IsEffect, Does, IsFair}
use faar_runtime.Runtime.Submission
use faar_runtime.Runtime.Submission.{Retry, begun}
use faar_runtime.Runtime.Effects.Calls.{stop-Does}
use faar_runtime.Runtime.Effects.Submission.{begun-Does}
use faar_runtime.Runtime.Attempts.Counts.{attempts, attempts-Advances, after}
use faar_runtime.Runtime.Termination.Keeps.{IsLeased, Lasts-IsEffect, At, From}

-- From a world with so many attempts the fuel lasts, and attempts are never taken back.
abbrev pub Fits : ℕ → ℕ → World → World → Type 0
Fits n i w u =
    n ≤ attempts w.store i → w.exhausted ≡ false → (n ≤ attempts u.store i) × (u.exhausted ≡ false)

pub Fits-IsEffect : (e : Env) (n i : ℕ) → IsFair e → IsEffect e (Fits n i)
Fits-IsEffect e n i fair = record {
  stays = λ w p q. (p, q);
  joins = λ u v w h k p q. let (a, b) = h p q in k a b;
  observes = λ w p q. (p, q);
  commits = λ w t r p q. (
    omega (
      arith,
      p,
      attempts-Advances w.store (e.others w.calls w.store) i
          (Run-Advances e.crypto (fair w.calls w.store)),
      attempts-Advances (e.others w.calls w.store) t i (Run-Advances e.crypto r),
    ),
    q,
  );
}

module _ (e : Env) (fair : IsFair e) (i : Intent) (g : CapabilityGrant) (retry : Retry) (n : ℕ)
    (leased : IsLeased e i.intent_id)
    (again : n < g.limits.max_submission_attempts
      → (b : Bool) (o : Option ℕ) → Does (Fits (n + 1) i.intent_id) (retry b o))
    (x : Credentials) (now : ℕ) (row : IntentRow)
    (expected : is_expected row.state (reserved ∷ reconciling ∷ []) ≡ true)
    (count : n ≤ row.submission_count) where
  sends-Fits :
      (q : ExecutionRequest) (p : SignedPermit) → Does (Fits (n + 1) i.intent_id) (transport e q p)
  unfolding transport
  sends-Fits q p = record { at = λ w p q. (p, q) }

  misses :
      (s t : Store) (k : ℕ)
      → find_intent s i.intent_id ≡ some row
      → begin_submission s i.intent_id
          (reserved ∷ reconciling ∷ [])
          g.limits.max_submission_attempts
          now
        ≡ ok (not_expected k, t)
      → ⊥
  unfolding begin_submission
  misses s t k found h = ground arith

  starts :
      (s t : Store) (k : ℕ)
      → find_intent s i.intent_id ≡ some row
      → begin_submission s i.intent_id
          (reserved ∷ reconciling ∷ [])
          g.limits.max_submission_attempts
          now
        ≡ ok (started k, t)
      → (n < g.limits.max_submission_attempts) × (n + 1 ≤ attempts t i.intent_id)
  starts s t k found h =
      let d = submission_within_limits s t i.intent_id _ _ now k h in
      let same : row.submission_count ≡ d.row.submission_count =
        ap (λ (r : IntentRow). r.submission_count) (some_inj (sym found ∙ d.found)) in
      (
        omega (arith, count, same, d.counts, d.within_attempts),
        rw (d.intents i.intent_id, eq_refl i.intent_id) (omega (arith, count, same, d.counts)),
      )

  begun-Lasts :
      (s t : Store) (w : World) (r : Submission)
      → find_intent s i.intent_id ≡ some row
      → begin_submission s i.intent_id
          (reserved ∷ reconciling ∷ [])
          g.limits.max_submission_attempts
          now
        ≡ ok (r, t)
      → w.exhausted ≡ false
      → (begun e retry i g x now r (after w t)).1.exhausted ≡ false
  begun-Lasts s t w (started k) found h fresh =
      let (below, counts) = starts s t k found h in
      ((begun-Does e (Fits-IsEffect e (n + 1) i.intent_id fair) retry (again below) sends-Fits i g x
          now (started k)).at
        (after w t) counts fresh).1
  begun-Lasts s t w (not_expected k) found h fresh = absurd (misses s t k found h)
  begun-Lasts s t w (attempt_limit_reached k) found h fresh =
      (stop-Does e (Lasts-IsEffect e) _ _ _ _ _).at (after w t) fresh
  begun-Lasts s t w (velocity_limit_reached k) found h fresh =
      (stop-Does e (Lasts-IsEffect e) _ _ _ _ _).at (after w t) fresh

  pub begin-From : From (At i.intent_id row) (Submission.begin e retry i g x now)
  unfolding Submission.begin ◌>>=◌ call
  begin-From = record {
    at = λ w p q.
        unlocked w (e.others w.calls w.store) (e.is_locked w.calls) (leased w.calls w.store ∙ p) q;
  }
    where
      tried :
          (w : World) (s : Store) (r : Tx Submission)
          → find_intent s i.intent_id ≡ some row
          → w.exhausted ≡ false
          → begin_submission s i.intent_id
              (reserved ∷ reconciling ∷ [])
              g.limits.max_submission_attempts
              now
            ≡ r
          → (then_ (begun e retry i g x now) (committed w s r).0 (committed w s r).1).1.exhausted
            ≡ false
      tried w s (ok (r, t)) found q h = begun-Lasts s t w r found h q
      tried w s (err y) found q h = q

      unlocked :
          (w : World) (s : Store) (b : Bool)
          → find_intent s i.intent_id ≡ some row
          → w.exhausted ≡ false
          → let r : Result Raised Submission × World =
              if b
              then (err store_unavailable, after w s)
              else committed w s (
                  begin_submission s i.intent_id
                    (reserved ∷ reconciling ∷ [])
                    g.limits.max_submission_attempts
                    now) in
            (then_ (begun e retry i g x now) r.0 r.1).1.exhausted ≡ false
      unlocked w s true found q = q
      unlocked w s false found q = tried w s _ found q refl
