-- ===== src/Runtime/Authorization.antt =====
-- Nothing is handed to an adapter without credentials that are trusted and allowed.
use faar_runtime.Common.{
  ℕ, ◌≡◌, refl, ◌∙◌, Bool, false, not, ◌&&◌, Option, none, some, arith, if◌then◌else◌,
}
use faar_runtime.Models.Grant.{CapabilityGrant, Intent, is_empty}
use faar_runtime.Worker.Defs.{exhaust, Env, World, M}
use faar_runtime.Worker.Judgement.{Credentials, is_allow, dominant, evaluate_fresh}
use faar_runtime.Worker.Effects.{
  IsEffect, Does, Does-if, Does-test, Does-bind, Does-observe, effect_rules,
}
use faar_runtime.Runtime.Calls.{RuntimeResult}
use faar_runtime.Runtime.Submission
use faar_runtime.Runtime.Submission.{Retry}
use faar_runtime.Runtime.Absence
use faar_runtime.Runtime.Absence.{with_credentials}
use faar_runtime.Runtime.Reconciliation.{reconcile}
use faar_runtime.Runtime.Processing.{process}
use faar_runtime.Runtime.Effects.Calls.{status-Does, count-Does, void_permits-Does, stop-Does}
use faar_runtime.Runtime.Effects.Absence.{wait-Does, terminalize-Does}
use faar_runtime.Runtime.Effects.Reconciliation.{
  ActsOnAbsence, reconcile-Does, reconcile_again-Does,
}
use faar_runtime.Runtime.Effects.Processing.{process-Does}

-- No permit was handed over.
abbrev Hands : World → World → Type 0
Hands w u = u.sent ≡ w.sent

Hands-IsEffect : (e : Env) → IsEffect e Hands
Hands-IsEffect e = record {
  stays = λ w. refl;
  joins = λ u v w p q. q ∙ p;
  observes = λ w. refl;
  commits = λ w t r. refl;
}

module _ (e : Env) {R : World → World → Type 0} (eff : IsEffect e R) (retry : Retry) (i : Intent)
    (g : CapabilityGrant) where
  -- Without credentials the absence ends the intent.
  without-Does : ActsOnAbsence e R retry i g none
  unfolding Absence.absent Absence.act_on_absence Absence.resubmit
  without-Does row allow block now absence =
      search
        (
          effect_rules,
          status-Does e eff,
          count-Does e eff,
          void_permits-Does e eff,
          stop-Does e eff,
          wait-Does e eff retry,
          terminalize-Does e eff retry,
        )
        depth 14

-- At no time are both attestations trusted and do all gates allow.
abbrev pub IsRefused : Env → Intent → CapabilityGrant → Credentials → Type 0
IsRefused e i g x =
    (t : ℕ)
    → (is_empty (evaluate_fresh e i g x t).trust_reasons
        && is_allow (dominant (evaluate_fresh e i g x t)))
      ≡ false

module _ (e : Env) {R : World → World → Type 0} (eff : IsEffect e R) (i : Intent)
    (g : CapabilityGrant) (x : Credentials) (refused : IsRefused e i g x) where
  -- What would follow an authorization is not reached.
  refused-Does :
      (now : ℕ) (m n : M RuntimeResult)
      → Does R m
      → Does R (
          if not (
            is_empty (evaluate_fresh e i g x now).trust_reasons
            && is_allow (dominant (evaluate_fresh e i g x now)))
          then m
          else n)
  refused-Does now m n h =
      Does-test e eff _ m n (λ _. h) (λ allowed. absurd (clash _ (refused now) allowed))
    where
      clash : (b : Bool) → b ≡ false → not b ≡ false → ⊥
      clash b p q = ground arith

  submit-Does : (retry : Retry) → Does R (Submission.submit e retry i g x)
  unfolding Submission.submit
  submit-Does retry = Does-bind e eff _ _ (Does-observe e eff _) λ orphans.
      Does-bind e eff _ _ (Does-observe e eff _)
        λ now. search (effect_rules, stop-Does e eff, refused-Does now) depth 14

  module _ (retry : Retry) where
    reauthorize-Does : (now : ℕ) → Does R (Absence.reauthorize e retry i g x now)
    unfolding Absence.reauthorize
    reauthorize-Does now =
        Does-if e eff _ _ _ (terminalize-Does e eff retry _ _ _ _) (submit-Does retry)

    resubmit-Does : (now : ℕ) → Does R (Absence.resubmit e retry i g (some x) now)
    unfolding Absence.resubmit
    resubmit-Does now =
        search (effect_rules, status-Does e eff, terminalize-Does e eff retry, reauthorize-Does)
          depth 14

    acts-Does : ActsOnAbsence e R retry i g (some x)
    unfolding Absence.absent Absence.act_on_absence
    acts-Does row allow block now absence =
        search
          (
            effect_rules,
            count-Does e eff,
            void_permits-Does e eff,
            stop-Does e eff,
            wait-Does e eff retry,
            terminalize-Does e eff retry,
            resubmit-Does,
          )
          depth 14

-- A reconciliation without credentials hands no permit to an adapter, whatever the verifier answers.
pub reconcile_without_credentials :
    (e : Env) (fuel : ℕ) (i : Intent) (g : CapabilityGrant) (allow : Bool) (block : Option ℕ)
    (w : World)
    → (reconcile e fuel i g none allow block w).1.sent ≡ w.sent
unfolding exhaust
reconcile_without_credentials e fuel i g allow block w =
    (reconcile-Does e (Hands-IsEffect e) i g none
        (λ retry again. without-Does e (Hands-IsEffect e) retry i g) (record { at = λ w. refl })
        fuel allow block).at
      w

-- If at no time both attestations are trusted and all gates allow, a call of `process` hands no
-- permit to an adapter: neither when it submits nor when it reconciles.
pub refused_never_submitted :
    (e : Env) (fuel : ℕ) (i : Intent) (g : CapabilityGrant) (x : Credentials) (w : World)
    → IsRefused e i g x
    → (process e fuel i g x w).1.sent ≡ w.sent
unfolding exhaust
refused_never_submitted e fuel i g x w refused =
    (process-Does e eff fuel i g x
        (reconcile_again-Does e eff i g (some x)
          (λ retry again. acts-Does e eff i g x refused retry) (record { at = λ w. refl }) fuel)
        (submit-Does e eff i g x refused _)).at
      w
  where
    eff : IsEffect e Hands
    eff = Hands-IsEffect e
