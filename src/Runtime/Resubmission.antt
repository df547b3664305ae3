-- ===== src/Runtime/Resubmission.antt =====
-- A reconciliation submits again only if the verifier answers that there is no effect.
use faar_runtime.Common.{ℕ, ◌≡◌, refl, ◌∙◌, ◌⊎◌, inl, inr, Bool, Option}
use faar_runtime.Models.Grant.{CapabilityGrant, Intent}
use faar_runtime.Worker.Defs.{exhaust, Env, World}
use faar_runtime.Worker.Judgement.{Credentials}
use faar_runtime.Worker.Effects.{IsEffect, Does}
use faar_runtime.Runtime.Submission.{Retry}
use faar_runtime.Runtime.Reconciliation.{reconcile}
use faar_runtime.Runtime.Effects.Reconciliation.{IsAbsence, ActsOnAbsence, reconcile-Does}

-- No permit was handed to an adapter, or the verifier answers that there is no effect.
abbrev Sends : Env → Intent → World → World → Type 0
Sends e i w u = IsAbsence e i ⊎ (u.sent ≡ w.sent)

Sends-trans : (e : Env) (i : Intent) (u v w : World) → Sends e i u v → Sends e i v w → Sends e i u w
Sends-trans e i u v w (inl a) q = inl a
Sends-trans e i u v w (inr p) (inl a) = inl a
Sends-trans e i u v w (inr p) (inr q) = inr (q ∙ p)

Sends-IsEffect : (e : Env) (i : Intent) → IsEffect e (Sends e i)
Sends-IsEffect e i = record {
  stays = λ w. inr refl;
  joins = Sends-trans e i;
  observes = λ w. inr refl;
  commits = λ w t r. inr refl;
}

acts_Sends :
    (e : Env) (i : Intent) (g : CapabilityGrant) (x : Option Credentials) (retry : Retry)
    → ((b : Bool) (o : Option ℕ) → Does (Sends e i) (retry b o))
    → ActsOnAbsence e (Sends e i) retry i g x
acts_Sends e i g x retry again row allow block now absence = record { at = λ w. inl absence }

-- A call of `reconcile` hands no permit to an adapter, unless the verifier answers, at some call, an
-- authoritative NONE that is bound to the request of the intent.
pub resubmission-IsAbsence :
    (e : Env) (fuel : ℕ) (i : Intent) (g : CapabilityGrant) (x : Option Credentials) (allow : Bool)
    (block : Option ℕ) (w : World)
    → IsAbsence e i ⊎ ((reconcile e fuel i g x allow block w).1.sent ≡ w.sent)
unfolding exhaust
resubmission-IsAbsence e fuel i g x allow block w =
    (reconcile-Does e (Sends-IsEffect e i) i g x (acts_Sends e i g x)
        (record { at = λ w. inr refl }) fuel allow block).at
      w
