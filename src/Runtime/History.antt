-- ===== src/Runtime/History.antt =====
-- What a reconciliation does to the datastore relates the stores before and after, whatever the
-- surroundings answer.
use faar_runtime.Common.{ℕ, Bool, Option}
use faar_runtime.Models.Grant.{CapabilityGrant, Intent}
use faar_runtime.Store.Steps.{here}
use faar_runtime.Runtime.Calls.{RuntimeResult}
use faar_runtime.Worker.Defs.{exhaust, Env, transport}
use faar_runtime.Worker.Judgement.{Credentials}
use faar_runtime.Worker.Effects.{Does, IsFair, Runs, Runs-IsEffect}
use faar_runtime.Models.Requests.{ExecutionRequest, SignedPermit}
use faar_runtime.Runtime.Submission.{Retry}
use faar_runtime.Runtime.Reconciliation.{reconcile_again}
use faar_runtime.Runtime.Effects.Absence.{absent-Does}
use faar_runtime.Runtime.Effects.Submission.{begin-Does, submit-Does}
use faar_runtime.Runtime.Effects.Reconciliation.{ActsOnAbsence, reconcile_again-Does}

module _ (e : Env) (fair : IsFair e) where
  sends_Runs : (q : ExecutionRequest) (p : SignedPermit) → Does (Runs e) (transport e q p)
  unfolding transport
  sends_Runs q p = record { at = λ w. here }

  exhausts_Runs : Does (Runs e) (exhaust {A = RuntimeResult})
  unfolding exhaust
  exhausts_Runs = record { at = λ w. here }

  acts_Runs :
      (i : Intent) (g : CapabilityGrant) (x : Option Credentials) (retry : Retry)
      → ((b : Bool) (o : Option ℕ) → Does (Runs e) (retry b o))
      → ActsOnAbsence e (Runs e) retry i g x
  acts_Runs i g x retry again row allow block now absence =
      absent-Does e (Runs-IsEffect e fair) retry i g
        (submit-Does e (Runs-IsEffect e fair) retry i
          (begin-Does e (Runs-IsEffect e fair) retry again sends_Runs i) g)
        row x allow block now

  pub again_Runs :
      (fuel : ℕ) (i : Intent) (g : CapabilityGrant) (x : Option Credentials) (b : Bool)
      (o : Option ℕ)
      → Does (Runs e) (reconcile_again e fuel i g x b o)
  again_Runs fuel i g x =
      reconcile_again-Does e (Runs-IsEffect e fair) i g x (acts_Runs i g x) exhausts_Runs fuel
