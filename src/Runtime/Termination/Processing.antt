-- ===== src/Runtime/Termination/Processing.antt =====
-- A call of `process` that has more fuel than a grant allows attempts is not cut off.
use faar_runtime.Common.{ℕ, ◌<◌, ◌≡◌, refl, true, false, none, some, [], ◌∷◌, arith}
use faar_runtime.Models.Enums.{authorized, reserved, reconciling}
use faar_runtime.Models.Grant.{CapabilityGrant, Intent}
use faar_runtime.Store.Schema.{IntentRow}
use faar_runtime.Store.Lifecycle.{is_expected}
use faar_runtime.Worker.Defs.{Env, Entry, World, ◌>>=◌}
use faar_runtime.Worker.Judgement.{Credentials}
use faar_runtime.Worker.Effects.{Does, IsFair}
use faar_runtime.Runtime.Calls.{change, because}
use faar_runtime.Runtime.Processing.{process, submit_recorded, submit_or_reconcile}
use faar_runtime.Runtime.Effects.Processing.{reaching-Does}
use faar_runtime.Runtime.Termination.Keeps.{
  IsLeased, Lasts, Lasts-IsEffect, At, From, From-then, kept-log,
}
use faar_runtime.Runtime.Termination.Begin.{begin-From}
use faar_runtime.Runtime.Termination.Absence.{submit-From}
use faar_runtime.Runtime.Termination.Rows.{reached-Lasts}
use faar_runtime.Runtime.Termination.Reconciliation.{At-stays, again-Lasts, nested-Fits}

module _ (e : Env) (fair : IsFair e) (i : Intent) (g : CapabilityGrant) (x : Credentials)
    (leased : IsLeased e i.intent_id) (fuel : ℕ)
    (enough : g.limits.max_submission_attempts < fuel) where
  submits-From :
      (entry : Entry) (row : IntentRow)
      → is_expected row.state (reserved ∷ reconciling ∷ []) ≡ true
      → From (At i.intent_id row) (submit_recorded e fuel i g x entry)
  submits-From entry row expected =
      From-then e i.intent_id leased (At i.intent_id row) (At-stays i.intent_id row) _ _
        (kept-log e i.intent_id leased entry)
        (submit-From e (Lasts-IsEffect e) (λ w u h. h) i g _ leased (At i.intent_id row)
          (At-stays i.intent_id row)
          (λ y now.
            begin-From e fair i g _ 0 leased
              (nested-Fits e fair i g (some x) leased fuel (omega (arith, enough))) y now row
              expected (omega arith))
          x)

  reaches-Lasts :
      (entry : Entry)
      → Does Lasts (
          change e i.intent_id authorized reserved (because [])
          >>= submit_or_reconcile e fuel i g x entry)
  unfolding is_expected
  reaches-Lasts entry =
      reached-Lasts e i.intent_id reserved (because []) authorized _
        (λ row same. submits-From entry row (rw same refl))
        (again-Lasts e fair i g (some x) leased fuel enough true none)

-- A call of `process` does not run out of fuel, if it has more than the grant allows attempts, what
-- the others do is a history of the store's operations, and none of them writes the row of the
-- intent: whatever the adapter, the verifier and the clock answer.
pub process_within_fuel :
    (e : Env) (fuel : ℕ) (i : Intent) (g : CapabilityGrant) (x : Credentials) (w : World)
    → IsFair e
    → IsLeased e i.intent_id
    → g.limits.max_submission_attempts < fuel
    → w.exhausted ≡ false
    → (process e fuel i g x w).1.exhausted ≡ false
process_within_fuel e fuel i g x w fair leased enough =
    (reaching-Does e (Lasts-IsEffect e) fuel i g x
        (again-Lasts e fair i g (some x) leased fuel enough)
        (reaches-Lasts e fair i g x leased fuel enough)).at
      w
