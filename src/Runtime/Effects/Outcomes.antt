-- ===== src/Runtime/Effects/Outcomes.antt =====
-- What is done with a settlement of an effect relates the worlds before and after.
use faar_runtime.Common.{ℕ, Bool, true, false, if◌then◌else◌, Option, none, some, List}
use faar_runtime.Common.Result.{Result, ok, err}
use faar_runtime.Models.Enums.{IntentState}
use faar_runtime.Money.Rounding.{Decimal}
use faar_runtime.Settlement.Quorum.{SettlementRecord}
use faar_runtime.Store.Schema.{IntentRow, effect_conflict, value_error}
use faar_runtime.Store.Lifecycle.{Change}
use faar_runtime.Worker.Defs.{Env, World, M, Raised, store_error, raise}
use faar_runtime.Worker.Effects.{IsEffect, Does, Does-raise, Does-bind, Does-attempt, effect_rules}
use faar_runtime.Runtime.Calls.{RuntimeResult}
use faar_runtime.Runtime.Integrity.{is_negative, magnitude}
use faar_runtime.Runtime.Outcomes
use faar_runtime.Runtime.Outcomes.{on_change}
use faar_runtime.Runtime.Effects.Calls.{
  get-Does, change-Does, log-Does, assert-Does, verify-Does, status-Does, count-Does,
  void_permits-Does, current_result-Does, stop-Does,
}

ruleset rules = (
  effect_rules, get-Does, change-Does, log-Does, status-Does, count-Does, void_permits-Does,
  assert-Does, verify-Does, current_result-Does, stop-Does,
)

module _ (e : Env) {R : World → World → Type 0} (eff : IsEffect e R) where
  on_change-Does :
      (i : ℕ) (previous : Option ℕ) (m : M RuntimeResult) (r : Result Raised Bool)
      → Does R m
      → Does R (on_change e i previous m r)
  on_change-Does i previous m (ok b) h = h
  on_change-Does i previous m (err (store_error effect_conflict)) h = stop-Does e eff _ _ _ _ _
  on_change-Does i previous m (err other) h = Does-raise e eff _

  settle-Does :
      (i : ℕ) (previous : Option ℕ) (state : IntentState) (c : Change) (m : M RuntimeResult)
      → Does R m
      → Does R (Outcomes.settle e i previous state c m)
  unfolding Outcomes.settle
  settle-Does i previous state c m h =
      Does-bind e eff _ _ (Does-attempt e eff _ (change-Does e eff _ _ _ _))
        (λ r. on_change-Does i previous m r h)

  with_filled-Does :
      {A : Type 0} (amount : Option Decimal) (k : Option ℕ → M A)
      → ((filled : Option ℕ) → Does R (k filled))
      → Does R (Outcomes.with_filled amount k)
  unfolding Outcomes.with_filled
  with_filled-Does none k h = h none
  with_filled-Does (some amount) k h = by_sign (is_negative amount)
    where
      by_sign :
          (b : Bool)
          → Does R (if b then raise (store_error value_error) else k (some (magnitude amount)))
      by_sign true = Does-raise e eff _
      by_sign false = h _

  pub undecided-Does : (i : ℕ) (reasons : List ℕ) → Does R (Outcomes.undecided e i reasons)
  unfolding Outcomes.undecided
  undecided-Does i reasons = search (rules) depth 14

  pub finalize-Does : (i : ℕ) (r : SettlementRecord) → Does R (Outcomes.finalize e i r)
  unfolding Outcomes.finalize
  finalize-Does i r = search (rules, settle-Does, with_filled-Does) depth 14

  pub confirm-Does : (i : ℕ) (r : SettlementRecord) → Does R (Outcomes.confirm e i r)
  unfolding Outcomes.confirm
  confirm-Does i r = search (rules, settle-Does, with_filled-Does) depth 14

  pub keep_open-Does : (i : ℕ) (r : SettlementRecord) → Does R (Outcomes.keep_open e i r)
  unfolding Outcomes.keep_open
  keep_open-Does i r = search (rules, settle-Does, with_filled-Does) depth 14

  pub cancelled-Does :
      (row : IntentRow) (r : SettlementRecord) → Does R (Outcomes.cancelled e row r)
  unfolding Outcomes.cancelled Outcomes.cancel_filled Outcomes.cancel_unfilled
  cancelled-Does row r = search (rules, settle-Does, with_filled-Does) depth 14
