-- ===== src/Runtime/Effects/Calls.antt =====
-- The calls of the store, the stops and the handlers run operations of the store.
use faar_runtime.Common.{ℕ, subst, Bool, Option, List, [], ◌∷◌}
use faar_runtime.Common.Result.{Result, ok, err, ok_inj}
use faar_runtime.Models.Enums.{IntentState}
use faar_runtime.Models.Grant.{CapabilityGrant}
use faar_runtime.Store.Schema.{IntentRow, evidence_integrity}
use faar_runtime.Store.Steps.{Step, Run, here, next}
use faar_runtime.Store.Permits.{permit_counts}
use faar_runtime.Store.Lifecycle.{Change}
use faar_runtime.Worker.Defs.{
  Env, Entry, World, M, Raised, store_error, intent_busy, store_unavailable,
}
use faar_runtime.Worker.Effects.{
  IsEffect, Does, Does-pure, Does-call, Does-reading, Does-raise, Does-catch, effect_rules,
}
use faar_runtime.Runtime.Calls
use faar_runtime.Runtime.Calls.{RuntimeResult}
use faar_runtime.Runtime.Stops
use faar_runtime.Runtime.Stops.{on_raised, reraise}

module _ (e : Env) {R : World → World → Type 0} (eff : IsEffect e R) where
  pub get-Does : (i : ℕ) → Does R (Calls.get e i)
  unfolding Calls.get
  get-Does i = Does-reading e eff _

  pub change-Does :
      (i : ℕ) (from_ to_ : IntentState) (c : Change) → Does R (Calls.change e i from_ to_ c)
  unfolding Calls.change
  change-Does i from_ to_ c =
      Does-call e eff _ (λ s r t h. next here (Step.change i (from_ ∷ []) to_ c r t h))

  pub log-Does : (i : ℕ) (x : Entry) → Does R (Calls.log e i x)
  unfolding Calls.log
  log-Does i x = record {
    at = λ w.
        (Does-call e eff _ (λ s r t h. next here (Step.append i (e.content w.calls x) r t h))).at w;
  }

  pub assert-Does : (i : ℕ) → Does R (Calls.assert_evidence_appendable e i)
  unfolding Calls.assert_evidence_appendable
  assert-Does i = Does-reading e eff _

  pub verify-Does : (g : CapabilityGrant) → Does R (Calls.verify_provisioned e g)
  unfolding Calls.verify_provisioned
  verify-Does g = Does-reading e eff _

  pub status-Does : (g : CapabilityGrant) → Does R (Calls.get_grant_status e g)
  unfolding Calls.get_grant_status
  status-Does g = search (effect_rules, Does-reading e eff)

  void-Does : (i : ℕ) → Does R (Calls.void e i)
  unfolding Calls.void
  void-Does i = record {
    at = λ w.
        (Does-call e eff _ (λ s n t h. next here (Step.void i (e.clock w.calls) n t (ok_inj h)))).at
          w;
  }

  pub count-Does : (i : ℕ) → Does R (Calls.count_permits e i)
  unfolding Calls.count_permits
  count-Does i = Does-reading e eff (λ s. ok (permit_counts s i))

  pub commit-Does : (i : ℕ) → Does R (Calls.commit e i)
  unfolding Calls.commit
  commit-Does i =
      Does-call e eff _
        (λ s r t h. subst (Run e.crypto s) (cc (ok_inj h)) (next here (Step.commit i)))

  pub release-Does : (i : ℕ) → Does R (Calls.release e i)
  unfolding Calls.release
  release-Does i =
      Does-call e eff _
        (λ s r t h. subst (Run e.crypto s) (cc (ok_inj h)) (next here (Step.release i)))

  pub void_permits-Does : (i : ℕ) → Does R (Calls.void_permits e i)
  unfolding Calls.void_permits
  void_permits-Does i = search (effect_rules, void-Does, log-Does)

  pub current_result-Does :
      (i : ℕ) (effect : Option ℕ) (reasons : List ℕ) (replayed : Bool)
      → Does R (Calls.current_result e i effect reasons replayed)
  unfolding Calls.current_result
  current_result-Does i effect reasons replayed = search (effect_rules, get-Does)

  pub stop-Does :
      (i : ℕ) (reasons : List ℕ) (effect : Option ℕ) (release_held replayed : Bool)
      → Does R (Stops.stop_execution_state e i reasons effect release_held replayed)
  unfolding Stops.stop_execution_state
  stop-Does i reasons effect release_held replayed =
      search
        (
          effect_rules, get-Does, void_permits-Does, change-Does, release-Does, log-Does,
          current_result-Does,
        )
        depth 14

  reject-Does : (i : ℕ) (reasons : List ℕ) → Does R (Stops.reject_grant e i reasons)
  unfolding Stops.reject_grant
  reject-Does i reasons = search (effect_rules, change-Does, log-Does, current_result-Does)

  pub stop_if_possible-Does :
      (row : IntentRow) (reasons : List ℕ) → Does R (Stops.stop_if_possible e row reasons)
  unfolding Stops.stop_if_possible
  stop_if_possible-Does row reasons = search (effect_rules, reject-Does)

  pub release_orphaned_hold-Does : (row : IntentRow) → Does R (Stops.release_orphaned_hold e row)
  unfolding Stops.release_orphaned_hold
  release_orphaned_hold-Does row = search (effect_rules, commit-Does, release-Does)

  unchanged-Does : (i reason : ℕ) → Does R (Stops.unchanged_result e i reason)
  unfolding Stops.unchanged_result
  unchanged-Does i reason = search (effect_rules, get-Does)

  pub on_raised-Does : (i : ℕ) (x : Raised) → Does R (on_raised e i x)
  on_raised-Does i intent_busy = unchanged-Does i _
  on_raised-Does i store_unavailable = unchanged-Does i _
  on_raised-Does i (store_error evidence_integrity) = unchanged-Does i _
  on_raised-Does i other = Does-raise e eff _

  pub handled-Does : (i : ℕ) (m : M RuntimeResult) → Does R m → Does R (Stops.handled e i m)
  unfolding Stops.handled
  handled-Does i m h = Does-catch e eff m _ h (on_raised-Does i)

  reraise-Does : {A : Type 0} (r : Result Raised A) → Does R (reraise e r)
  reraise-Does (ok a) = Does-pure e eff _
  reraise-Does (err x) = Does-raise e eff _

  pub guarded-Does : {A : Type 0} (m : M A) → Does R m → Does R (Stops.guarded e m)
  unfolding Stops.guarded
  guarded-Does {A} m h = search (effect_rules, reraise-Does) depth 14
