-- ===== src/Runtime/Termination/Reconciliation.antt =====
-- A reconciliation nests another one only after an attempt that is counted.
use faar_runtime.Common.{
  ℕ, zero, suc, ◌+◌, ◌≤◌, ◌<◌, ◌≡◌, refl, subst, sym, ◌∙◌, Bool, true, false, Option, [], ◌∷◌,
  arith, if◌then◌else◌,
}
use faar_runtime.Common.Result.{Result, ok, err}
use faar_runtime.Models.Enums.{IntentState, reserved, reconciling}
use faar_runtime.Models.Grant.{CapabilityGrant, Intent}
use faar_runtime.Store.Schema.{IntentRow, unknown_grant, grant_conflict}
use faar_runtime.Store.Steps.{Run-Advances}
use faar_runtime.Store.Lifecycle.{is_terminal, is_expected, changed}
use faar_runtime.Worker.Defs.{Env, World, M, Raised, store_error, pure, catch, caught}
use faar_runtime.Worker.Judgement.{Credentials}
use faar_runtime.Worker.Effects.{IsEffect, Does, Does-pure, Does-raise, IsFair}
use faar_runtime.Runtime.Calls.{RuntimeResult, because, stored_result}
use faar_runtime.Worker.Reasons.{reconcile_not_applicable_before_submission}
use faar_runtime.Runtime.Stops
use faar_runtime.Runtime.Stops.{on_raised}
use faar_runtime.Runtime.Submission.{Retry}
use faar_runtime.Runtime.Reconciliation
use faar_runtime.Runtime.Reconciliation.{
  is_in_flight, is_reconciling, durable_block, on_grant, with_grant, read_row, reconcile_again,
  reconcile,
}
use faar_runtime.Runtime.Effects.Calls.{stop-Does, on_raised-Does, handled-Does, guarded-Does}
use faar_runtime.Runtime.Attempts.Counts.{count_in, attempts-Advances}
use faar_runtime.Runtime.History.{again_Runs}
use faar_runtime.Runtime.Termination.Keeps.{
  IsLeased, Same, Lasts, Lasts-IsEffect, At, From, From-Does, From-if, From-bind, From-then,
  kept-observe, kept-attempt, kept-assert, kept-verify,
}
use faar_runtime.Runtime.Termination.Begin.{Fits, begin-From}
use faar_runtime.Runtime.Termination.Absence.{absent-From}
use faar_runtime.Runtime.Termination.Judgement.{look_up-From}
use faar_runtime.Runtime.Termination.Rows.{AtLeast, get-From, change-From}

pub At-stays : (i : ℕ) (r : IntentRow) (w u : World) → Same i w u → At i r w → At i r u
At-stays i r w u (s, d) p = s ∙ p

AtLeast-stays : (n i : ℕ) (w u : World) → Same i w u → AtLeast n i w → AtLeast n i u
AtLeast-stays n i w u (s, d) p = subst (λ o. n ≤ count_in o) (sym s) p

reconciling-IsExpected :
    (s : IntentState) → is_reconciling s ≡ true → is_expected s (reserved ∷ reconciling ∷ []) ≡ true
unfolding is_expected
reconciling-IsExpected s h = ground arith

module _ (e : Env) {R : World → World → Type 0} (eff : IsEffect e R)
    (lasts : (w u : World) → R w u → Lasts w u) (i : Intent) (g : CapabilityGrant)
    (x : Option Credentials) (retry : Retry) (leased : IsLeased e i.intent_id) (P : World → Type 0)
    (stays : (w u : World) → Same i.intent_id w u → P w → P u) (r : IntentRow)
    (enters : (allow : Bool) (block : Option ℕ) (now : ℕ)
      → From P (Reconciliation.enter e retry r i g x allow block now)) where
  ends : (m : M RuntimeResult) → Does R m → From P m
  ends m h = From-Does P lasts m h

  with_grant-From :
      (allow : Bool) (block : Option ℕ) (now : ℕ)
      → From P (with_grant e retry r i g x allow block now)
  with_grant-From allow block now =
      search (From-if P, ends, Does-pure e eff, stop-Does e eff, enters) depth 14

  on_grant-From :
      (m : M RuntimeResult) (o : Result Raised (Unit {0}))
      → From P m
      → From P (on_grant e retry r m o)
  on_grant-From m (ok a) h = h
  on_grant-From m (err (store_error unknown_grant)) h = ends _ (Does-pure e eff _)
  on_grant-From m (err (store_error grant_conflict)) h = ends _ (Does-pure e eff _)
  on_grant-From m (err other) h = ends _ (Does-raise e eff _)

  read_row-From :
      (allow : Bool) (block : Option ℕ) (now : ℕ)
      → From P (read_row e retry i g x allow block now r)
  read_row-From allow block now = From-if P (is_terminal r.state) _ _ (ends _ (Does-pure e eff _)) (
      From-then e i.intent_id leased P stays _ _ (kept-assert e i.intent_id leased) (
        From-bind e i.intent_id leased P stays _ _
          (kept-attempt e i.intent_id leased _ (kept-verify e i.intent_id leased g))
          (λ o. on_grant-From _ o (with_grant-From _ _ _))))

module _ (e : Env) (fair : IsFair e) (i : Intent) (g : CapabilityGrant) (x : Option Credentials)
    (retry : Retry) (n : ℕ) (leased : IsLeased e i.intent_id)
    (again : n < g.limits.max_submission_attempts
      → (b : Bool) (o : Option ℕ) → Does (Fits (n + 1) i.intent_id) (retry b o)) where
  eff : IsEffect e Lasts
  eff = Lasts-IsEffect e

  looks :
      (stored row : IntentRow) (allow : Bool) (block : Option ℕ) (now : ℕ)
      → is_expected row.state (reserved ∷ reconciling ∷ []) ≡ true
      → n ≤ row.submission_count
      → From (At i.intent_id row) (Reconciliation.look_up e retry stored i g x allow block now)
  looks stored row allow block now expected count =
      look_up-From e eff (λ w u h. h) i g x retry leased (At i.intent_id row)
        (At-stays i.intent_id row) stored
        (λ allow' block' now'.
          absent-From e eff (λ w u h. h) i g retry leased (At i.intent_id row)
            (At-stays i.intent_id row)
            (λ y t. begin-From e fair i g retry n leased again y t row expected count) stored x
            allow' block' now')
        allow block now

  module _ (r : IntentRow) (count : n ≤ r.submission_count) (allow : Bool) (block : Option ℕ)
      (now : ℕ) where
    unmoved :
        (b : Bool) (m : M RuntimeResult)
        → is_reconciling r.state ≡ b
        → Does Lasts m
        → From
            (At i.intent_id r)
            (if b then Reconciliation.look_up e retry r i g x allow block now else m)
    unmoved true m h k = looks r r allow block now (reconciling-IsExpected r.state h) count
    unmoved false m h k = From-Does _ (λ w u j. j) m k

    enter-From : From (At i.intent_id r) (Reconciliation.enter e retry r i g x allow block now)
    unfolding Reconciliation.enter is_expected
    enter-From =
        From-if (At i.intent_id r) (is_in_flight r.state) _ _
          (change-From e i.intent_id leased r reconciling _ _ (
            looks r (changed r reconciling (because (durable_block r.reason_codes))) allow block now
              refl count))
          (unmoved (is_reconciling r.state)
            (pure (stored_result r (reconcile_not_applicable_before_submission ∷ []) true)) refl
            (Does-pure e eff _))

  pub unlocked-From :
      (allow : Bool) (block : Option ℕ)
      → From (AtLeast n i.intent_id) (Reconciliation.reconcile_unlocked e retry i g x allow block)
  unfolding Reconciliation.reconcile_unlocked
  unlocked-From allow block =
      From-bind e i.intent_id leased (AtLeast n i.intent_id) (AtLeast-stays n i.intent_id) _ _
        (kept-observe e i.intent_id leased e.clock)
        (λ now. get-From e i.intent_id leased n _ (λ r count.
          read_row-From e eff (λ w u h. h) i g x retry leased (At i.intent_id r)
            (At-stays i.intent_id r) r (λ allow' block' now'. enter-From r count allow' block' now')
            allow block now))

  -- The handlers read the row and nest nothing.
  pub handled-From :
      (P : World → Type 0) (m : M RuntimeResult) → From P m → From P (Stops.handled e i.intent_id m)
  unfolding Stops.handled catch
  handled-From P m h = record { at = λ w p q. rest (m w).0 (m w).1 (h.at w p q) }
    where
      rest :
          (o : Result Raised RuntimeResult) (u : World)
          → u.exhausted ≡ false
          → (caught (on_raised e i.intent_id) o u).1.exhausted ≡ false
      rest (ok a) u q = q
      rest (err y) u q = (on_raised-Does e eff i.intent_id y).at u q

module _ (e : Env) (fair : IsFair e) (i : Intent) (g : CapabilityGrant) (x : Option Credentials)
    (leased : IsLeased e i.intent_id) where
  nests-Fits :
      (fuel n : ℕ)
      → (n < g.limits.max_submission_attempts
          → (b : Bool) (o : Option ℕ)
          → Does (Fits (n + 1) i.intent_id) (reconcile_again e fuel i g x b o))
      → (b : Bool) (o : Option ℕ)
      → Does (Fits n i.intent_id) (reconcile_again e (suc fuel) i g x b o)
  unfolding reconcile_again
  nests-Fits fuel n nested b o = record {
    at = λ w p q. (
      omega (
        arith,
        p,
        attempts-Advances w.store _ i.intent_id
            (Run-Advances e.crypto ((again_Runs e fair (suc fuel) i g x b o).at w)),
      ),
      (handled-From e fair i g x _ n leased nested (AtLeast n i.intent_id) _
            (unlocked-From e fair i g x _ n leased nested b o)).at
          w p q,
    );
  }

  no_fuel : (a m : ℕ) → a ≤ m → m < a + 0 → ⊥
  no_fuel a m p q = omega (arith, p, q)

  -- With more fuel than attempts are left, no nested reconciliation is cut off.
  pub again-Fits :
      (fuel n : ℕ)
      → n ≤ g.limits.max_submission_attempts
      → g.limits.max_submission_attempts < n + fuel
      → (b : Bool) (o : Option ℕ) → Does (Fits n i.intent_id) (reconcile_again e fuel i g x b o)
  again-Fits zero n within enough b o =
      absurd (no_fuel n g.limits.max_submission_attempts within enough)
  again-Fits (suc fuel) n within enough b o =
      nests-Fits fuel n
        (λ below. again-Fits fuel (n + 1) (omega (arith, below)) (omega (arith, enough))) b o

  -- A nested call after the first attempt that is started.
  pub nested-Fits :
      (fuel : ℕ)
      → g.limits.max_submission_attempts < fuel + 1
      → 0 < g.limits.max_submission_attempts
      → (b : Bool) (o : Option ℕ) → Does (Fits 1 i.intent_id) (reconcile_again e fuel i g x b o)
  nested-Fits fuel enough some_ = again-Fits fuel 1 (omega (arith, some_)) (omega (arith, enough))

  pub again-Lasts :
      (fuel : ℕ)
      → g.limits.max_submission_attempts < fuel
      → (b : Bool) (o : Option ℕ) → Does Lasts (reconcile_again e fuel i g x b o)
  again-Lasts fuel enough b o = record {
    at = λ w q.
        ((again-Fits fuel 0 (omega arith) (omega (arith, enough)) b o).at w (omega arith) q).1;
  }

-- A call of `reconcile` does not run out of fuel, if it has as much as the grant allows attempts,
-- what the others do is a history of the store's operations, and none of them writes the row of the
-- intent: whatever the adapter, the verifier and the clock answer.
pub reconcile_within_fuel :
    (e : Env) (fuel : ℕ) (i : Intent) (g : CapabilityGrant) (x : Option Credentials) (allow : Bool)
    (block : Option ℕ) (w : World)
    → IsFair e
    → IsLeased e i.intent_id
    → g.limits.max_submission_attempts ≤ fuel
    → w.exhausted ≡ false
    → (reconcile e fuel i g x allow block w).1.exhausted ≡ false
unfolding reconcile
reconcile_within_fuel e fuel i g x allow block w fair leased enough =
    (handled-Does e (Lasts-IsEffect e) _ _ (
        guarded-Does e (Lasts-IsEffect e) _ (record {
          at = λ u q.
              (unlocked-From e fair i g x _ 0 leased
                  (nested-Fits e fair i g x leased fuel (omega (arith, enough))) allow block).at
                u (omega arith) q;
        }))).at
      w
