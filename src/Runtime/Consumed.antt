-- ===== src/Runtime/Consumed.antt =====
-- A permit that a venue has consumed is its admission of the request: no reconciliation submits
-- the intent again.
use faar_runtime.Common.{
  ℕ, ◌+◌, ◌<◌, ◌≡◌, refl, ap, ◌∙◌, Bool, true, false, ◌&&◌, Option, some, List, [], ◌∷◌, arith, ltb,
  ◌==◌, ==_iff, is_some, some_inj, if◌then◌else◌,
}
use faar_runtime.Common.Result.{Result, ok, err}
use faar_runtime.Table.{find, count}
use faar_runtime.Models.Grant.{CapabilityGrant, Intent}
use faar_runtime.Store.Schema.{Store, PermitRow}
use faar_runtime.Store.Permits.{permit_counts, at_permit}
use faar_runtime.Store.Progress.Rows.{Advances}
use faar_runtime.Store.Steps.{Run-Advances}
use faar_runtime.Worker.Defs.{exhaust, Env, World, Raised, store_unavailable, M, call, then_, ◌>>=◌}
use faar_runtime.Worker.Judgement.{Credentials}
use faar_runtime.Worker.Effects.{IsFair, IsEffect, Does, Does-test, Does-if, Does-then}
use faar_runtime.Runtime.Calls.{RuntimeResult, count_permits}
use faar_runtime.Runtime.Submission.{Retry}
use faar_runtime.Runtime.Absence.{act_on_absence, absent}
use faar_runtime.Runtime.Reconciliation.{reconcile}
use faar_runtime.Runtime.Effects.Calls.{void_permits-Does, stop-Does}
use faar_runtime.Runtime.Effects.Absence.{wait-Does}
use faar_runtime.Runtime.Effects.Reconciliation.{ActsOnAbsence, reconcile-Does}

-- The ledger has a permit of the intent that was consumed.
pub record HasConsumed (s : Store) (i : ℕ) : Type 0 where
  pub permit : ℕ
  pub row : PermitRow
  pub recorded : find (at_permit permit) s.execution_permits ≡ some row
  pub of_intent : row.intent_id ≡ i
  pub consumed : is_some row.consumed_at ≡ true

HasConsumed-Advances : {s t : Store} {i : ℕ} → Advances s t → HasConsumed s i → HasConsumed t i
HasConsumed-Advances a h =
    let (q, again, e) = a.permits h.permit h.row h.recorded in
    record {
      permit = h.permit;
      row = q;
      recorded = again;
      of_intent = e.intent ∙ h.of_intent;
      consumed = e.stays_consumed h.consumed;
    }

find_counted :
    (p q : PermitRow → Bool) (rows : List PermitRow) (row : PermitRow)
    → find p rows ≡ some row
    → q row ≡ true
    → 0 < count q rows
unfolding find count
find_counted p q [] row h k = cc
find_counted p q (r ∷ rows) row h k = by_tests (p r) (q r) refl (find_counted p q rows row) h
  where
    by_tests :
        (b c : Bool)
        → q r ≡ c
        → (find p rows ≡ some row → q row ≡ true → 0 < count q rows)
        → (if b then some r else find p rows) ≡ some row
        → 0 < (if c then 1 else 0) + count q rows
    by_tests b true e ih g = omega arith
    by_tests true false e ih g = cc (e, ap q (some_inj g), k)
    by_tests false false e ih g = omega (arith, ih g k)

permit_counts-pos : (s : Store) (i : ℕ) → HasConsumed s i → 0 < (permit_counts s i).1
unfolding permit_counts
permit_counts-pos s i h = find_counted (at_permit h.permit) _ s.execution_permits h.row h.recorded (
    both (h.row.intent_id == i) (is_some h.row.consumed_at)
      ((==_iff h.row.intent_id i).1 h.of_intent) h.consumed)
  where
    both : (a b : Bool) → a ≡ true → b ≡ true → (a && b) ≡ true
    both a b p q = ground arith

-- A consumed permit stays, and then no permit is handed to an adapter.
abbrev Withholds : Env → ℕ → World → World → Type 0
Withholds e i w u = HasConsumed w.store i → HasConsumed u.store i × (u.sent ≡ w.sent)

Withholds-IsEffect : (e : Env) (i : ℕ) → IsFair e → IsEffect e (Withholds e i)
Withholds-IsEffect e i fair = record {
  stays = λ w h. (h, refl);
  joins = λ u v w p q h. ((q (p h).0).0, (q (p h).0).1 ∙ (p h).1);
  observes = λ w h. (h, refl);
  commits = λ w t r h. (
    HasConsumed-Advances (Run-Advances e.crypto r)
        (HasConsumed-Advances (Run-Advances e.crypto (fair w.calls w.store)) h),
    refl,
  );
}

module _ (e : Env) (fair : IsFair e) (i : ℕ) where
  -- The ledger is counted in a state that still has the consumed permit.
  counted-Does :
      (f : ℕ × ℕ → M RuntimeResult)
      → ((c : ℕ × ℕ) → 0 < c.1 → Does (Withholds e i) (f c))
      → Does (Withholds e i) (count_permits e i >>= f)
  unfolding count_permits call ◌>>=◌
  counted-Does f k = record {
    at = λ w h.
        unlocked w (e.others w.calls w.store) (e.is_locked w.calls)
          (HasConsumed-Advances (Run-Advances e.crypto (fair w.calls w.store)) h);
  }
    where
      unlocked :
          (w : World) (s : Store) (b : Bool)
          → HasConsumed s i
          → let r : Result Raised (ℕ × ℕ) × World =
              if b
              then (err store_unavailable, record w { store = s; calls = w.calls + 1 })
              else (ok (permit_counts s i), record w { store = s; calls = w.calls + 1 }) in
            HasConsumed (then_ f r.0 r.1).1.store i × ((then_ f r.0 r.1).1.sent ≡ w.sent)
      unlocked w s true h = (h, refl)
      unlocked w s false h = (k (permit_counts s i) (permit_counts-pos s i h)).at _ h

module _ (e : Env) (fair : IsFair e) (i : Intent) (g : CapabilityGrant)
    (x : Option Credentials) where
  acts_Withholds :
      (retry : Retry)
      → ((b : Bool) (o : Option ℕ) → Does (Withholds e i.intent_id) (retry b o))
      → ActsOnAbsence e (Withholds e i.intent_id) retry i g x
  unfolding absent act_on_absence
  acts_Withholds retry again row allow block now absence =
      Does-if e eff _ _ _ (wait-Does e eff retry _ _) (
        Does-then e eff _ _ (void_permits-Does e eff _) (
          counted-Does e fair i.intent_id _ λ c pos.
            Does-test e eff _ _ _ (λ _. stop-Does e eff _ _ _ _ _)
              (λ none_. absurd (clash c.1 pos none_))))
    where
      eff : IsEffect e (Withholds e i.intent_id)
      eff = Withholds-IsEffect e i.intent_id fair

      clash : (n : ℕ) → 0 < n → ltb 0 n ≡ false → ⊥
      clash n p q = ground arith

-- Once the ledger has a consumed permit of an intent, no call of `reconcile` for the intent hands
-- a permit to an adapter, whatever the verifier answers, if what the others do is a history of the
-- store's operations.
pub consumed_never_resubmitted :
    (e : Env) (fuel : ℕ) (i : Intent) (g : CapabilityGrant) (x : Option Credentials) (allow : Bool)
    (block : Option ℕ) (w : World)
    → IsFair e
    → HasConsumed w.store i.intent_id
    → (reconcile e fuel i g x allow block w).1.sent ≡ w.sent
unfolding exhaust
consumed_never_resubmitted e fuel i g x allow block w fair h =
    ((reconcile-Does e (Withholds-IsEffect e i.intent_id fair) i g x (acts_Withholds e fair i g x)
        (record { at = λ w p. (p, refl) }) fuel allow block).at
      w h).1
