-- ===== src/Runtime/Effects/Reconciliation.antt =====
-- A reconciliation relates the worlds before and after, if acting on an absence does.
use faar_runtime.Common.{
  ℕ, ◌≡◌, refl, subst, arith, not, ◌&&◌, zero, suc, Bool, true, false, Option, none, some,
}
use faar_runtime.Common.Result.{Result, ok, err}
use faar_runtime.Models.Enums.{SettlementStatus}
use faar_runtime.Models.Grant.{CapabilityGrant, Intent}
use faar_runtime.Models.Requests.{from_intent}
use faar_runtime.Settlement.Quorum.{SettlementRecord}
use faar_runtime.Store.Schema.{IntentRow, unknown_grant, grant_conflict, evidence_integrity}
use faar_runtime.Worker.Defs.{
  Env, World, Verification, exhaust, recorded, raised, malformed, M, Raised, store_error,
}
use faar_runtime.Worker.Judgement.{Credentials}
use faar_runtime.Worker.Effects.{
  IsEffect, Does, Does-pure, Does-raise, Does-bind, Does-test, Does-observed, Does-attempt,
  effect_rules,
}
use faar_runtime.Runtime.Calls.{RuntimeResult}
use faar_runtime.Runtime.Submission.{Retry}
use faar_runtime.Runtime.Absence
use faar_runtime.Runtime.Absence.{with_credentials}
use faar_runtime.Runtime.Judging
use faar_runtime.Runtime.Reconciliation
use faar_runtime.Runtime.Reconciliation.{on_log, failed_lookup, verified, on_grant, read_row}
use faar_runtime.Runtime.Judging.{is_weak, is_bound_to, by_status, stop_or}
use faar_runtime.Runtime.Effects.Calls.{
  get-Does, change-Does, log-Does, assert-Does, verify-Does, status-Does, count-Does,
  void_permits-Does, current_result-Does, stop-Does, handled-Does, guarded-Does,
}
use faar_runtime.Runtime.Effects.Outcomes.{
  undecided-Does, finalize-Does, confirm-Does, keep_open-Does, cancelled-Does,
}

-- The verifier answered, at some call, that there is no effect: with authority and of this request.
pub record IsAbsence (e : Env) (i : Intent) : Type 0 where
  pub k : ℕ
  pub r : SettlementRecord
  pub answered : e.verifier k (from_intent i) ≡ recorded r
  pub authoritative : r.authoritative ≡ true
  pub absent : r.status ≡ SettlementStatus.none
  pub bound : is_bound_to r.verified_request_hash (e.hashes.request (from_intent i)) ≡ true

-- What holds of acting on an absence.
abbrev pub ActsOnAbsence :
    Env → (World → World → Type 0) → Retry → Intent → CapabilityGrant → Option Credentials → Type 0
ActsOnAbsence e R retry i g x =
    (row : IntentRow) (allow : Bool) (block : Option ℕ) (now : ℕ)
    → IsAbsence e i
    → Does R (Absence.absent e retry row i g x allow block now)

ruleset rules = (
  effect_rules, get-Does, change-Does, log-Does, status-Does, count-Does, void_permits-Does,
  assert-Does, verify-Does, current_result-Does, stop-Does,
)

module _ (e : Env) {R : World → World → Type 0} (eff : IsEffect e R) where
  module _ (retry : Retry) (i : Intent) (g : CapabilityGrant) (x : Option Credentials)
      (acts : ActsOnAbsence e R retry i g x) where
    module _ (row : IntentRow) where
      by_status-Does :
          (allow : Bool) (block : Option ℕ) (now k : ℕ) (r : SettlementRecord)
          (status : SettlementStatus)
          → e.verifier k (from_intent i) ≡ recorded r
          → r.status ≡ status
          → (not r.authoritative && is_weak r.status) ≡ false
          → (r.authoritative
              && not (is_bound_to r.verified_request_hash (e.hashes.request (from_intent i))))
            ≡ false
          → Does R (by_status e retry row i g x allow block now r status)
      by_status-Does allow block now k r SettlementStatus.finalized ans same weak bound =
          finalize-Does e eff _ r
      by_status-Does allow block now k r SettlementStatus.confirmed ans same weak bound =
          confirm-Does e eff _ r
      by_status-Does allow block now k r SettlementStatus.partially_filled ans same weak bound =
          keep_open-Does e eff _ r
      by_status-Does allow block now k r SettlementStatus.cancelled ans same weak bound =
          cancelled-Does e eff row r
      by_status-Does allow block now k r SettlementStatus.contradictory ans same weak bound =
          stop-Does e eff _ _ _ _ _
      by_status-Does allow block now k r SettlementStatus.unknown ans same weak bound =
          undecided-Does e eff _ _
      by_status-Does allow block now k r SettlementStatus.none ans same weak bound =
          let (strong, tied) =
            parts r.authoritative
              (is_bound_to r.verified_request_hash (e.hashes.request (from_intent i)))
              (subst (λ s. (not r.authoritative && is_weak s) ≡ false) same weak) bound in
          acts row allow block now (record {
            k = k;
            r = r;
            answered = ans;
            authoritative = strong;
            absent = same;
            bound = tied;
          })
        where
          parts :
              (a b : Bool)
              → (not a && true) ≡ false
              → (a && not b) ≡ false
              → (a ≡ true) × (b ≡ true)
          parts a b h j = ground arith

      stop_or-Does :
          (o : Option ℕ) (m : M RuntimeResult) → Does R m → Does R (stop_or e retry row o m)
      stop_or-Does none m h = h
      stop_or-Does (some reason) m h = stop-Does e eff _ _ _ _ _

      judge-Does :
          (allow : Bool) (block : Option ℕ) (now k : ℕ) (r : SettlementRecord)
          → e.verifier k (from_intent i) ≡ recorded r
          → Does R (Judging.judge e retry row i g x allow block now r)
      unfolding Judging.judge
      judge-Does allow block now k r ans =
          Does-test e eff _ _ _ (λ _. undecided-Does e eff _ _)
            λ weak.
              Does-test e eff _ _ _ (λ _. stop-Does e eff _ _ _ _ _)
                λ bound.
                  let judged = by_status-Does allow block now k r r.status ans refl weak bound in
                  search (rules, stop_or-Does) depth 14

      on_log-Does :
          (m : M RuntimeResult) (r : Result Raised ℕ) → Does R m → Does R (on_log e retry row m r)
      on_log-Does m (ok a) h = h
      on_log-Does m (err (store_error evidence_integrity)) h = Does-raise e eff _
      on_log-Does m (err other) h = stop-Does e eff _ _ _ _ _

      verified-Does :
          (allow : Bool) (block : Option ℕ) (now k : ℕ) (v : Verification)
          → e.verifier k (from_intent i) ≡ v
          → Does R (verified e retry row i g x allow block now v)
      verified-Does allow block now k raised ans = search (rules) depth 14
      verified-Does allow block now k malformed ans = stop-Does e eff _ _ _ _ _
      verified-Does allow block now k (recorded r) ans =
          Does-bind e eff _ _ (Does-attempt e eff _ (log-Does e eff _ _))
            (λ a. on_log-Does _ a (judge-Does allow block now k r ans))

      look_up-Does :
          (allow : Bool) (block : Option ℕ) (now : ℕ)
          → Does R (Reconciliation.look_up e retry row i g x allow block now)
      unfolding Reconciliation.look_up
      look_up-Does allow block now =
          Does-observed e eff _ _ (λ k. verified-Does allow block now k _ refl)

      enter-Does :
          (allow : Bool) (block : Option ℕ) (now : ℕ)
          → Does R (Reconciliation.enter e retry row i g x allow block now)
      unfolding Reconciliation.enter
      enter-Does allow block now = search (rules, look_up-Does) depth 14

      on_grant-Does :
          (m : M RuntimeResult) (r : Result Raised (Unit {0}))
          → Does R m
          → Does R (on_grant e retry row m r)
      on_grant-Does m (ok a) h = h
      on_grant-Does m (err (store_error unknown_grant)) h = Does-pure e eff _
      on_grant-Does m (err (store_error grant_conflict)) h = Does-pure e eff _
      on_grant-Does m (err other) h = Does-raise e eff _

      read_row-Does :
          (allow : Bool) (block : Option ℕ) (now : ℕ)
          → Does R (read_row e retry i g x allow block now row)
      read_row-Does allow block now = search (rules, enter-Does, on_grant-Does) depth 14

    pub reconcile_unlocked-Does :
        (allow : Bool) (block : Option ℕ)
        → Does R (Reconciliation.reconcile_unlocked e retry i g x allow block)
    unfolding Reconciliation.reconcile_unlocked
    reconcile_unlocked-Does allow block = search (rules, read_row-Does) depth 14

  module _ (i : Intent) (g : CapabilityGrant) (x : Option Credentials)
      (acts : (retry : Retry)
        → ((b : Bool) (o : Option ℕ) → Does R (retry b o))
        → ActsOnAbsence e R retry i g x)
      (exhausts : Does R (exhaust {A = RuntimeResult})) where
    pub reconcile_again-Does :
        (fuel : ℕ) (allow : Bool) (block : Option ℕ)
        → Does R (Reconciliation.reconcile_again e fuel i g x allow block)
    unfolding Reconciliation.reconcile_again
    reconcile_again-Does zero allow block = exhausts
    reconcile_again-Does (suc fuel) allow block =
        handled-Does e eff _ _
          (reconcile_unlocked-Does _ i g x (acts _ (reconcile_again-Does fuel)) allow block)

    pub reconcile-Does :
        (fuel : ℕ) (allow : Bool) (block : Option ℕ)
        → Does R (Reconciliation.reconcile e fuel i g x allow block)
    unfolding Reconciliation.reconcile
    reconcile-Does fuel allow block = handled-Does e eff _ _ (
        guarded-Does e eff _
          (reconcile_unlocked-Does _ i g x (acts _ (reconcile_again-Does fuel)) allow block))
