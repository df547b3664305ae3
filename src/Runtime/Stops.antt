-- ===== src/Runtime/Stops.antt =====
-- The stops: _stop_execution_state, _stop_if_possible and _release_orphaned_hold, and the handlers
-- of `process` and `reconcile`.
use faar_runtime.Common.{
  ℕ, Bool, true, false, not, ◌&&◌, ◌||◌, Option, none, List, [], ◌∷◌, ◌==◌, if◌then◌else◌,
}
use faar_runtime.Models.Enums.{
  IntentState, proposed, authorized, reserved, submitted, unknown, reconciling, confirmed, stopped,
  finalized,
}
use faar_runtime.Store.Schema.{IntentRow, evidence_integrity}
use faar_runtime.Store.Lifecycle.{Change, is_terminal}
use faar_runtime.Worker.Defs.{
  Env, Entry, M, Raised, store_error, intent_busy, store_unavailable, pure, raise, ◌>>=◌, ◌>>◌,
  attempt, catch, observe,
}
use faar_runtime.Common.Result.{Result, ok, err}
use faar_runtime.Worker.Reasons
use faar_runtime.Worker.Reasons.{any_settlement_derived}
use faar_runtime.Runtime.Calls.{
  RuntimeResult, because, releasing, get, change, log, void_permits, commit, release, stored_result,
  current_result,
}

-- _allowed_from contains STOPPED
unfoldable pub is_stoppable : IntentState → Bool
is_stoppable proposed = true
is_stoppable authorized = true
is_stoppable reserved = true
is_stoppable submitted = true
is_stoppable unknown = true
is_stoppable reconciling = true
is_stoppable confirmed = true
is_stoppable _ = false

abbrev pub is_proposed : IntentState → Bool
is_proposed proposed = true
is_proposed _ = false

abbrev pub is_finalized : IntentState → Bool
is_finalized finalized = true
is_finalized _ = false

module _ (e : Env) where
  abbrev pub stopping : List ℕ → Option ℕ → Bool → Change
  stopping reasons effect release_usage = record (because reasons) {
    effect_id = effect;
    release_usage = release_usage;
  }

  -- The permits that no venue has consumed are voided before the intent is stopped.
  unfoldable pub stop_execution_state : ℕ → List ℕ → Option ℕ → Bool → Bool → M RuntimeResult
  unfolding is_stoppable
  stop_execution_state i reasons effect release_usage replayed = do
    stored ← get e i
    void_permits e i
    transitioned ←
        (if not (is_terminal stored.state) && is_stoppable stored.state
          then change e i stored.state stopped (stopping reasons effect release_usage)
          else pure false)
    (if release_usage && not transitioned then release e i else pure tt)
    log e i (Entry.execution_stopped reasons)
    current_result e i effect reasons replayed

  unfoldable pub reject_grant : ℕ → List ℕ → M RuntimeResult
  reject_grant i reasons = do
    change e i proposed stopped (releasing reasons)
    log e i (Entry.grant_rejected reasons)
    current_result e i none reasons false

  unfoldable pub stop_if_possible : IntentRow → List ℕ → M RuntimeResult
  stop_if_possible stored reasons =
      if is_proposed stored.state
      then reject_grant stored.intent_id reasons
      else pure (stored_result stored reasons true)

  -- Only a terminal intent that was never submitted, and that no settlement stopped, lets go of a
  -- reservation; a finalized one commits it.
  unfoldable pub release_orphaned_hold : IntentRow → M (Unit {0})
  release_orphaned_hold stored =
      if is_finalized stored.state
      then commit e stored.intent_id
      else if not (is_terminal stored.state) || not (stored.submission_count == 0)
      then pure tt
      else if any_settlement_derived stored.reason_codes
      then pure tt
      else release e stored.intent_id

  -- The row as it is, with a code.
  unfoldable pub unchanged_result : ℕ → ℕ → M RuntimeResult
  unchanged_result i reason = do row ← get e i; pure (stored_result row (reason ∷ []) true)

  -- except IntentBusy, EvidenceIntegrityError, StoreUnavailable: a code instead of the exception
  abbrev pub on_raised : ℕ → Raised → M RuntimeResult
  on_raised i intent_busy = unchanged_result i Reasons.intent_busy
  on_raised i (store_error evidence_integrity) =
      unchanged_result i Reasons.evidence_integrity_failure
  on_raised i store_unavailable = unchanged_result i Reasons.store_unavailable
  on_raised i other = raise other

  unfoldable pub handled : ℕ → M RuntimeResult → M RuntimeResult
  handled i m = catch m (on_raised i)

  abbrev pub reraise : {A : Type 0} → Result Raised A → M A
  reraise (ok a) = pure a
  reraise (err x) = raise x

  -- intent_guard: the lease is taken and given back in the datastore, which may be locked.
  unfoldable pub guarded : {A : Type 0} → M A → M A
  guarded m = do
    busy ← observe e.is_busy
    locked ← observe e.is_locked
    if busy
        then raise intent_busy
        else if locked
        then raise store_unavailable
        else attempt m >>= λ r.
            observe e.is_locked >>= λ stuck. if stuck then raise store_unavailable else reraise r
