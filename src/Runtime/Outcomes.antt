-- ===== src/Runtime/Outcomes.antt =====
-- What the runtime does with a settlement record of an effect, after the integrity checks.
use faar_runtime.Common.{
  ℕ, Bool, true, false, ◌&&◌, Option, none, some, List, [], ◌∷◌, ltb, ◌==◌, is_some, if◌then◌else◌,
}
use faar_runtime.Common.Result.{Result, ok, err}
use faar_runtime.Models.Enums.{IntentState, unknown, reconciling, confirmed, finalized, failed_safe}
use faar_runtime.Money.Rounding.{Decimal, plus, minus}
use faar_runtime.Settlement.Quorum.{SettlementRecord}
use faar_runtime.Store.Schema.{IntentRow, effect_conflict, value_error}
use faar_runtime.Store.Lifecycle.{Change}
use faar_runtime.Worker.Defs.{Env, Entry, M, Raised, store_error, raise, ◌>>=◌, ◌>>◌, attempt}
use faar_runtime.Worker.Reasons
use faar_runtime.Runtime.Calls.{RuntimeResult, because, change, log, void_permits, current_result}
use faar_runtime.Runtime.Integrity.{is_negative, magnitude}
use faar_runtime.Runtime.Stops.{stop_execution_state}

-- _with_block: a durable block stays beside the reason.
abbrev pub with_block : ℕ → Option ℕ → List ℕ
with_block reason none = reason ∷ []
with_block reason (some block) = if block == reason then reason ∷ [] else reason ∷ block ∷ []

-- settlement.amount_usd, or 0
abbrev pub or_zero : Option Decimal → Decimal
or_zero none = plus 0
or_zero (some z) = z

-- filled > 0
abbrev pub is_filled : Decimal → Bool
is_filled (plus n) = ltb 0 n
is_filled (minus n) = false

abbrev pub has_filled : Option ℕ → Bool
has_filled none = true
has_filled (some n) = ltb 0 n

-- transition(…, filled_amount_usd): a negative amount is refused before the transaction begins.
unfoldable pub with_filled : {A : Type 0} → Option Decimal → (Option ℕ → M A) → M A
with_filled none k = k none
with_filled (some amount) k =
    if is_negative amount then raise (store_error value_error) else k (some (magnitude amount))

module _ (e : Env) where
  -- transition(…) with `except EffectConflict`
  abbrev pub on_change : ℕ → Option ℕ → M RuntimeResult → Result Raised Bool → M RuntimeResult
  on_change i previous next (ok _) = next
  on_change i previous next (err (store_error effect_conflict)) =
      stop_execution_state e i (Reasons.effect_id_already_claimed ∷ []) previous false true
  on_change i previous next (err other) = raise other

  unfoldable pub settle : ℕ → Option ℕ → IntentState → Change → M RuntimeResult → M RuntimeResult
  settle i previous state c next =
      attempt (change e i reconciling state c) >>= on_change i previous next

  -- A record that is no evidence yet: UNKNOWN, with the block.
  unfoldable pub undecided : ℕ → List ℕ → M RuntimeResult
  undecided i reasons = do
    change e i reconciling unknown (because reasons)
    current_result e i none reasons true

  abbrev pub effect_change : SettlementRecord → List ℕ → Option ℕ → Change
  effect_change r reasons filled = record (because reasons) {
    effect_id = r.effect_id;
    filled_amount_usd = filled;
  }

  unfoldable pub finalize : ℕ → SettlementRecord → M RuntimeResult
  unfolding with_filled settle
  finalize i r = with_filled r.amount_usd (λ filled.
      settle i none finalized (record (effect_change r [] filled) { commit_usage = true })
        (current_result e i r.effect_id [] true))

  unfoldable pub confirm : ℕ → SettlementRecord → M RuntimeResult
  unfolding with_filled settle
  confirm i r = with_filled r.amount_usd (λ filled.
      settle i none confirmed (effect_change r [] filled) (current_result e i r.effect_id [] true))

  abbrev pub open_reason : Decimal → ℕ
  open_reason filled =
      if is_filled filled
      then Reasons.settlement_partial_fill_open
      else Reasons.settlement_order_open

  abbrev pub open_entry : Decimal → Entry
  open_entry filled = if is_filled filled then Entry.partial_fill else Entry.order_open

  -- The order may fill further: CONFIRMED, never submitted again.
  unfoldable pub keep_open : ℕ → SettlementRecord → M RuntimeResult
  unfolding with_filled settle
  keep_open i r =
      let amount = or_zero r.amount_usd in
      with_filled (some amount) (λ filled.
        settle i none confirmed (effect_change r (open_reason amount ∷ []) filled) (
          log e i (open_entry amount)
          >> current_result e i r.effect_id (open_reason amount ∷ []) true))

  -- Cancelled after a fill: the fill is the effect.
  unfoldable pub cancel_filled : ℕ → SettlementRecord → M RuntimeResult
  unfolding with_filled settle
  cancel_filled i r =
      let reasons = Reasons.settlement_cancelled_after_partial_fill ∷ [] in
      with_filled (some (or_zero r.amount_usd)) (λ filled.
        settle i none finalized (record (effect_change r reasons filled) { commit_usage = true })
          (log e i Entry.cancelled_after_partial_fill
            >> current_result e i r.effect_id reasons true))

  -- Cancelled before any fill: the permits are voided, then the reservation is released and the
  -- order's identity claimed in one transaction.
  unfoldable pub cancel_unfilled : IntentRow → SettlementRecord → M RuntimeResult
  unfolding settle
  cancel_unfilled stored r =
      let i = stored.intent_id in
      let reasons = Reasons.settlement_cancelled_unfilled ∷ [] in
      void_permits e i
      >> settle i stored.effect_id failed_safe
          (record (because reasons) { effect_id = r.effect_id; release_usage = true })
          (log e i Entry.cancelled_unfilled >> current_result e i none reasons true)

  unfoldable pub cancelled : IntentRow → SettlementRecord → M RuntimeResult
  unfolding cancel_filled cancel_unfilled
  cancelled stored r =
      if is_filled (or_zero r.amount_usd)
      then cancel_filled stored.intent_id r
      else if is_some stored.effect_id && has_filled stored.filled_amount_usd
      then stop_execution_state e stored.intent_id
          (Reasons.settlement_cancel_contradicts_recorded_effect ∷ []) stored.effect_id false true
      else cancel_unfilled stored r
