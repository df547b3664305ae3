-- ===== src/Store/Tests/Life.antt =====
-- The life of an intent, and reservations, on the fixtures.
use faar_runtime.Common.{
  ℕ, ◌*◌, ◌/◌, ◌≡◌, ◌≢◌, refl, arith, Bool, true, false, none, some, [], ◌∷◌, ◌==◌, if◌then◌else◌,
}
use faar_runtime.Common.Result.{ok}
use faar_runtime.Table.{find, count}
use faar_runtime.Models.Enums.{IntentState, reserved, submitted, confirmed, finalized, stopped}
use faar_runtime.Money.{unit}
use faar_runtime.Money.Rounding.{add28}
use faar_runtime.Store.Schema.{IntentRow, Store}
use faar_runtime.Store.Usage.{
  reserve_usage, reservation_amount, at_reservation, microseconds, admitted,
}
use faar_runtime.Store.Lifecycle.{
  at_intent, find_intent, transition, begin_submission, started, is_terminal,
}
use faar_runtime.Store.Progress.Owners.{Owners, IsLedgered, of_intent, counted}
use faar_runtime.Store.Steps.{here, next, submit}
use faar_runtime.Store.Intents.Terminal.{terminal_for_good, effects_unique, attempts_ledgered}
use faar_runtime.Store.Intents.Transition.{IsTransitioned, transition_succeeds}
use faar_runtime.Store.Intents.Submission.{IsStarted, submission_within_limits}
use faar_runtime.Store.Budget.Reservation.{IsWithinBudget, reservation-IsWithinBudget}
use faar_runtime.Store.Tests.Fixtures.{
  grant, payment, risk, intent_row, store_at, after, crypto, no_change,
}
use faar_runtime.Money.{unit}

abbrev store : Store
store = store_at reserved

abbrev ended : Store
ended = store_at finalized

found_ended : find_intent ended 100 ≡ some (intent_row finalized)
unfolding find
found_ended = refl

terminal_for_good_example :
    ((later : IntentRow) × (find_intent ended 100 ≡ some later)
      × (later.state ≡ finalized)
      × (later.effect_id ≡ some 31)
      × (later.submission_count ≡ 0))
    × (transition ended 100 (finalized ∷ []) stopped no_change ≢ ok (true, store))
    × (begin_submission ended 100 (finalized ∷ []) 2 4000000 ≢ ok (started 1, store))
unfolding is_terminal
terminal_for_good_example =
    terminal_for_good crypto ended ended store 100 (intent_row finalized) (finalized ∷ []) stopped
      no_change 2 4000000 1 found_ended refl here

abbrev stopped_store : Store
stopped_store = after store (transition store 100 (reserved ∷ []) stopped no_change)

stop_eq : transition store 100 (reserved ∷ []) stopped no_change ≡ ok (true, stopped_store)
unfolding transition find faar_runtime.Store.Lifecycle.is_expected
    faar_runtime.Store.Lifecycle.is_allowed faar_runtime.Table.exists
stop_eq = refl

transition_succeeds_example :
    IsTransitioned store 100 (reserved ∷ []) stopped no_change stopped_store
transition_succeeds_example =
    transition_succeeds store stopped_store 100 (reserved ∷ []) stopped no_change stop_eq

abbrev submitted_store : Store
submitted_store = after store (begin_submission store 100 (reserved ∷ []) 2 4000000)

submit_eq : begin_submission store 100 (reserved ∷ []) 2 4000000 ≡ ok (started 1, submitted_store)
unfolding begin_submission find faar_runtime.Store.Lifecycle.is_expected
    faar_runtime.Store.Usage.action_velocity_count faar_runtime.Table.sum count
    faar_runtime.Store.Lifecycle.is_allowed
submit_eq = refl

submission_within_limits_example : IsStarted store 100 (reserved ∷ []) 2 4000000 1 submitted_store
submission_within_limits_example =
    submission_within_limits store submitted_store 100 (reserved ∷ []) 2 4000000 1 submit_eq

found_intent : find_intent store 100 ≡ some (intent_row reserved)
unfolding find
found_intent = refl

store-Owners : Owners store.intents
unfolding find
store-Owners i j e r q hi hj venue a b = same (100 == i) (100 == j) refl refl hi hj
  where
    same :
        (x y : Bool)
        → 100 == i ≡ x
        → 100 == j ≡ y
        → (if x then some (intent_row reserved) else none) ≡ some r
        → (if y then some (intent_row reserved) else none) ≡ some q
        → i ≡ j
    same true true x y h k = ground arith
    same false y ex ey h k = cc
    same true false ex ey h k = cc

found_submitted :
    find_intent submitted_store 100
    ≡ some (record (intent_row reserved) { state = submitted; submission_count = 1 })
unfolding find begin_submission faar_runtime.Store.Lifecycle.is_expected
    faar_runtime.Store.Usage.action_velocity_count faar_runtime.Table.sum count
    faar_runtime.Store.Lifecycle.is_allowed faar_runtime.Table.update
found_submitted = refl

effects_unique_example : Path ℕ 100 100
effects_unique_example =
    effects_unique crypto store submitted_store 100 100 31
      (record (intent_row reserved) { state = submitted; submission_count = 1 })
      (record (intent_row reserved) { state = submitted; submission_count = 1 }) store-Owners
      (next here (submit 100 (reserved ∷ []) 2 4000000 (started 1) submitted_store submit_eq))
      found_submitted found_submitted refl refl refl

store-IsLedgered : IsLedgered store.intents store.submission_attempts
unfolding count find
store-IsLedgered i = by_id (100 == i)
  where
    by_id : (b : Bool) → 0 ≡ counted (if b then some (intent_row reserved) else none)
    by_id true = refl
    by_id false = refl

attempts_ledgered_example :
    count (of_intent 100) submitted_store.submission_attempts
    ≡ counted (find_intent submitted_store 100)
attempts_ledgered_example =
    attempts_ledgered crypto store submitted_store 100 store-IsLedgered
      (next here (submit 100 (reserved ∷ []) 2 4000000 (started 1) submitted_store submit_eq))

abbrev reserved_store : Store
reserved_store = after store (reserve_usage store payment grant risk 4000000)

reserve_eq : reserve_usage store payment grant risk 4000000 ≡ ok (admitted, reserved_store)
unfolding reserve_usage reservation_amount faar_runtime.Models.Enums.is_monetary
    faar_runtime.Money.parse_bounded_decimal faar_runtime.Money.amount_field find
    faar_runtime.Store.Usage.reserve_reasons faar_runtime.Table.max_of
    faar_runtime.Store.Usage.turnover faar_runtime.Table.sum faar_runtime.Store.Usage.caps_regressed
    faar_runtime.Anchor.high_water faar_runtime.Anchor.regressed faar_runtime.Anchor.same_key
    faar_runtime.Store.Usage.cap_reasons faar_runtime.Store.Usage.action_velocity_count count
    faar_runtime.Table.exists
reserve_eq = refl

amount_eq : reservation_amount payment ≡ some (5 * unit)
unfolding reservation_amount faar_runtime.Models.Enums.is_monetary
    faar_runtime.Money.parse_bounded_decimal faar_runtime.Money.amount_field
amount_eq = refl

unreserved : find (at_reservation 101) store.usage_reservations ≡ none
unfolding find
unreserved = refl

reservation-IsWithinBudget_example :
    IsWithinBudget store payment grant risk
      (5 * unit)
      (4000000 / microseconds)
      (4000000 / (86400 * microseconds))
      reserved_store
reservation-IsWithinBudget_example =
    reservation-IsWithinBudget store reserved_store payment grant risk 4000000 (5 * unit) amount_eq
      unreserved reserve_eq

-- 100 and a part of it beyond 28 digits are 100.
rounded_away : add28 (100 * unit) 1 ≡ 100 * unit
unfolding add28
rounded_away = refl
