-- ===== src/Store/Usage/Windows.antt =====
-- The amount of a reservation, and the windows that the usage ledger sums over.
use faar_runtime.Common.{
  ℕ, ◌+◌, Bool, true, false, not, ◌&&◌, ◌||◌, Option, none, some, ltb, leb, ◌==◌, is_none,
  if◌then◌else◌,
}
use faar_runtime.Common.Int.{ℤ, pos}
use faar_runtime.Table.{count, sum}
use faar_runtime.Models.Enums.{is_monetary}
use faar_runtime.Models.Grant.{Intent}
use faar_runtime.Money.{parse_bounded_decimal, amount_field}
use faar_runtime.Money.Rounding.{sum28}
use faar_runtime.Store.Schema.{
  Reservation, UsageStatus, held, released, Attempt, ControlScope, global, principal, Store,
}

abbrev pub microseconds : ℕ
microseconds = 1000000

abbrev pub turnover_window_seconds : ℕ
turnover_window_seconds = 86400

-- LEGACY_PRINCIPAL_ID
abbrev pub legacy_principal_id : ℕ
legacy_principal_id = 0

abbrev pub is_held : UsageStatus → Bool
is_held held = true
is_held _ = false

-- status IN ('HELD','COMMITTED')
abbrev pub is_counted : UsageStatus → Bool
is_counted released = false
is_counted _ = true

abbrev pub positive_amount : Option ℤ → Option ℕ
positive_amount (some (pos n)) = if ltb 0 n then some n else none
positive_amount _ = none

-- _reservation_amount
unfoldable pub reservation_amount : Intent → Option ℕ
reservation_amount i =
    if not (is_monetary i.primitive)
    then some 0
    else positive_amount (parse_bounded_decimal (amount_field i.payload))

abbrev pub at_reservation : ℕ → Reservation → Bool
at_reservation i r = r.intent_id == i

-- principal_id IN (?, LEGACY_PRINCIPAL_ID)
abbrev pub owned_by : ℕ → ℕ → Bool
owned_by p q = q == p || q == legacy_principal_id

abbrev pub since : ℕ → Option ℕ → Bool
since start none = false
since start (some ts) = leb start ts

-- The rows of the trailing turnover window of a grant, over all its versions.
abbrev pub in_turnover : ℕ → ℕ → ℕ → ℕ → Reservation → Bool
in_turnover g p start day r =
    r.grant_id == g
    && (owned_by p r.principal_id
        && (is_counted r.status
            && (since start r.velocity_ts || (is_none r.velocity_ts && r.day_key == day))))

-- The same for a control scope.
abbrev pub in_scope_turnover : ControlScope → ℕ → ℕ → Reservation → Bool
in_scope_turnover global p start r = is_counted r.status && since start r.velocity_ts
in_scope_turnover (principal _) p start r =
    r.principal_id == p && (is_counted r.status && since start r.velocity_ts)

-- SQL leaves the order of the rows open; they are added in the order of insertion.
unfoldable pub scope_turnover : Store → ControlScope → ℕ → ℕ → ℕ
unfolding sum28
scope_turnover s scope p start =
    sum28 (in_scope_turnover scope p start) (λ r. r.amount_usd) 0 s.usage_reservations

abbrev pub in_attempt_window : ℕ → ℕ → ℕ → Attempt → Bool
in_attempt_window g p start a =
    a.grant_id == g && (owned_by p a.principal_id && leb start a.attempted_at)

abbrev is_excluded : Option ℕ → ℕ → Bool
is_excluded none i = false
is_excluded (some j) i = i == j

abbrev pub in_pending_window : ℕ → ℕ → ℕ → Option ℕ → Reservation → Bool
in_pending_window g p start exclude r =
    r.grant_id == g
    && (owned_by p r.principal_id
        && (since start r.velocity_ts
            && (not r.submitted && (is_counted r.status && not (is_excluded exclude r.intent_id)))))

-- _action_velocity_count_locked: the attempts in the window, and the reservations still to submit
unfoldable pub action_velocity_count : Store → ℕ → ℕ → ℕ → Option ℕ → ℕ
action_velocity_count s g p start exclude =
    sum (in_attempt_window g p start) (λ a. a.action_count) s.submission_attempts
    + count (in_pending_window g p start exclude) s.usage_reservations
