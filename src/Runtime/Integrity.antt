-- ===== src/Runtime/Integrity.antt =====
-- The integrity of what a settlement reports: _effect_integrity_reason,
-- _effect_amount_integrity_reason and the regress of a recorded fill.
use faar_runtime.Common.{
  ℕ, ◌+◌, Bool, true, false, not, ◌&&◌, Option, none, some, ltb, ◌==◌, is_none, if◌then◌else◌,
}
use faar_runtime.Common.Int.{ℤ, pos}
use faar_runtime.Models.Enums.{SettlementStatus, EconomicPrimitive, is_monetary}
use faar_runtime.Models.Grant.{Intent}
use faar_runtime.Money.{parse_bounded_decimal, amount_field}
use faar_runtime.Money.Rounding.{Decimal, plus, minus}
use faar_runtime.Settlement.Quorum.{SettlementRecord}
use faar_runtime.Worker.Reasons.{
  settled_effect_id_required, settlement_lost_previous_effect, settlement_effect_id_mismatch,
  authorized_effect_amount_invalid, settled_amount_invalid, settled_amount_exceeds_authorized,
  payment_partial_not_allowed, settled_amount_required, payment_amount_mismatch,
}

-- CONFIRMED, FINALIZED, PARTIALLY_FILLED and CANCELLED are of an effect.
abbrev pub is_of_effect : SettlementStatus → Bool
is_of_effect SettlementStatus.confirmed = true
is_of_effect SettlementStatus.finalized = true
is_of_effect SettlementStatus.partially_filled = true
is_of_effect SettlementStatus.cancelled = true
is_of_effect _ = false

abbrev pub is_absent : SettlementStatus → Bool
is_absent SettlementStatus.none = true
is_absent _ = false

abbrev pub is_cancelled : SettlementStatus → Bool
is_cancelled SettlementStatus.cancelled = true
is_cancelled _ = false

abbrev mismatch : ℕ → Option ℕ → Option ℕ
mismatch previous none = none
mismatch previous (some effect) =
    if effect == previous then none else some settlement_effect_id_mismatch

abbrev continuity : Option ℕ → SettlementStatus → Option ℕ → Option ℕ
continuity none status effect = none
continuity (some previous) status effect =
    if is_absent status then some settlement_lost_previous_effect else mismatch previous effect

-- _effect_integrity_reason, of an effect id that is not the empty text
unfoldable pub effect_integrity_reason : Option ℕ → SettlementStatus → Option ℕ → Option ℕ
effect_integrity_reason previous status effect =
    if is_of_effect status && is_none effect
    then some settled_effect_id_required
    else continuity previous status effect

abbrev pub is_pay : EconomicPrimitive → Bool
is_pay EconomicPrimitive.pay = true
is_pay _ = false

abbrev pub over : ℕ → ℕ → Option ℕ
over intended amount = if ltb intended amount then some settled_amount_exceeds_authorized else none

-- actual_amount < 0
abbrev pub is_negative : Decimal → Bool
is_negative (plus n) = false
is_negative (minus n) = ltb 0 n

-- The number of an amount that is not negative.
abbrev pub magnitude : Decimal → ℕ
magnitude (plus n) = n
magnitude (minus n) = n

abbrev pub cancelled_amount : Bool → ℕ → Option Decimal → Option ℕ
cancelled_amount pay intended none = none
cancelled_amount pay intended (some amount) =
    let n = magnitude amount in
    if is_negative amount
    then some settled_amount_invalid
    else if ltb intended n
    then some settled_amount_exceeds_authorized
    else if pay && (not (n == 0) && not (n == intended))
    then some payment_partial_not_allowed
    else none

-- of an amount that is not negative
abbrev pub partial_amount : Bool → ℕ → ℕ → Option ℕ
partial_amount pay intended n = if pay then some payment_partial_not_allowed else over intended n

abbrev pub full_amount : Bool → ℕ → ℕ → Option ℕ
full_amount pay intended n =
    if n == 0
    then some settled_amount_invalid
    else if pay
    then if n == intended then none else some payment_amount_mismatch
    else over intended n

abbrev pub by_progress : SettlementStatus → Bool → ℕ → ℕ → Option ℕ
by_progress SettlementStatus.partially_filled pay intended n = partial_amount pay intended n
by_progress _ pay intended n = full_amount pay intended n

abbrev pub reported_amount : SettlementStatus → Bool → ℕ → Option Decimal → Option ℕ
reported_amount status pay intended none = some settled_amount_required
reported_amount status pay intended (some amount) =
    if is_negative amount
    then some settled_amount_invalid
    else by_progress status pay intended (magnitude amount)

abbrev pub amount_of : SettlementStatus → Bool → ℕ → Option Decimal → Option ℕ
amount_of SettlementStatus.cancelled pay intended amount = cancelled_amount pay intended amount
amount_of status pay intended amount = reported_amount status pay intended amount

abbrev pub against : SettlementStatus → Bool → Option Decimal → Option ℤ → Option ℕ
against status pay amount (some (pos intended)) =
    if intended == 0
    then some authorized_effect_amount_invalid
    else amount_of status pay intended amount
against status pay amount _ = some authorized_effect_amount_invalid

-- _effect_amount_integrity_reason; an amount of a record is finite
unfoldable pub amount_integrity_reason : Intent → SettlementStatus → Option Decimal → Option ℕ
unfolding amount_field parse_bounded_decimal is_monetary
amount_integrity_reason i status amount =
    if not (is_of_effect status)
    then none
    else if not (is_monetary i.primitive)
    then none
    else against status (is_pay i.primitive) amount (parse_bounded_decimal (amount_field i.payload))

-- amount < recorded, of a fill that is not negative
abbrev is_under : ℕ → Decimal → Bool
is_under recorded (plus n) = ltb n recorded
is_under recorded (minus n) = ltb 0 (recorded + n)

abbrev regressed : Bool → Option ℕ → Option Decimal → Bool
regressed cancelled (some recorded) (some amount) =
    is_under recorded amount && not (cancelled && magnitude amount == 0)
regressed cancelled _ _ = false

-- An authoritative amount below the one that was recorded; a cancel of nothing has its own code.
unfoldable pub is_fill_regressed : Option ℕ → SettlementRecord → Bool
is_fill_regressed recorded r =
    r.authoritative
    && (is_of_effect r.status && regressed (is_cancelled r.status) recorded r.amount_usd)
