-- ===== src/Runtime/Amounts.antt =====
-- The amounts that a settlement may report for an authorized intent.
use faar_runtime.Common.{ℕ, ◌<◌, ◌≤◌, ◌≡◌, ◌↔◌, ◌⊎◌, Bool, true, false, Option, none, some, arith}
use faar_runtime.Common.Int.{ℤ, pos, negsuc}
use faar_runtime.Models.Enums.{SettlementStatus, is_monetary}
use faar_runtime.Models.Grant.{Intent}
use faar_runtime.Money.{parse_bounded_decimal, amount_field}
use faar_runtime.Money.Rounding.{Decimal, plus, minus}
use faar_runtime.Runtime.Integrity.{is_of_effect, is_pay, amount_integrity_reason, against}

-- A full settlement is of something, at most what was authorized, and a payment exactly that; an
-- open order has filled at most that, and is no payment; a cancelled one has filled nothing or at
-- most that, and a payment nothing or all.
abbrev pub Holds : SettlementStatus → Bool → ℕ → ℕ → Type 0
Holds SettlementStatus.cancelled pay n a = (a ≤ n) × (pay ≡ true → (a ≡ 0) ⊎ (a ≡ n))
Holds SettlementStatus.partially_filled pay n a = (a ≤ n) × (pay ≡ false)
Holds status pay n a = (0 < a) × (a ≤ n) × (pay ≡ true → a ≡ n)

-- Only a cancelled order may come without an amount, and no amount is below 0; the zero of either
-- sign is 0.
abbrev pub Fits : SettlementStatus → Bool → ℕ → Option Decimal → Type 0
Fits SettlementStatus.cancelled pay n none = Unit
Fits status pay n none = ⊥
Fits status pay n (some (plus a)) = Holds status pay n a
Fits status pay n (some (minus a)) = (a ≡ 0) × Holds status pay n 0

-- The authorized amount, and an amount that fits it.
abbrev pub IsAcceptable : SettlementStatus → Bool → Option Decimal → Option ℤ → Type 0
IsAcceptable status pay amount (some (pos n)) = (0 < n) × Fits status pay n amount
IsAcceptable status pay amount _ = ⊥

positive_iff :
    (status : SettlementStatus) (pay : Bool) (amount : Option Decimal) (n : ℕ)
    → is_of_effect status ≡ true
    → (against status pay amount (some (pos n)) ≡ none)
      ↔ IsAcceptable status pay amount (some (pos n))
positive_iff SettlementStatus.confirmed pay none n h = ground arith
positive_iff SettlementStatus.confirmed pay (some (plus a)) n h = ground arith
positive_iff SettlementStatus.confirmed pay (some (minus a)) n h = ground arith
positive_iff SettlementStatus.finalized pay none n h = ground arith
positive_iff SettlementStatus.finalized pay (some (plus a)) n h = ground arith
positive_iff SettlementStatus.finalized pay (some (minus a)) n h = ground arith
positive_iff SettlementStatus.partially_filled pay none n h = ground arith
positive_iff SettlementStatus.partially_filled pay (some (plus a)) n h = ground arith
positive_iff SettlementStatus.partially_filled pay (some (minus a)) n h = ground arith
positive_iff SettlementStatus.cancelled pay none n h = ground arith
positive_iff SettlementStatus.cancelled pay (some (plus a)) n h = ground arith
positive_iff SettlementStatus.cancelled pay (some (minus a)) n h = ground arith
positive_iff SettlementStatus.none pay amount n h = cc
positive_iff SettlementStatus.unknown pay amount n h = cc
positive_iff SettlementStatus.contradictory pay amount n h = cc

against_iff :
    (status : SettlementStatus) (pay : Bool) (amount : Option Decimal) (z : Option ℤ)
    → is_of_effect status ≡ true
    → (against status pay amount z ≡ none) ↔ IsAcceptable status pay amount z
against_iff status pay amount none h = (λ p. cc, λ p. absurd p)
against_iff status pay amount (some (negsuc n)) h = (λ p. cc, λ p. absurd p)
against_iff status pay amount (some (pos n)) h = positive_iff status pay amount n h

-- For an intent with an amount, a settlement of an effect passes the check of amounts exactly when
-- the authorized amount is positive and the reported one fits it; a negative amount never does.
pub amount_accepted_iff :
    (i : Intent) (status : SettlementStatus) (amount : Option Decimal)
    → is_monetary i.primitive ≡ true
    → is_of_effect status ≡ true
    → (amount_integrity_reason i status amount ≡ none)
      ↔ IsAcceptable status
          (is_pay i.primitive)
          amount
          (parse_bounded_decimal (amount_field i.payload))
unfolding amount_integrity_reason
amount_accepted_iff i status amount monetary effect =
    rw (effect, monetary)
      (against_iff status (is_pay i.primitive) amount
        (parse_bounded_decimal (amount_field i.payload)) effect)
