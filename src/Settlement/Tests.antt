-- ===== src/Settlement/Tests.antt =====
-- The quorum on concrete answers.
use faar_runtime.Common.{◌+◌, ◌≤◌, ◌≡◌, refl, true, Option, none, some, List, [], ◌∷◌}
use Prim.Native.Nat.{◌^◌}
use faar_runtime.Money.Rounding.{Decimal, plus, minus, round28, normalize}
use faar_runtime.Table.{count}
use faar_runtime.Models.Enums.{SettlementStatus}
use faar_runtime.Settlement.Quorum.{SettlementRecord, Fact, settled, contested, verify}
use faar_runtime.Settlement.Votes.{supports, is_foreign}
use faar_runtime.Settlement.Finality.{backs, disputes}
use faar_runtime.Settlement.Agreement.{settled_by_quorum}

abbrev answer : SettlementStatus → Decimal → SettlementRecord
answer status amount = record {
  status = status;
  effect_id = some 31;
  amount_usd = some amount;
  authoritative = true;
  verified_request_hash = some 5;
}

-- One source lags behind the finality, and one raises.
abbrev answers : List (Option SettlementRecord)
answers =
    some (answer SettlementStatus.finalized (plus 50))
    ∷ none
    ∷ some (answer SettlementStatus.confirmed (plus 50))
    ∷ []

abbrev confirmed_fact : Fact
confirmed_fact = record {
  status = SettlementStatus.confirmed;
  effect_id = some 31;
  amount = some (plus 50);
}

lagging_agree : verify 2 5 answers ≡ settled confirmed_fact 2
unfolding verify
lagging_agree = refl

amounts_differ :
    verify 2 5 (
      some (answer SettlementStatus.finalized (plus 50))
      ∷ some (answer SettlementStatus.finalized (plus 51))
      ∷ [])
    ≡ contested
unfolding verify
amounts_differ = refl

-- Amounts that differ beyond 28 digits are one fact, and the rounded amount is settled.
long_amounts_agree :
    verify 2 5 (
      some (answer SettlementStatus.finalized (plus (10 ^ 30 + 1)))
      ∷ some (answer SettlementStatus.finalized (plus (10 ^ 30)))
      ∷ [])
    ≡ settled
        (record {
          status = SettlementStatus.finalized;
          effect_id = some 31;
          amount = some (plus (10 ^ 30));
        })
        2
unfolding verify
long_amounts_agree = refl

-- The text of a zero keeps its sign.
zeros_differ :
    verify 2 5 (
      some (answer SettlementStatus.cancelled (plus 0))
      ∷ some (answer SettlementStatus.cancelled (minus 0))
      ∷ [])
    ≡ contested
unfolding verify
zeros_differ = refl

half_to_even : round28 (10 ^ 29 + 50) ≡ 10 ^ 29
unfolding round28
half_to_even = refl

half_to_even_up : round28 (10 ^ 29 + 150) ≡ 10 ^ 29 + 200
unfolding round28
half_to_even_up = refl

longer : normalize (minus (10 ^ 28 + 6)) ≡ minus (10 ^ 28 + 10)
unfolding normalize
longer = refl

settled_by_quorum_example :
    (2 ≤ count (supports 5 (backs confirmed_fact)) answers)
    × (count (supports 5 (disputes confirmed_fact)) answers ≡ 0)
    × (count (is_foreign 5) answers ≡ 0)
settled_by_quorum_example = settled_by_quorum 2 5 answers confirmed_fact 2 lagging_agree

abbrev minority_raises : List (Option SettlementRecord)
minority_raises =
    some (answer SettlementStatus.confirmed (plus 50))
    ∷ none
    ∷ some (answer SettlementStatus.confirmed (plus 50))
    ∷ []
