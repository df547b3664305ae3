-- ===== src/Runtime/Tests/Theorems.antt =====
-- The theorems of the runtime on a payment, in surroundings where no other worker commits.
use faar_runtime.Money.{unit, parse_bounded_decimal, amount_field}
use faar_runtime.Common.{
  ◌+◌, ◌*◌, ◌≤◌, ◌≡◌, ◌↔◌, ◌⊎◌, refl, none, some, true, [], ◌∷◌, arith, false,
}
use faar_runtime.Worker.Reasons.{settled_amount_invalid}
use faar_runtime.Money.Rounding.{plus, minus}
use faar_runtime.Models.Enums.{SettlementStatus}
use faar_runtime.Runtime.Integrity.{is_pay}
use faar_runtime.Store.Steps.{here}
use faar_runtime.Worker.Defs.{Env, recorded}
use faar_runtime.Worker.Judgement.{evaluate_fresh}
use faar_runtime.Worker.Effects.{IsFair}
use faar_runtime.Runtime.Integrity.{amount_integrity_reason}
use faar_runtime.Runtime.Processing.{process}
use faar_runtime.Runtime.Reconciliation.{reconcile}
use faar_runtime.Runtime.Effects.Reconciliation.{IsAbsence}
use faar_runtime.Runtime.Resubmission.{resubmission-IsAbsence}
use faar_runtime.Runtime.Consumed.{HasConsumed, consumed_never_resubmitted}
use faar_runtime.Runtime.Attempts.{sent_le_attempts}
use faar_runtime.Runtime.Attempts.Counts.{attempts, length}
use faar_runtime.Runtime.Termination.Keeps.{IsLeased}
use faar_runtime.Runtime.Termination.Reconciliation.{reconcile_within_fuel}
use faar_runtime.Runtime.Termination.Processing.{process_within_fuel}
use faar_runtime.Runtime.Authorization.{
  IsRefused, reconcile_without_credentials, refused_never_submitted,
}
use faar_runtime.Runtime.Amounts.{IsAcceptable, amount_accepted_iff}
use faar_runtime.Runtime.Tests.Fixtures.{
  grant, payment, credentials, answer, quiet, empty_store, consumed_store, consumed_row,
  reserved_store, world,
}

abbrev finalizing : Env
finalizing = quiet (recorded (answer SettlementStatus.finalized))

abbrev denying : Env
denying = quiet (recorded (answer SettlementStatus.none))

denying-IsFair : IsFair denying
denying-IsFair k s = here

finalizing-IsFair : IsFair finalizing
finalizing-IsFair k s = here

resubmission-IsAbsence_example :
    IsAbsence denying payment
    ⊎ ((reconcile denying 3 payment grant
          (some credentials)
          true
          none
          (world consumed_store)).1.sent
        ≡ (world consumed_store).sent)
resubmission-IsAbsence_example =
    resubmission-IsAbsence denying 3 payment grant (some credentials) true none
      (world consumed_store)

consumed_once : HasConsumed consumed_store 100
unfolding faar_runtime.Table.find
consumed_once = record {
  permit = 900;
  row = consumed_row;
  recorded = refl;
  of_intent = refl;
  consumed = refl;
}

consumed_never_resubmitted_example :
    (reconcile denying 3 payment grant (some credentials) true none (world consumed_store)).1.sent
    ≡ (world consumed_store).sent
consumed_never_resubmitted_example =
    consumed_never_resubmitted denying 3 payment grant (some credentials) true none
      (world consumed_store) denying-IsFair consumed_once

sent_le_attempts_example :
    attempts empty_store 100
      + length (process finalizing 3 payment grant credentials (world empty_store)).1.sent
    ≤ length (world empty_store).sent
      + attempts (process finalizing 3 payment grant credentials (world empty_store)).1.store 100
sent_le_attempts_example =
    sent_le_attempts finalizing 3 payment grant credentials (world empty_store) finalizing-IsFair

negative_refused :
    amount_integrity_reason payment SettlementStatus.confirmed (some (minus unit))
    ≡ some settled_amount_invalid
unfolding amount_integrity_reason
negative_refused = refl

negative_cancel_refused :
    amount_integrity_reason payment SettlementStatus.cancelled (some (minus 1))
    ≡ some settled_amount_invalid
unfolding amount_integrity_reason
negative_cancel_refused = refl

amount_accepted_iff_example :
    (amount_integrity_reason payment SettlementStatus.finalized (some (plus (5 * unit))) ≡ none)
    ↔ IsAcceptable SettlementStatus.finalized
        (is_pay payment.primitive)
        (some (plus (5 * unit)))
        (parse_bounded_decimal (amount_field payment.payload))
unfolding faar_runtime.Models.Enums.is_monetary
amount_accepted_iff_example =
    amount_accepted_iff payment SettlementStatus.finalized (some (plus (5 * unit))) refl refl

reconcile_without_credentials_example :
    (reconcile denying 3 payment grant none true none (world consumed_store)).1.sent
    ≡ (world consumed_store).sent
reconcile_without_credentials_example =
    reconcile_without_credentials denying 3 payment grant true none (world consumed_store)

-- The trust store refuses every attestation.
abbrev distrusting : Env
distrusting = record finalizing { trust = λ _ _ _ _ _. 1 ∷ [] }

distrusting-IsRefused : IsRefused distrusting payment grant credentials
unfolding evaluate_fresh
distrusting-IsRefused t = refl

refused_never_submitted_example :
    (process distrusting 3 payment grant credentials (world empty_store)).1.sent
    ≡ (world empty_store).sent
refused_never_submitted_example =
    refused_never_submitted distrusting 3 payment grant credentials (world empty_store)
      distrusting-IsRefused

finalizing-IsLeased : IsLeased finalizing 100
finalizing-IsLeased k s = refl

denying-IsLeased : IsLeased denying 100
denying-IsLeased k s = refl

process_within_fuel_example :
    (process finalizing 3 payment grant credentials (world empty_store)).1.exhausted ≡ false
process_within_fuel_example =
    process_within_fuel finalizing 3 payment grant credentials (world empty_store) finalizing-IsFair
      finalizing-IsLeased (omega arith) refl

reconcile_within_fuel_example :
    (reconcile denying 2 payment grant
      (some credentials)
      true
      none
      (world reserved_store)).1.exhausted
    ≡ false
reconcile_within_fuel_example =
    reconcile_within_fuel denying 2 payment grant (some credentials) true none
      (world reserved_store) denying-IsFair denying-IsLeased (omega arith) refl
