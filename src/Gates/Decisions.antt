-- ===== src/Gates/Decisions.antt =====
-- Decision and _decision.
use faar_runtime.Common.{Bool, List, [], ◌∷◌, if◌then◌else◌}
use faar_runtime.Models.Enums.{Verdict}

pub data Layer : Type 0 where
  authority capability risk : Layer

pub record Decision (R : Type 0) : Type 0 where
  pub verdict : Verdict
  pub reason_codes : List R
  pub layer : Layer

-- `stop` is false at every call
abbrev verdict_of {ℓ} : {R : Type ℓ} → List R → Bool → Verdict
verdict_of [] defer = Verdict.allow
verdict_of (_ ∷ _) defer = if defer then Verdict.defer else Verdict.deny

abbrev pub decision : {R : Type 0} → Layer → List R → Bool → Decision R
decision layer reasons defer = record {
  verdict = verdict_of reasons defer;
  reason_codes = reasons;
  layer = layer;
}
