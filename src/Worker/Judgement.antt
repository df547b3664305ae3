-- ===== src/Worker/Judgement.antt =====
-- FAARRuntime._evaluate_fresh and _dominant: both attestations and the three gates at one time.
use faar_runtime.Common.{ℕ, Bool, true, false, List, ◌++◌, map, ltb, if◌then◌else◌}
use faar_runtime.Models.Enums.{Verdict}
use faar_runtime.Models.Grant.{CapabilityGrant, Intent, RiskSnapshot}
use faar_runtime.Models.Requests.{AttestationKind, Attestation}
use faar_runtime.Gates.Decisions.{Decision}
use faar_runtime.Gates.Authority.{AuthorityDecision, AuthorityReason, evaluate_authority}
use faar_runtime.Gates.Capability.Shape.{CapabilityReason}
use faar_runtime.Gates.Capability.{evaluate_capability}
use faar_runtime.Gates.Risk.{RiskReason, evaluate_risk}
use faar_runtime.Worker.Defs.{Env}

-- What a caller presents: the decision of the authority and the risk snapshot, both signed.
pub record Credentials : Type 0 where
  pub authority : AuthorityDecision
  pub risk : RiskSnapshot
  pub authority_attestation : Attestation
  pub risk_attestation : Attestation

pub record Judgement : Type 0 where
  pub authority : Decision AuthorityReason
  pub capability : Decision CapabilityReason
  pub risk : Decision RiskReason
  pub trust_reasons : List ℕ

-- rank
abbrev pub rank : Verdict → ℕ
rank Verdict.allow = 0
rank Verdict.defer = 1
rank Verdict.deny = 2
rank Verdict.stop = 3

abbrev pub worse : Verdict → Verdict → Verdict
worse v w = if ltb (rank v) (rank w) then w else v

-- _dominant(decisions).verdict
unfoldable pub dominant : Judgement → Verdict
dominant j = worse (worse j.authority.verdict j.capability.verdict) j.risk.verdict

abbrev pub is_allow : Verdict → Bool
is_allow Verdict.allow = true
is_allow _ = false

module _ (e : Env) where
  abbrev pub trust_authority : Intent → Credentials → ℕ → List ℕ
  trust_authority i x now =
      e.trust x.authority_attestation AttestationKind.authority (e.hashes.authority x.authority)
        (e.hashes.intent i) now

  abbrev pub trust_risk : Intent → Credentials → ℕ → List ℕ
  trust_risk i x now =
      e.trust x.risk_attestation AttestationKind.risk (e.hashes.risk x.risk) (e.hashes.intent i) now

  unfoldable pub evaluate_fresh : Intent → CapabilityGrant → Credentials → ℕ → Judgement
  evaluate_fresh i g x now = record {
    authority = evaluate_authority x.authority;
    capability = evaluate_capability e.show i g now;
    risk = evaluate_risk g x.risk now;
    trust_reasons =
        map e.texts.of_authority (trust_authority i x now)
        ++ map e.texts.of_risk (trust_risk i x now);
  }

  -- tuple(r for d in decisions for r in d.reason_codes)
  unfoldable pub decision_codes : Judgement → List ℕ
  decision_codes j =
      map e.texts.authority j.authority.reason_codes
      ++ (map e.texts.capability j.capability.reason_codes ++ map e.texts.risk j.risk.reason_codes)
