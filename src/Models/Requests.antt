-- ===== src/Models/Requests.antt =====
-- Attestation, ExecutionRequest and ExecutionPermit of `faar/models.py`.
use faar_runtime.Common.{ℕ, Option}
use faar_runtime.Common.Int.{ℤ}
use faar_runtime.Models.Enums.{EconomicPrimitive}
use faar_runtime.Models.Grant.{Intent}
use faar_runtime.Models.Payload.{Payload}

pub data AttestationKind : Type 0 where
  authority risk : AttestationKind

-- Key id, algorithm and signature are one number here: only the trust store reads them.
pub record Attestation : Type 0 where
  pub kind : AttestationKind
  pub signed_by : ℕ
  pub subject_hash : ℕ
  pub intent_hash : ℕ
  pub issued_at : ℕ
  pub expires_at : ℕ

pub record ExecutionRequest : Type 0 where
  pub principal_id : ℕ
  pub intent_id : ℕ
  pub primitive : EconomicPrimitive
  pub venue : ℕ
  pub payload : Payload

-- ExecutionRequest.from_intent
abbrev pub from_intent : Intent → ExecutionRequest
from_intent i = record {
  principal_id = i.principal_id;
  intent_id = i.intent_id;
  primitive = i.primitive;
  venue = i.venue;
  payload = i.payload;
}

pub record ExecutionPermit : Type 0 where
  pub permit_id : ℕ
  pub principal_id : ℕ
  pub intent_id : ℕ
  pub grant_id : ℕ
  pub grant_version : ℕ
  pub grant_hash : ℕ
  pub request_hash : ℕ
  pub authority_attestation_hash : ℕ
  pub risk_attestation_hash : ℕ
  pub grant_epoch : ℕ
  pub fence_token : ℕ
  pub max_amount_usd : Option ℤ
  pub issued_at : ℕ
  pub expires_at : ℕ

-- SignedExecutionPermit; `signature` stands for the signer, the algorithm and the signature.
pub record SignedPermit : Type 0 where
  pub permit : ExecutionPermit
  pub signature : ℕ
