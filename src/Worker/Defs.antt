-- ===== src/Worker/Defs.antt =====
-- The surroundings of a worker, and its actions: a state with exceptions, in which what was
-- committed before an exception stays.
use Prim.Native.String.{String}
use faar_runtime.Common.{true, ℕ, ◌+◌, Bool, List, ◌∷◌, if◌then◌else◌}
use faar_runtime.Common.Result.{Result, ok, err}
use faar_runtime.Models.Payload.{Value}
use faar_runtime.Models.Grant.{CapabilityGrant, Intent, RiskSnapshot}
use faar_runtime.Models.Requests.{
  AttestationKind, Attestation, ExecutionRequest, ExecutionPermit, SignedPermit,
}
use faar_runtime.Models.Enums.{Verdict}
use faar_runtime.Gates.Decisions.{Layer}
use faar_runtime.Gates.Authority.{AuthorityDecision, AuthorityReason}
use faar_runtime.Gates.Capability.Shape.{CapabilityReason}
use faar_runtime.Gates.Risk.{RiskReason}
use faar_runtime.Settlement.Quorum.{SettlementRecord}
use faar_runtime.Store.Schema.{Store, StoreError}
use faar_runtime.Store.Usage.{UsageReason}
use faar_runtime.Store.Access.{Tx}
use faar_runtime.Store.Evidence.{Crypto, Content}

-- canonical_hash of each type of object.
pub record Hashes : Type 0 where
  pub intent : Intent → ℕ
  pub grant : CapabilityGrant → ℕ
  pub authority : AuthorityDecision → ℕ
  pub risk : RiskSnapshot → ℕ
  pub request : ExecutionRequest → ℕ
  pub attestation : Attestation → ℕ
  pub signed_permit : SignedPermit → ℕ
  -- the digest of the seed of a permit's id: grant, request, epoch and fence
  pub permit_id : Intent → ℕ → ℕ → ℕ → ℕ → ℕ

-- The numbers of the texts of the reasons that gates and stores give.
pub record Texts : Type 0 where
  pub authority : AuthorityReason → ℕ
  pub capability : CapabilityReason → ℕ
  pub risk : RiskReason → ℕ
  pub usage : UsageReason → ℕ
  -- "AUTHORITY_" + r, "RISK_" + r, "PERMIT_" + r and f"PERMIT_{layer}_{verdict}"
  pub of_authority : ℕ → ℕ
  pub of_risk : ℕ → ℕ
  pub of_permit : ℕ → ℕ
  pub refusal : Layer → Verdict → ℕ

-- What the runtime records as evidence, by the `event_type` of the source; the payload of an event
-- is a text of the data that the constructor names and of the arguments of the call.
pub data Entry : Type 0 where
  registered grant_runtime_inactive authorized authorization_recovered submission_started
        execution_ambiguous adapter_rejection_untrusted adapter_execution_exception
        adapter_receipt_untrusted reconciliation_exception reconciliation partial_fill order_open
        cancelled_after_partial_fill cancelled_unfilled ambiguity_window_open
        execution_permit_exception :
      Entry
  grant_rejected authorization_decision attestation_rejected execution_stopped
        usage_reservation_denied resubmission_blocked resubmit_authorization_failed
        execution_permit_rejected :
      List ℕ → Entry
  permits_voided : ℕ → Entry

-- What a call of an adapter ends with.
pub data Answer : Type 0 where
  receipt : Answer
  -- AmbiguousExecution, or a value that is no ExecutionReceipt
  ambiguous : Answer
  deadline_exceeded : Answer
  deterministic_failure : Answer
  crashed : Answer
  -- KeyboardInterrupt or SystemExit
  interrupted : Answer

-- What a call of a settlement verifier ends with; `malformed` is no SettlementRecord, or one whose
-- evidence the chain cannot carry.
pub data Verification : Type 0 where
  recorded : SettlementRecord → Verification
  raised : Verification
  malformed : Verification

-- The surroundings of a worker. A number tells the calls apart: what others did, whether a call is
-- refused and what an outside party answers may differ from call to call.
pub record Env : Type 0 where
  pub crypto : Crypto
  pub hashes : Hashes
  pub texts : Texts
  -- Python's str of a value that is not a text
  pub show : Value → String
  -- what the other workers, and the venues, commit before a call
  pub others : ℕ → Store → Store
  -- the datastore stays locked past the busy timeout
  pub is_locked : ℕ → Bool
  -- another worker holds the lease of the intent
  pub is_busy : ℕ → Bool
  pub clock : ℕ → ℕ
  pub orphaned_adapter_calls : ℕ → ℕ
  pub max_orphaned_adapter_calls : ℕ
  pub max_permit_ttl_seconds : ℕ
  -- _valid_effect_id: a text that is neither empty nor longer than 512
  pub is_effect_id : ℕ → Bool
  -- the venues with an adapter and a settlement verifier
  pub adapters : List ℕ
  pub adapter : ℕ → ExecutionRequest → SignedPermit → Answer
  pub verifier : ℕ → ExecutionRequest → Verification
  -- AttestationVerifier.verify of a subject's hash at a time: the reasons of a refusal
  pub trust : Attestation → AttestationKind → ℕ → ℕ → ℕ → List ℕ
  -- PermitSigner.sign
  pub sign : ExecutionPermit → ℕ
  pub content : ℕ → Entry → Content

-- The datastore, the number of calls made, the permits handed to adapters, and whether the fuel of
-- a nested reconciliation was spent, which the code has no counterpart of.
pub record World : Type 0 where
  pub store : Store
  pub calls : ℕ
  pub sent : List SignedPermit
  pub exhausted : Bool

-- The exceptions: those of the store, of the lease, of the busy datastore and of the issuance of a
-- permit, an interrupt of the interpreter, and the end of the fuel.
pub data Raised : Type 0 where
  store_error : StoreError → Raised
  intent_busy store_unavailable interrupt out_of_fuel : Raised
  permit_issuance_error : List ℕ → Raised

abbrev pub M : Type 0 → Type 0
M A = World → Result Raised A × World

abbrev pub pure : {A : Type 0} → A → M A
pure a w = (ok a, w)

abbrev pub raise : {A : Type 0} → Raised → M A
raise x w = (err x, w)

-- The fuel is spent.
unfoldable pub exhaust : {A : Type 0} → M A
exhaust w = (err out_of_fuel, record w { exhausted = true })

abbrev pub then_ : {A B : Type 0} → (A → M B) → Result Raised A → World → Result Raised B × World
then_ f (ok a) w = f a w
then_ f (err x) w = (err x, w)

infixl 5 ◌>>=◌ ◌>>◌
unfoldable pub ◌>>=◌ : {A B : Type 0} → M A → (A → M B) → M B
◌>>=◌ m f w = then_ f (m w).0 (m w).1

unfoldable pub ◌>>◌ : {A B : Type 0} → M A → M B → M B
unfolding ◌>>=◌
m >> n = m >>= λ _. n

-- try: m; except: handler
abbrev pub caught :
    {A : Type 0} → (Raised → M A) → Result Raised A → World → Result Raised A × World
caught handler (ok a) w = (ok a, w)
caught handler (err x) w = handler x w

unfoldable pub catch : {A : Type 0} → M A → (Raised → M A) → M A
catch m handler w = caught handler (m w).0 (m w).1

-- The exception becomes a value.
abbrev pub result_of :
    {A : Type 0} → Result Raised A → World → Result Raised (Result Raised A) × World
result_of r w = (ok r, w)

unfoldable pub attempt : {A : Type 0} → M A → M (Result Raised A)
attempt m w = result_of (m w).0 (m w).1

abbrev pub committed : {A : Type 0} → World → Store → Tx A → Result Raised A × World
committed w s (ok (a, t)) = (ok a, record w { store = t; calls = w.calls + 1 })
committed w s (err x) = (err (store_error x), record w { store = s; calls = w.calls + 1 })

-- One transaction of the store, after what others committed.
unfoldable pub call : {A : Type 0} → Env → (Store → Tx A) → M A
call e op w =
    let s = e.others w.calls w.store in
    if e.is_locked w.calls
    then (err store_unavailable, record w { store = s; calls = w.calls + 1 })
    else committed w s (op s)

abbrev pub read_from : {A : Type 0} → Store → Result StoreError A → Tx A
read_from s (ok a) = ok (a, s)
read_from s (err x) = err x

-- A reader of the store.
abbrev pub reading : {A : Type 0} → (Store → Result StoreError A) → Store → Tx A
reading op s = read_from s (op s)

-- A part of the surroundings at this moment.
unfoldable pub observe : {A : Type 0} → (ℕ → A) → M A
observe f w = (ok (f w.calls), record w { calls = w.calls + 1 })

-- adapter.execute, which may run while others commit
unfoldable pub transport : Env → ExecutionRequest → SignedPermit → M Answer
transport e q p w =
    (ok (e.adapter w.calls q p), record w { calls = w.calls + 1; sent = p ∷ w.sent })
