-- ===== src/Permits/Issue.antt =====
-- ConstrainedPermitAuthority.issue: the independent checks, the claim of the risk state, the fence
-- and the recording of the permit. The signature and the digests are the surroundings'.
use faar_runtime.Common.{
  ℕ, ◌+◌, ◌*◌, Bool, true, false, not, ◌||◌, Option, none, some, List, [], ◌∷◌, ◌++◌, map, ltb, leb,
  ◌==◌, if◌then◌else◌,
}
use faar_runtime.Common.Int.{ℤ}
use faar_runtime.Common.Result.{Result, ok, err}
use faar_runtime.Models.Enums.{active, is_monetary}
use faar_runtime.Models.Grant.{CapabilityGrant, Intent, is_empty}
use faar_runtime.Models.Requests.{ExecutionRequest, ExecutionPermit, SignedPermit, from_intent}
use faar_runtime.Money.{parse_bounded_decimal, amount_field}
use faar_runtime.Gates.Decisions.{Decision}
use faar_runtime.Gates.Capability.Shape.{is_positive_amount}
use faar_runtime.Gates.Capability.Scope.{second, is_past}
use faar_runtime.Gates.Capability.Limits.{above_order}
use faar_runtime.Store.Schema.{permit_conflict, ControlStatus}
use faar_runtime.Store.Grants.{verify_grant, get_grant_control}
use faar_runtime.Store.Fences.{next_execution_fence}
use faar_runtime.Store.Permits.{record_execution_permit}
use faar_runtime.Store.Usage.{
  verify_usage_held, claim_permit_risk_state, Admission, admitted, rejected,
}
use faar_runtime.Worker.Defs.{
  Env, M, Raised, store_error, permit_issuance_error, pure, raise, ◌>>=◌, ◌>>◌, attempt, catch,
  call, reading,
}
use faar_runtime.Worker.Reasons.{
  mem, permit_request_not_canonical_intent_projection, permit_principal_mismatch,
  permit_grant_not_trusted, permit_usage_reservation_not_held, permit_intent_expired,
  permit_grant_expired, permit_amount_invalid, permit_amount_exceeds_grant,
  permit_risk_claim_unavailable, permit_risk_claim_rejected, permit_grant_fence_unavailable,
  permit_grant_epoch_changed, permit_ttl_empty, permit_previous_attempt_live,
}
use faar_runtime.Worker.Judgement.{
  Credentials, is_allow, trust_authority, trust_risk, evaluate_fresh,
}

abbrev pub code_when : Bool → ℕ → List ℕ
code_when true r = r ∷ []
code_when false r = []

-- dict.fromkeys(reasons): the first of each
unfoldable pub distinct : List ℕ → List ℕ → List ℕ
unfolding mem
distinct seen [] = []
distinct seen (r ∷ rs) =
    let skipped = distinct seen rs in
    let kept = distinct (r ∷ seen) rs in if mem r seen then skipped else r ∷ kept

abbrev pub is_err : {E A : Type 0} → Result E A → Bool
is_err (ok a) = false
is_err (err x) = true

abbrev pub is_active_control : ControlStatus → Bool
is_active_control (ControlStatus.runtime active) = true
is_active_control _ = false

abbrev pub min : ℕ → ℕ → ℕ
min a b = if ltb b a then b else a

abbrev pub min_option : ℕ → Option ℕ → ℕ
min_option a none = a
min_option a (some b) = min a b

-- grant.limits.max_order_usd is None or amount > grant.limits.max_order_usd
abbrev pub is_over_order : Option ℕ → Option ℤ → Bool
is_over_order none amount = true
is_over_order (some limit) none = false
is_over_order (some limit) (some z) = above_order (some limit) z

abbrev pub amount_codes : CapabilityGrant → Option ℤ → List ℕ
amount_codes g amount =
    code_when (not (is_positive_amount amount)) permit_amount_invalid
    ++ code_when (is_over_order g.limits.max_order_usd amount) permit_amount_exceeds_grant

module _ (e : Env) where
  -- A gate that does not allow: its layer and verdict, and its reasons.
  abbrev pub gate_codes : {R : Type 0} → (R → ℕ) → Decision R → List ℕ
  gate_codes code d =
      if is_allow d.verdict
      then []
      else e.texts.refusal d.layer d.verdict ∷ map e.texts.of_permit (map code d.reason_codes)

  abbrev pub is_projection : ExecutionRequest → Intent → Bool
  is_projection q i = e.hashes.request q == e.hashes.request (from_intent i)

  -- The reasons found before anything is written.
  unfoldable pub issue_reasons :
      ExecutionRequest → Intent → CapabilityGrant → Credentials → ℕ → Bool → Bool → List ℕ
  unfolding evaluate_fresh amount_field parse_bounded_decimal is_monetary
  issue_reasons q i g x now trusted held =
      let j = evaluate_fresh e i g x now in
      code_when (not (is_projection q i)) permit_request_not_canonical_intent_projection
      ++ (code_when
            (not (q.principal_id == i.principal_id) || not (g.principal_id == i.principal_id))
            permit_principal_mismatch
          ++ (code_when (not trusted) permit_grant_not_trusted
              ++ (map e.texts.of_permit (map e.texts.of_authority (trust_authority e i x now))
                  ++ (map e.texts.of_permit (map e.texts.of_risk (trust_risk e i x now))
                      ++ (gate_codes e.texts.authority j.authority
                          ++ (gate_codes e.texts.capability j.capability
                              ++ (gate_codes e.texts.risk j.risk
                                  ++ (code_when (not held) permit_usage_reservation_not_held
                                      ++ (code_when (ltb i.expires_at now) permit_intent_expired
                                          ++ (code_when (is_past g.valid_until now)
                                                permit_grant_expired
                                              ++ (if is_monetary i.primitive
                                                  then amount_codes g (
                                                      parse_bounded_decimal
                                                        (amount_field q.payload))
                                                  else [])))))))))))

  -- The permit does not outlive what it is derived from.
  unfoldable pub expiry : Intent → CapabilityGrant → Credentials → ℕ → ℕ
  expiry i g x now = min (min_option i.expires_at g.valid_until) (
      min (min x.authority_attestation.expires_at x.risk_attestation.expires_at)
        (now + e.max_permit_ttl_seconds * second))

  abbrev pub signed : ExecutionPermit → SignedPermit
  signed p = record { permit = p; signature = e.sign p }

  unfoldable pub new_permit :
      ExecutionRequest → Intent → CapabilityGrant → Credentials → ℕ → ℕ → ℕ → SignedPermit
  unfolding expiry amount_field parse_bounded_decimal
  new_permit q i g x epoch fence now = signed (record {
    permit_id = e.hashes.permit_id i (e.hashes.grant g) (e.hashes.request q) epoch fence;
    principal_id = i.principal_id;
    intent_id = i.intent_id;
    grant_id = g.grant_id;
    grant_version = g.version;
    grant_hash = e.hashes.grant g;
    request_hash = e.hashes.request q;
    authority_attestation_hash = e.hashes.attestation x.authority_attestation;
    risk_attestation_hash = e.hashes.attestation x.risk_attestation;
    grant_epoch = epoch;
    fence_token = fence;
    max_amount_usd = parse_bounded_decimal (amount_field q.payload);
    issued_at = now;
    expires_at = expiry i g x now;
  })

  abbrev pub claim_codes : List ℕ → List ℕ
  claim_codes [] = permit_risk_claim_rejected ∷ []
  claim_codes (r ∷ rs) = r ∷ rs

  -- PermitConflict is an earlier permit that a venue may still accept.
  abbrev pub on_record : {A : Type 0} → Raised → M A
  on_record (store_error permit_conflict) =
      raise (permit_issuance_error (permit_previous_attempt_live ∷ []))
  on_record other = raise other

  abbrev pub recorded : Intent → CapabilityGrant → ℕ → ℕ → ℕ → SignedPermit → M SignedPermit
  recorded i g epoch fence now p =
      catch
        (call e (λ s.
            record_execution_permit s p.permit.permit_id i g epoch fence (e.hashes.signed_permit p)
              (some p.permit.expires_at) (some now))
          >> pure p)
        on_record

  -- The control is read again after the fence: a change in between refuses the permit.
  abbrev pub minted :
      ExecutionRequest → Intent → CapabilityGrant → Credentials → ℕ → ℕ × ℕ → M SignedPermit
  minted q i g x now (epoch, fence) = do
    (status, current, _) ←
        call e (reading (λ s. get_grant_control s g.principal_id g.grant_id g.version))
    if not (is_active_control status) || not (current == epoch)
        then raise (permit_issuance_error (permit_grant_epoch_changed ∷ []))
        else if leb (expiry i g x now) now
        then raise (permit_issuance_error (permit_ttl_empty ∷ []))
        else recorded i g epoch fence now (new_permit q i g x epoch fence now)

  abbrev pub on_fence :
      ExecutionRequest
      → Intent
      → CapabilityGrant
      → Credentials
      → ℕ
      → Result Raised (ℕ × ℕ)
      → M SignedPermit
  on_fence q i g x now (ok r) = minted q i g x now r
  on_fence q i g x now (err _) = raise (permit_issuance_error (permit_grant_fence_unavailable ∷ []))

  abbrev pub fenced : ExecutionRequest → Intent → CapabilityGrant → Credentials → ℕ → M SignedPermit
  fenced q i g x now = attempt (call e (λ s. next_execution_fence s g)) >>= on_fence q i g x now

  abbrev pub on_claim :
      ExecutionRequest
      → Intent
      → CapabilityGrant
      → Credentials
      → ℕ
      → Result Raised Admission
      → M SignedPermit
  on_claim q i g x now (ok admitted) = fenced q i g x now
  on_claim q i g x now (ok (rejected rs)) =
      raise (permit_issuance_error (claim_codes (map e.texts.usage rs)))
  on_claim q i g x now (err _) = raise (permit_issuance_error (permit_risk_claim_unavailable ∷ []))

  abbrev pub claimed :
      ExecutionRequest → Intent → CapabilityGrant → Credentials → ℕ → M SignedPermit
  claimed q i g x now =
      attempt (call e (λ s. ok (claim_permit_risk_state s i g x.risk))) >>= on_claim q i g x now

  unfoldable pub issue :
      ExecutionRequest → Intent → CapabilityGrant → Credentials → ℕ → M SignedPermit
  unfolding issue_reasons distinct new_permit expiry
  issue q i g x now = do
    trusted ← attempt (call e (reading (λ s. verify_grant s g (e.hashes.grant g))))
    held ← call e (reading (λ s. ok (verify_usage_held s i g)))
    let reasons = issue_reasons q i g x now (not (is_err trusted)) held
    if is_empty reasons
        then claimed q i g x now
        else raise (permit_issuance_error (distinct [] reasons))
