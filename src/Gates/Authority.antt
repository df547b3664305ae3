-- ===== src/Gates/Authority.antt =====
-- evaluate_authority: only EXECUTE with EXECUTE_ACTION is allowed.
use faar_runtime.Common.{ℕ, ◌≡◌, ◌↔◌, arith, List, [], ◌∷◌, map}
use faar_runtime.Models.Enums.{AuthorityPosture, AuthorityPrimitive, Verdict}
use faar_runtime.Gates.Decisions.{Decision, authority}

pub record AuthorityDecision : Type 0 where
  pub posture : AuthorityPosture
  pub primitive : AuthorityPrimitive
  pub reason_codes : List ℕ

pub data AuthorityReason : Type 0 where
  authority_stop authority_defer authority_posture_not_execute authority_primitive_not_execution :
      AuthorityReason
  given : ℕ → AuthorityReason

abbrev judged : Verdict → List AuthorityReason → Decision AuthorityReason
judged v rs = record { verdict = v; reason_codes = rs; layer = authority }

abbrev by_primitive : AuthorityPrimitive → Decision AuthorityReason
by_primitive AuthorityPrimitive.execute_action = judged Verdict.allow []
by_primitive _ = judged Verdict.deny (authority_primitive_not_execution ∷ [])

abbrev by_posture : AuthorityDecision → AuthorityPosture → Decision AuthorityReason
by_posture a AuthorityPosture.stop = judged Verdict.stop (authority_stop ∷ map given a.reason_codes)
by_posture a AuthorityPosture.defer =
    judged Verdict.defer (authority_defer ∷ map given a.reason_codes)
by_posture a AuthorityPosture.execute = by_primitive a.primitive
by_posture a AuthorityPosture.advise = judged Verdict.deny (authority_posture_not_execute ∷ [])

unfoldable pub evaluate_authority : AuthorityDecision → Decision AuthorityReason
evaluate_authority a = by_posture a a.posture

-- The gate allows exactly the decisions of the posture EXECUTE and the primitive EXECUTE_ACTION.
pub authority_allows_iff :
    (a : AuthorityDecision)
    → ((evaluate_authority a).verdict ≡ Verdict.allow)
      ↔ ((a.posture ≡ AuthorityPosture.execute) × (a.primitive ≡ AuthorityPrimitive.execute_action))
unfolding evaluate_authority
authority_allows_iff a = by_cases a.posture a.primitive
  where
    by_cases :
        (p : AuthorityPosture) (k : AuthorityPrimitive)
        → ((by_posture (record a { primitive = k }) p).verdict ≡ Verdict.allow)
          ↔ ((p ≡ AuthorityPosture.execute) × (k ≡ AuthorityPrimitive.execute_action))
    by_cases p k = ground arith
