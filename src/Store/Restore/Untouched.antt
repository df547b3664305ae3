-- ===== src/Store/Restore/Untouched.antt =====
-- The operations that leave the anchor alone.
use faar_runtime.Common.{
  ℕ, ◌/◌, ◌*◌, ◌≡◌, refl, Bool, true, false, not, ◌&&◌, ◌||◌, Option, none, some, List, [], ◌∷◌,
  ◌++◌, ◌==◌, leb, if◌then◌else◌,
}
use faar_runtime.Common.Result.{ok, err, ◌>>=◌, ◌>>◌, require}
use faar_runtime.Table.{find, exists}
use faar_runtime.Models.Enums.{IntentState, submitted}
use faar_runtime.Models.Grant.{CapabilityGrant, Intent, RiskSnapshot}
use faar_runtime.Store.Schema.{
  IntentRow, Reservation, RiskClaim, ControlScope, ControlRow, Store, permit_conflict,
  integrity_error, key_error, value_error, evidence_integrity, evidence_too_large,
}
use faar_runtime.Store.Access.{Tx, same_scope, require_anchor}
use faar_runtime.Store.Controls.{resume}
use faar_runtime.Store.Permits.{
  record_execution_permit, void_unconsumed_permits, live_conflict, clashes,
}
use faar_runtime.Store.Usage.{
  reserve_usage, reserve_amount, reserve_existing, reserve_new, reserve_reasons, reservation_amount,
  at_reservation, claim_clash, microseconds, UsageReason, Admission, claim_permit_risk_state,
  claim_found, is_not_monotonic, at_risk_claim, verify_usage_held,
}
use faar_runtime.Store.Evidence.{
  Crypto, Content, append_evidence, add_evidence, is_head_matching, chain_length, chain_tail,
  next_event, appended, max_evidence_row_chars,
}
use faar_runtime.Store.Lifecycle.{
  at_intent, find_intent, is_allowed, is_expected, Change, or_old, is_effect_taken, transition,
  register, register_row, new_intent, begin_submission, submit_reserved, is_bad_snapshot,
  is_velocity_spent,
}
use faar_runtime.Store.Ensures.{
  Ensures, Ensures-require, Ensures-or_raise, Ensures-bind, Ensures-if,
}

abbrev pub SameAnchor : Store → Store → Type 0
SameAnchor s t = t.anchor ≡ s.anchor

pub resume-SameAnchor :
    (s : Store) (scope : ControlScope) → Ensures (λ _. SameAnchor s) (resume s scope)
unfolding resume
resume-SameAnchor s scope =
    Ensures-bind (λ _. SameAnchor s) (require_anchor s) _
      λ _ _.
        Ensures-require (λ _. SameAnchor s)
          (exists (λ (c : ControlRow). same_scope c.scope scope) s.runtime_controls) key_error _
          λ _. refl

pub record_execution_permit-SameAnchor :
    (s : Store) (permit : ℕ) (i : Intent) (g : CapabilityGrant) (epoch fence hash : ℕ)
    (expires now : Option ℕ)
    → Ensures
        (λ _. SameAnchor s)
        (record_execution_permit s permit i g epoch fence hash expires now)
unfolding record_execution_permit
record_execution_permit-SameAnchor s permit i g epoch fence hash expires now =
    Ensures-require (λ _. SameAnchor s) (not (live_conflict s i.intent_id g now)) permit_conflict _
      λ _.
        Ensures-require (λ _. SameAnchor s)
          (not (exists (clashes permit g.grant_id g.version fence) s.execution_permits))
          integrity_error _ λ _. refl

pub void_unconsumed_permits-SameAnchor :
    (s : Store) (i ts : ℕ) → SameAnchor s (void_unconsumed_permits s i ts).1
unfolding void_unconsumed_permits
void_unconsumed_permits-SameAnchor s i ts = refl

module _ (s : Store) (i : Intent) (g : CapabilityGrant) (risk : RiskSnapshot) where
  reserve_new-SameAnchor :
      (amount now day : ℕ) (rs : List UsageReason)
      → Ensures (λ _. SameAnchor s) (reserve_new s i g risk amount now day rs)
  reserve_new-SameAnchor amount now day [] =
      Ensures-if (λ _. SameAnchor s) (exists (claim_clash i g risk) s.risk_claims) _ _ (λ _. tt)
        (λ _. refl)
  reserve_new-SameAnchor amount now day (r ∷ rs) = refl

  reserve_existing-SameAnchor :
      (amount now day : ℕ) (o : Option Reservation)
      → Ensures (λ _. SameAnchor s) (reserve_existing s i g risk amount now day o)
  reserve_existing-SameAnchor amount now day none =
      reserve_new-SameAnchor amount now day (reserve_reasons s i g risk amount now day)
  reserve_existing-SameAnchor amount now day (some old) =
      Ensures-if (λ _. SameAnchor s) (old.principal_id == i.principal_id) _ _ (λ _. refl)
        (λ _. refl)

  reserve_amount-SameAnchor :
      (now : ℕ) (o : Option ℕ) → Ensures (λ _. SameAnchor s) (reserve_amount s i g risk now o)
  reserve_amount-SameAnchor now none = refl
  reserve_amount-SameAnchor now (some amount) =
      reserve_existing-SameAnchor amount (now / microseconds) (now / (86400 * microseconds))
        (find (at_reservation i.intent_id) s.usage_reservations)

  pub reserve_usage-SameAnchor :
      (now : ℕ) → Ensures (λ _. SameAnchor s) (reserve_usage s i g risk now)
  unfolding reserve_usage
  reserve_usage-SameAnchor now = reserve_amount-SameAnchor now (reservation_amount i)

  SameAnchor-if :
      (b : Bool) (x y : Admission × Store)
      → SameAnchor s x.1
      → SameAnchor s y.1
      → SameAnchor s (if b then x else y).1
  SameAnchor-if true x y h k = h
  SameAnchor-if false x y h k = k

  claim_found-SameAnchor : (o : Option RiskClaim) → SameAnchor s (claim_found s i g risk o).1
  claim_found-SameAnchor none = SameAnchor-if (is_not_monotonic s g risk) _ _ refl refl
  claim_found-SameAnchor (some c) =
      SameAnchor-if (not (c.principal_id == i.principal_id) || not (c.intent_id == i.intent_id)) _ _
        refl refl

  pub claim_permit_risk_state-SameAnchor : SameAnchor s (claim_permit_risk_state s i g risk).1
  unfolding claim_permit_risk_state
  claim_permit_risk_state-SameAnchor =
      SameAnchor-if (not (verify_usage_held s i g)) _ _ refl
        (claim_found-SameAnchor (find (at_risk_claim g risk) s.permit_risk_claims))

append_evidence-SameAnchor :
    (c : Crypto) (s t : Store) (i p : ℕ) (x : Content)
    → SameAnchor s t
    → Ensures (λ _. SameAnchor s) (append_evidence c t i p x)
unfolding append_evidence
append_evidence-SameAnchor c s t i p x same =
    Ensures-require (λ _. SameAnchor s) (is_head_matching c t i (chain_length t i) (chain_tail t i))
      evidence_integrity (require (leb x.size max_evidence_row_chars) evidence_too_large >> written)
      λ _.
        Ensures-require (λ _. SameAnchor s) (leb x.size max_evidence_row_chars) evidence_too_large
          written λ _. same
  where
    written : Tx ℕ
    written = let e = next_event c t i p x in ok (e.event_hash, appended c t i e)

pub add_evidence-SameAnchor :
    (c : Crypto) (s : Store) (i : ℕ) (x : Content)
    → Ensures (λ _. SameAnchor s) (add_evidence c s i x)
unfolding add_evidence
add_evidence-SameAnchor c s i x =
    Ensures-or_raise (λ _. SameAnchor s) (find (at_intent i) s.intents) key_error _
      λ row _. append_evidence-SameAnchor c s s i row.principal_id x refl

returned :
    {A B : Type 0} (s : Store) (m : Tx A) (b : B)
    → Ensures (λ _. SameAnchor s) m
    → Ensures (λ _. SameAnchor s) (m >>= λ r. ok (b, r.1))
returned s (ok r) b h = h
returned s (err e) b h = tt

pub register-SameAnchor :
    (c : Crypto) (s : Store) (i : Intent) (hash : ℕ) (x : Content)
    → Ensures (λ _. SameAnchor s) (register c s i hash x)
unfolding register
register-SameAnchor c s i hash x = registered (find_intent s i.intent_id)
  where
    registered : (o : Option IntentRow) → Ensures (λ _. SameAnchor s) (register_row c s i hash x o)
    registered none = returned s _ (new_intent i hash) (
        append_evidence-SameAnchor c s
          (record s { db = record s.db { intents = s.intents ++ new_intent i hash ∷ [] } })
          i.intent_id i.principal_id x refl)
    registered (some row) =
        Ensures-if (λ _. SameAnchor s) (not (row.principal_id == i.principal_id)) _ _ (λ _. tt)
          λ _.
            Ensures-if (λ _. SameAnchor s) (not (row.intent_hash == hash)) _ _ (λ _. tt) (λ _. refl)

pub transition-SameAnchor :
    (s : Store) (i : ℕ) (expected : List IntentState) (state : IntentState) (c : Change)
    → Ensures (λ _. SameAnchor s) (transition s i expected state c)
unfolding transition
transition-SameAnchor s i expected state c =
    Ensures-require (λ _. SameAnchor s) (not (c.release_usage && c.commit_usage)) value_error _
      λ _.
        Ensures-or_raise (λ _. SameAnchor s) (find_intent s i) key_error _
          λ row _.
            Ensures-if (λ _. SameAnchor s) (not (is_expected row.state expected)) _ _ (λ _. refl)
              λ _.
                Ensures-if (λ _. SameAnchor s) (not (is_allowed row.state state)) _ _ (λ _. tt)
                  λ _.
                    Ensures-if (λ _. SameAnchor s)
                      (is_effect_taken s row (or_old c.effect_id row.effect_id)) _ _ (λ _. tt)
                      (λ _. refl)

submit_reserved-SameAnchor :
    (s : Store) (row : IntentRow) (i now : ℕ) (o : Option Reservation)
    → Ensures (λ _. SameAnchor s) (submit_reserved s row i now o)
submit_reserved-SameAnchor s row i now none = tt
submit_reserved-SameAnchor s row i now (some r) =
    Ensures-if (λ _. SameAnchor s) (is_bad_snapshot r) _ _ (λ _. tt)
      λ _.
        Ensures-if (λ _. SameAnchor s) (is_velocity_spent s r i _) _ _ (λ _. refl)
          λ _.
            Ensures-if (λ _. SameAnchor s) (not (is_allowed row.state submitted)) _ _ (λ _. tt)
              (λ _. refl)

pub begin_submission-SameAnchor :
    (s : Store) (i : ℕ) (expected : List IntentState) (max_attempts now : ℕ)
    → Ensures (λ _. SameAnchor s) (begin_submission s i expected max_attempts now)
unfolding begin_submission
begin_submission-SameAnchor s i expected max_attempts now =
    Ensures-or_raise (λ _. SameAnchor s) (find_intent s i) key_error _
      λ row _.
        Ensures-if (λ _. SameAnchor s) (not (is_expected row.state expected)) _ _ (λ _. refl)
          λ _.
            Ensures-if (λ _. SameAnchor s) (leb max_attempts row.submission_count) _ _ (λ _. refl)
              λ _.
                submit_reserved-SameAnchor s row i now
                  (find (at_reservation i) s.usage_reservations)
