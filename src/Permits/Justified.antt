-- ===== src/Permits/Justified.antt =====
-- What a permit that is issued stands for.
use mathlib.Core.List.{append-eq-nil_iff, map-eq-nil_iff}
use faar_runtime.Common.{
  ℕ, ◌≤◌, ◌<◌, ◌≡◌, refl, Bool, true, false, not, ◌||◌, Option, List, [], ◌∷◌, arith, ltb, leb,
  ◌==◌, if◌then◌else◌,
}
use faar_runtime.Common.Int.{ℤ}
use faar_runtime.Common.Result.{Result, ok, err}
use faar_runtime.Models.Enums.{Verdict, is_monetary}
use faar_runtime.Models.Grant.{CapabilityGrant, Intent, is_empty}
use faar_runtime.Models.Requests.{ExecutionRequest, SignedPermit}
use faar_runtime.Money.{parse_bounded_decimal, amount_field}
use faar_runtime.Gates.Decisions.{Decision}
use faar_runtime.Gates.Capability.Shape.{is_positive_amount}
use faar_runtime.Gates.Capability.Scope.{is_past}
use faar_runtime.Store.Schema.{permit_conflict, ControlStatus}
use faar_runtime.Store.Usage.{Admission, admitted, rejected}
use faar_runtime.Worker.Defs.{Env, World, Raised, store_error}
use faar_runtime.Worker.Judgement.{Credentials, trust_authority, trust_risk, evaluate_fresh}
use faar_runtime.Permits.Issue.{
  code_when, is_err, is_over_order, amount_codes, is_active_control, gate_codes, is_projection,
  issue_reasons, expiry, new_permit, on_record, minted, on_fence, on_claim, claimed, issue,
}
use faar_runtime.Worker.Gives.{
  Gives, Gives-pure, Gives-raise, Gives-test, Gives-bind, Gives-then, Gives-catch,
}

-- Both signatures are trusted, the three gates allow, the request is that of the intent, nothing
-- has expired, and an amount is positive and within the order limit.
pub record IsJustified (e : Env) (q : ExecutionRequest) (i : Intent) (g : CapabilityGrant)
    (x : Credentials) (now : ℕ) : Type 0 where
  pub projection : is_projection e q i ≡ true
  pub principal : g.principal_id ≡ i.principal_id
  pub authority_trusted : trust_authority e i x now ≡ []
  pub risk_trusted : trust_risk e i x now ≡ []
  pub authority_allows : (evaluate_fresh e i g x now).authority.verdict ≡ Verdict.allow
  pub capability_allows : (evaluate_fresh e i g x now).capability.verdict ≡ Verdict.allow
  pub risk_allows : (evaluate_fresh e i g x now).risk.verdict ≡ Verdict.allow
  pub unexpired : now ≤ i.expires_at
  pub grant_unexpired : is_past g.valid_until now ≡ false
  pub positive :
      is_monetary i.primitive ≡ true
      → is_positive_amount (parse_bounded_decimal (amount_field q.payload)) ≡ true
  pub within_order :
      is_monetary i.primitive ≡ true
      → is_over_order g.limits.max_order_usd (parse_bounded_decimal (amount_field q.payload))
        ≡ false

no_code : (b : Bool) (r : ℕ) → code_when b r ≡ [] → b ≡ false
no_code b r h = ground arith

truth : (b : Bool) → not b ≡ false → b ≡ true
truth b k = ground arith

amount_parts :
    (g : CapabilityGrant) (b : Bool) (z : Option ℤ)
    → (if b then amount_codes g z else []) ≡ []
    → b ≡ true
    → (is_positive_amount z ≡ true) × (is_over_order g.limits.max_order_usd z ≡ false)
amount_parts g false z h k = cc
amount_parts g true z h k =
    let (positive, order) = append-eq-nil_iff.0 h in
    (truth (is_positive_amount z) (no_code _ _ positive), no_code _ _ order)

module _ (e : Env) where
  no_gate :
      {R : Type 0} (code : R → ℕ) (d : Decision R)
      → gate_codes e code d ≡ []
      → d.verdict ≡ Verdict.allow
  no_gate code d h = ground arith

  unexpired_of : (a b : ℕ) → ltb a b ≡ false → b ≤ a
  unexpired_of a b h = ground arith

  unreasoned :
      (q : ExecutionRequest) (i : Intent) (g : CapabilityGrant) (x : Credentials) (now : ℕ)
      (trusted held : Bool)
      → issue_reasons e q i g x now trusted held ≡ []
      → IsJustified e q i g x now
  unfolding issue_reasons
  unreasoned q i g x now trusted held h =
      let (projection, h1) = append-eq-nil_iff.0 h in
      let (principal, h2) = append-eq-nil_iff.0 h1 in
      let (_, h3) = append-eq-nil_iff.0 h2 in
      let (authority, h4) = append-eq-nil_iff.0 h3 in
      let (risk, h5) = append-eq-nil_iff.0 h4 in
      let (gate, h6) = append-eq-nil_iff.0 h5 in
      let (capability, h7) = append-eq-nil_iff.0 h6 in
      let (snapshot, h8) = append-eq-nil_iff.0 h7 in
      let (_, h9) = append-eq-nil_iff.0 h8 in
      let (intent, h10) = append-eq-nil_iff.0 h9 in
      let (grant, amount) = append-eq-nil_iff.0 h10 in
      record {
        projection = truth (is_projection e q i) (no_code _ _ projection);
        principal =
            same q.principal_id i.principal_id g.principal_id i.principal_id
              (no_code _ _ principal);
        authority_trusted = (map-eq-nil_iff _).0 ((map-eq-nil_iff _).0 authority);
        risk_trusted = (map-eq-nil_iff _).0 ((map-eq-nil_iff _).0 risk);
        authority_allows = no_gate _ _ gate;
        capability_allows = no_gate _ _ capability;
        risk_allows = no_gate _ _ snapshot;
        unexpired = unexpired_of i.expires_at now (no_code _ _ intent);
        grant_unexpired = no_code _ _ grant;
        positive = λ m.
            (amount_parts g (is_monetary i.primitive)
              (parse_bounded_decimal (amount_field q.payload)) amount m).0;
        within_order = λ m.
            (amount_parts g (is_monetary i.primitive)
              (parse_bounded_decimal (amount_field q.payload)) amount m).1;
      }
    where
      same : (a b c d : ℕ) → (not (a == b) || not (c == d)) ≡ false → c ≡ d
      same a b c d k = ground arith

  -- The permit is that of the request under an epoch and a fence, and it has not expired.
  abbrev pub IsMinted :
      ExecutionRequest → Intent → CapabilityGrant → Credentials → ℕ → SignedPermit → Type 0
  IsMinted q i g x now p =
      (epoch : ℕ) × (fence : ℕ) × (p ≡ new_permit e q i g x epoch fence now)
      × (now < expiry e i g x now)

  module _ (q : ExecutionRequest) (i : Intent) (g : CapabilityGrant) (x : Credentials)
      (now : ℕ) where
    on_record-Gives : (Q : SignedPermit → Type 0) (y : Raised) → Gives Q (on_record e y)
    on_record-Gives Q (store_error permit_conflict) = Gives-raise Q _
    on_record-Gives Q other = Gives-raise Q _

    minted-Gives : (r : ℕ × ℕ) → Gives (IsMinted q i g x now) (minted e q i g x now r)
    minted-Gives (epoch, fence) = Gives-bind _ _ _ λ (c : ControlStatus × ℕ × ℕ).
        Gives-test _ (not (is_active_control c.0) || not (c.1 == epoch)) _ _ (λ _. Gives-raise _ _)
          λ _.
            Gives-test _ (leb (expiry e i g x now) now) _ _ (λ _. Gives-raise _ _)
              λ fresh.
                Gives-catch _ _ _
                  (Gives-then _ _ _
                    (Gives-pure _ _ (epoch, fence, refl, later (expiry e i g x now) fresh)))
                  (on_record-Gives _)
      where
        later : (t : ℕ) → leb t now ≡ false → now < t
        later t h = ground arith

    claimed-Gives : Gives (IsMinted q i g x now) (claimed e q i g x now)
    claimed-Gives = Gives-bind _ _ _ by_claim
      where
        by_fence :
            (r : Result Raised (ℕ × ℕ)) → Gives (IsMinted q i g x now) (on_fence e q i g x now r)
        by_fence (ok r) = minted-Gives r
        by_fence (err y) = Gives-raise _ _

        by_claim :
            (r : Result Raised Admission) → Gives (IsMinted q i g x now) (on_claim e q i g x now r)
        by_claim (ok admitted) = Gives-bind _ _ _ by_fence
        by_claim (ok (rejected rs)) = Gives-raise _ _
        by_claim (err y) = Gives-raise _ _

-- A permit is issued only for the request of the intent, when both signatures are trusted, the three
-- gates allow at that time, nothing has expired and an amount is positive and within the order
-- limit. It is the permit of that request under some epoch and fence, and expires later than now.
pub issue-IsJustified :
    (e : Env) (q : ExecutionRequest) (i : Intent) (g : CapabilityGrant) (x : Credentials) (now : ℕ)
    (w : World) (p : SignedPermit)
    → (issue e q i g x now w).0 ≡ ok p
    → IsJustified e q i g x now × IsMinted e q i g x now p
unfolding issue
issue-IsJustified e q i g x now w p =
    (Gives-bind Q _ _ λ r. Gives-bind Q _ _ λ held.
        Gives-test Q (is_empty (issue_reasons e q i g x now (not (is_err r)) held)) _ _
          (λ none_. both (unreasoned e q i g x now _ held (nil _ none_))) (λ _. Gives-raise Q _)).at
      w p
  where
    Q : SignedPermit → Type 0
    Q a = IsJustified e q i g x now × IsMinted e q i g x now a

    nil : (xs : List ℕ) → is_empty xs ≡ true → xs ≡ []
    nil [] h = refl
    nil (y ∷ ys) h = cc

    both : IsJustified e q i g x now → Gives Q (claimed e q i g x now)
    both j = record { at = λ w a h. (j, (claimed-Gives e q i g x now).at w a h) }
