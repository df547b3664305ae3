-- ===== src/Gates/CapabilityBounds.antt =====
-- What an ALLOW of the capability gate means.
use mathlib.Core.List.{append-eq-nil_iff}
use Prim.Native.String.{String}
use faar_runtime.Common.{
  ℕ, ◌+◌, ◌*◌, ◌≤◌, ◌<◌, ◌≡◌, ◌≢◌, refl, Bool, true, false, not, ◌&&◌, Option, none, some, List, [],
  ◌∷◌, ◌-◌, arith, ltb, ◌==◌, if◌then◌else◌,
}
use faar_runtime.Common.Int.{ℤ, pos, negsuc}
use faar_runtime.Models.Enums.{Verdict, is_monetary, is_slippage_bound}
use faar_runtime.Models.Grant.{CapabilityGrant, Intent, mem_text, is_empty}
use faar_runtime.Models.Payload.{Value, get, contains}
use faar_runtime.Money.{parse_bounded_decimal, amount_field}
use faar_runtime.Gates.Decisions.{capability, decision}
use faar_runtime.Gates.Capability.{evaluate_capability, capability_reasons}
use faar_runtime.Gates.Capability.Shape.{
  CapabilityReason, grant_expired, amount_invalid_or_nonfinite, amount_required, reason_when,
  has_any, raw_execution_fields, unknown_fields, fields_outside, allowed_fields, shape_reasons,
  is_null, text_of,
}
use faar_runtime.Gates.Unreasoned.{unreasoned, truth}
use faar_runtime.Gates.Assets.{AreAssetsIn, assets_inside}
use faar_runtime.Gates.Slippage.{
  IsSlippageCapped, IsSlippageBound, IsPositive, slippage_capped, valid_bounds,
}
use faar_runtime.Gates.Completeness.{IsComplete, primitive-IsComplete}
use faar_runtime.Gates.Capability.Scope.{
  mem_primitive, mem_number, second, is_past, binding_reasons, time_reasons, target_reasons,
  judged_target, exceeds, assets,
}
use faar_runtime.Gates.Capability.Limits.{above_order, judged_amount, amount_reasons}

-- The target of an intent, where it has one, is not denied and is allowed where targets are listed.
abbrev pub IsTargetAllowed : (Value → String) → CapabilityGrant → Value → Type 0
IsTargetAllowed show g Value.null = is_empty g.allowed_targets ≡ true
IsTargetAllowed show g v =
    (mem_text (text_of show v) g.denied_targets ≡ false)
    × (is_empty g.allowed_targets ≡ false → mem_text (text_of show v) g.allowed_targets ≡ true)

-- The amount of an intent, where it has one, is positive and within the order limit.
abbrev pub IsAmountAllowed : CapabilityGrant → Option ℤ → Type 0
IsAmountAllowed g none = Unit
IsAmountAllowed g (some (negsuc n)) = ⊥
IsAmountAllowed g (some (pos n)) =
    (0 < n) × ((limit : ℕ) → g.limits.max_order_usd ≡ some limit → n ≤ limit)

-- What the payload holds, who and what the intent names, and when.
pub record IsWithinGrant (show : Value → String) (i : Intent) (g : CapabilityGrant) (now : ℕ)
    : Type 0 where
  pub no_raw_fields : has_any raw_execution_fields i.payload ≡ false
  pub known_fields : fields_outside (allowed_fields i.primitive) i.payload ≡ []
  pub complete : IsComplete show i.primitive i.payload
  pub principal : i.principal_id ≡ g.principal_id
  pub actor : i.actor_id ≡ g.actor_id
  pub grant : i.grant_id ≡ g.grant_id
  pub version : i.grant_version ≡ g.version
  pub primitive : mem_primitive i.primitive g.allowed_primitives ≡ true
  pub venue : mem_number i.venue g.allowed_venues ≡ true
  pub not_from_future : i.created_at ≤ now + g.limits.max_clock_skew_seconds * second
  pub unexpired : now ≤ i.expires_at
  pub life :
      (limit : ℕ)
      → g.limits.max_intent_ttl_seconds ≡ some limit
      → i.expires_at - i.created_at ≤ limit * second
  pub grant_unexpired : (end : ℕ) → g.valid_until ≡ some end → now ≤ end
  pub target : IsTargetAllowed show g (get "target" i.payload)
  pub assets_allowed :
      is_empty g.allowed_assets ≡ false
      → AreAssetsIn show g.allowed_assets i.payload
          ("asset" ∷ "base_asset" ∷ "quote_asset" ∷ "from_asset" ∷ "to_asset" ∷ [])
  pub slippage :
      (cap : ℕ)
      → g.limits.max_slippage_bps ≡ some cap
      → is_slippage_bound i.primitive ≡ true
      → IsSlippageCapped show i cap (get "max_slippage_bps" i.payload)
  pub bound_valid :
      contains "max_slippage_bps" i.payload ≡ true
      → IsSlippageBound (get "max_slippage_bps" i.payload)
  pub price_valid :
      contains "limit_price" i.payload ≡ true
      → IsPositive (parse_bounded_decimal (get "limit_price" i.payload))
  pub amount : IsAmountAllowed g (parse_bounded_decimal (amount_field i.payload))
  pub has_amount :
      is_monetary i.primitive ≡ true → parse_bounded_decimal (amount_field i.payload) ≢ none

same : (a b : ℕ) → not (a == b) ≡ false → a ≡ b
same a b h = ground arith

below : (a b : ℕ) → ltb a b ≡ false → b ≤ a
below a b h = ground arith

known : (ks : List String) → unknown_fields ks ≡ [] → ks ≡ []
known [] h = refl
known (k ∷ ks) h = cc

target_allowed :
    (show : Value → String) (g : CapabilityGrant) (v : Value)
    → judged_target show g v ≡ []
    → IsTargetAllowed show g v
target_allowed show g Value.null h = truth _ (unreasoned _ _ h)
target_allowed show g v h =
    let (denied, allowed) = append-eq-nil_iff.0 h in
    (unreasoned _ _ denied, λ listed. listed_in _ _ listed (unreasoned _ _ allowed))
  where
    listed_in : (a b : Bool) → a ≡ false → (not a && not b) ≡ false → b ≡ true
    listed_in a b h k = ground arith

amount_allowed :
    (g : CapabilityGrant) (i : Intent) (raw : Value) (z : Option ℤ)
    → judged_amount g i.primitive raw z ≡ []
    → IsAmountAllowed g z × (is_monetary i.primitive ≡ true → z ≢ none)
amount_allowed g i raw none h =
    (tt, λ m k. missing (not (is_null raw)) (is_monetary i.primitive) h m)
  where
    missing :
        (a b : Bool)
        → (if a then amount_invalid_or_nonfinite ∷ [] else reason_when b amount_required) ≡ []
        → b ≡ true
        → ⊥
    missing a b p q = ground arith
amount_allowed g i raw (some (negsuc n)) h = cc
amount_allowed g i raw (some (pos n)) h =
    let (positive, order) = append-eq-nil_iff.0 h in
    (
      (above_zero (unreasoned _ _ positive), within g.limits.max_order_usd (unreasoned _ _ order)),
      λ m k. cc,
    )
  where
    above_zero : not (ltb 0 n) ≡ false → 0 < n
    above_zero h = ground arith

    within :
        (o : Option ℕ) → above_order o (pos n) ≡ false → (limit : ℕ) → o ≡ some limit → n ≤ limit
    within none h limit e = cc
    within (some m) h limit e = ground arith

unpast : (o : Option ℕ) (now : ℕ) → is_past o now ≡ false → (end : ℕ) → o ≡ some end → now ≤ end
unpast none now h end e = cc
unpast (some m) now h end e = ground arith

life_within :
    (o : Option ℕ) (span limit : ℕ)
    → o ≡ some limit
    → exceeds o span ≡ false
    → span ≤ limit * second
life_within none span limit e h = cc
life_within (some m) span limit e h = ground arith

reasonless-IsWithinGrant :
    (show : Value → String) (i : Intent) (g : CapabilityGrant) (now : ℕ)
    → capability_reasons show i g now ≡ []
    → IsWithinGrant show i g now
unfolding capability_reasons shape_reasons binding_reasons time_reasons target_reasons
    amount_reasons
reasonless-IsWithinGrant show i g now k =
    let (shape, k1) = append-eq-nil_iff.0 k in
    let (raw, shape1) = append-eq-nil_iff.0 shape in
    let (unknown, shape2) = append-eq-nil_iff.0 shape1 in
    let (fields, bounds) = append-eq-nil_iff.0 shape2 in
    let (binding, k2) = append-eq-nil_iff.0 k1 in
    let (principal, b1) = append-eq-nil_iff.0 binding in
    let (actor, b2) = append-eq-nil_iff.0 b1 in
    let (grant, b3) = append-eq-nil_iff.0 b2 in
    let (version, b4) = append-eq-nil_iff.0 b3 in
    let (primitive, venue) = append-eq-nil_iff.0 b4 in
    let (time, k3) = append-eq-nil_iff.0 k2 in
    let (future, t1) = append-eq-nil_iff.0 time in
    let (expired, t2) = append-eq-nil_iff.0 t1 in
    let (life, past) = append-eq-nil_iff.0 t2 in
    let (target, k4) = append-eq-nil_iff.0 k3 in
    let (assets, k5) = append-eq-nil_iff.0 k4 in
    let (amount, slippage) = append-eq-nil_iff.0 k5 in
    let (fits, present) =
      amount_allowed g i (amount_field i.payload) (parse_bounded_decimal (amount_field i.payload))
        amount in
    record {
      no_raw_fields = unreasoned _ _ raw;
      known_fields = known _ unknown;
      complete = primitive-IsComplete show i.primitive i.payload fields;
      principal = same i.principal_id g.principal_id (unreasoned _ _ principal);
      actor = same i.actor_id g.actor_id (unreasoned _ _ actor);
      grant = same i.grant_id g.grant_id (unreasoned _ _ grant);
      version = same i.grant_version g.version (unreasoned _ _ version);
      primitive = truth _ (unreasoned _ _ primitive);
      venue = truth _ (unreasoned _ _ venue);
      not_from_future =
          below (now + g.limits.max_clock_skew_seconds * second) i.created_at
            (unreasoned _ _ future);
      unexpired = below i.expires_at now (unreasoned _ _ expired);
      life = λ limit e.
          life_within g.limits.max_intent_ttl_seconds (i.expires_at - i.created_at) limit e
            (unreasoned _ _ life);
      assets_allowed = assets_inside show i g assets;
      slippage = λ cap. slippage_capped show i g cap slippage;
      bound_valid = (valid_bounds i.payload bounds).0;
      price_valid = (valid_bounds i.payload bounds).1;
      grant_unexpired =
          unpast g.valid_until now (unreasoned (is_past g.valid_until now) grant_expired past);
      target = target_allowed show g (get "target" i.payload) target;
      amount = fits;
      has_amount = present;
    }

-- An ALLOW of the capability gate means that the payload has no raw or unknown field and all that
-- its primitive needs (two assets for a swap, one amount for an order), that the identities are
-- those of the grant and the primitive and the venue allowed by it, that the intent is not from the
-- future, lives at most as long as the grant permits and has not expired, nor has the grant, and
-- that the target and the amount are allowed. Where the grant lists assets, every asset that the
-- payload names is in the list. Where it caps the slippage of a primitive with a price bound, the
-- bound is at most the cap, or there is none on an order with a limit price; a bound or a limit
-- price in the payload is always a valid one. An intent of a monetary primitive has an amount that
-- can be read.
pub capability_allows-IsWithinGrant :
    (show : Value → String) (i : Intent) (g : CapabilityGrant) (now : ℕ)
    → (evaluate_capability show i g now).verdict ≡ Verdict.allow
    → IsWithinGrant show i g now
unfolding evaluate_capability
capability_allows-IsWithinGrant show i g now h =
    reasonless-IsWithinGrant show i g now (reasonless _ h)
  where
    reasonless :
        (rs : List CapabilityReason)
        → (decision capability rs false).verdict ≡ Verdict.allow
        → rs ≡ []
    reasonless [] k = refl
    reasonless (r ∷ rs) k = cc
