-- ===== src/Gates/Capability/Scope.antt =====
-- What the intent names against what the grant allows: identities, times, target and assets.
use Prim.Native.String.{String}
use faar_runtime.Common.{
  ℕ, ◌+◌, ◌-◌, ◌*◌, Bool, true, false, not, ◌&&◌, ◌||◌, Option, none, some, List, [], ◌∷◌, ◌++◌,
  ltb, ◌==◌, if◌then◌else◌,
}
use faar_runtime.Models.Enums.{EconomicPrimitive}
use faar_runtime.Models.Grant.{CapabilityGrant, Intent, mem_text, is_empty}
use faar_runtime.Models.Payload.{Value, Payload, get}
use faar_runtime.Gates.Capability.Shape.{
  CapabilityReason, principal_mismatch, actor_mismatch, grant_id_mismatch, grant_version_mismatch,
  primitive_not_allowed, venue_not_allowed, intent_created_in_future, intent_expired,
  intent_ttl_exceeded, grant_expired, target_denied, target_not_allowed, target_required,
  asset_not_allowed, reason_when, is_blank, text_of,
}

abbrev pub same_primitive : EconomicPrimitive → EconomicPrimitive → Bool
same_primitive EconomicPrimitive.pay EconomicPrimitive.pay = true
same_primitive EconomicPrimitive.swap EconomicPrimitive.swap = true
same_primitive EconomicPrimitive.buy EconomicPrimitive.buy = true
same_primitive EconomicPrimitive.sell EconomicPrimitive.sell = true
same_primitive EconomicPrimitive.place_order EconomicPrimitive.place_order = true
same_primitive EconomicPrimitive.cancel_order EconomicPrimitive.cancel_order = true
same_primitive _ _ = false

unfoldable pub mem_primitive : EconomicPrimitive → List EconomicPrimitive → Bool
mem_primitive k [] = false
mem_primitive k (x ∷ xs) = same_primitive k x || mem_primitive k xs

unfoldable pub mem_number : ℕ → List ℕ → Bool
mem_number n [] = false
mem_number n (x ∷ xs) = n == x || mem_number n xs

unfoldable pub binding_reasons : Intent → CapabilityGrant → List CapabilityReason
unfolding mem_primitive mem_number
binding_reasons i g =
    reason_when (not (i.principal_id == g.principal_id)) principal_mismatch
    ++ (reason_when (not (i.actor_id == g.actor_id)) actor_mismatch
        ++ (reason_when (not (i.grant_id == g.grant_id)) grant_id_mismatch
            ++ (reason_when (not (i.grant_version == g.version)) grant_version_mismatch
                ++ (reason_when (not (mem_primitive i.primitive g.allowed_primitives))
                      primitive_not_allowed
                    ++ reason_when (not (mem_number i.venue g.allowed_venues)) venue_not_allowed))))

abbrev pub second : ℕ
second = 1000000

-- now > valid_until
abbrev pub is_past : Option ℕ → ℕ → Bool
is_past none now = false
is_past (some t) now = ltb t now

abbrev pub exceeds : Option ℕ → ℕ → Bool
exceeds none span = false
exceeds (some limit) span = ltb (limit * second) span

-- An intent that expires before it is created has a negative life, which exceeds no limit.
unfoldable pub time_reasons : Intent → CapabilityGrant → ℕ → List CapabilityReason
time_reasons i g now =
    reason_when (ltb (now + g.limits.max_clock_skew_seconds * second) i.created_at)
      intent_created_in_future
    ++ (reason_when (ltb i.expires_at now) intent_expired
        ++ (reason_when (exceeds g.limits.max_intent_ttl_seconds (i.expires_at - i.created_at))
              intent_ttl_exceeded
            ++ reason_when (is_past g.valid_until now) grant_expired))

module _ (show : Value → String) where
  abbrev pub named_target : CapabilityGrant → String → List CapabilityReason
  named_target g t =
      reason_when (mem_text t g.denied_targets) target_denied
      ++ reason_when (not (is_empty g.allowed_targets) && not (mem_text t g.allowed_targets))
          target_not_allowed

  abbrev pub judged_target : CapabilityGrant → Value → List CapabilityReason
  judged_target g Value.null = reason_when (not (is_empty g.allowed_targets)) target_required
  judged_target g v = named_target g (text_of show v)

  unfoldable pub target_reasons : Intent → CapabilityGrant → List CapabilityReason
  unfolding get mem_text
  target_reasons i g = judged_target g (get "target" i.payload)

  -- _assets: the assets that the payload names, in the order of the fields
  unfoldable pub assets : Payload → List String → List String
  unfolding get
  assets p [] = []
  assets p (k ∷ ks) =
      if is_blank (get k p) then assets p ks else text_of show (get k p) ∷ assets p ks

  abbrev pub asset_fields : List String
  asset_fields = "asset" ∷ "base_asset" ∷ "quote_asset" ∷ "from_asset" ∷ "to_asset" ∷ []

  -- assets - grant.allowed_assets
  unfoldable pub assets_outside : List String → List String → List String
  unfolding mem_text
  assets_outside allowed [] = []
  assets_outside allowed (a ∷ as_) =
      if mem_text a allowed then assets_outside allowed as_ else a ∷ assets_outside allowed as_

  abbrev pub named_assets : List String → List CapabilityReason
  named_assets [] = []
  named_assets (a ∷ as_) = asset_not_allowed (a ∷ as_) ∷ []

  unfoldable pub asset_reasons : Intent → CapabilityGrant → List CapabilityReason
  unfolding assets assets_outside
  asset_reasons i g =
      if is_empty g.allowed_assets
      then []
      else named_assets (assets_outside g.allowed_assets (assets i.payload asset_fields))
