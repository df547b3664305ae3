-- ===== src/Gates/Assets.antt =====
-- The assets that an intent names, where the capability gate gives no reason against them.
use Prim.Native.String.{String}
use faar_runtime.Common.{◌≡◌, refl, Bool, true, false, List, [], ◌∷◌, if◌then◌else◌}
use faar_runtime.Models.Grant.{CapabilityGrant, Intent, mem_text, is_empty}
use faar_runtime.Models.Payload.{Value, Payload, get}
use faar_runtime.Table.{All}
use faar_runtime.Gates.Capability.Shape.{text_of, is_blank}
use faar_runtime.Gates.Capability.Scope.{
  assets, asset_fields, assets_outside, named_assets, asset_reasons,
}

-- Every field of the payload that names an asset names one of the list.
abbrev pub AreAssetsIn : (Value → String) → List String → Payload → List String → Type 0
AreAssetsIn show allowed p fields =
    All (λ k. is_blank (get k p) ≡ false → mem_text (text_of show (get k p)) allowed ≡ true) fields

inside :
    (show : Value → String) (allowed : List String) (p : Payload) (fields : List String)
    → assets_outside show allowed (assets show p fields) ≡ []
    → AreAssetsIn show allowed p fields
unfolding assets_outside assets
inside show allowed p [] h = tt
inside show allowed p (k ∷ ks) h =
    let (here, rest) = by_test (is_blank (get k p)) (text_of show (get k p)) (assets show p ks) h in
    (here, inside show allowed p ks rest)
  where
    known :
        (b : Bool) (a : String) (more : List String)
        → (if b then more else a ∷ more) ≡ []
        → (b ≡ true) × (more ≡ [])
    known true a more h = (refl, h)
    known false a more h = cc

    by_test :
        (blank : Bool) (a : String) (as_ : List String)
        → assets_outside show allowed (if blank then as_ else a ∷ as_) ≡ []
        → (blank ≡ false → mem_text a allowed ≡ true) × (assets_outside show allowed as_ ≡ [])
    by_test true a as_ h = (λ e. cc, h)
    by_test false a as_ h =
        let (here, rest) = known (mem_text a allowed) a (assets_outside show allowed as_) h in
        (λ _. here, rest)

pub assets_inside :
    (show : Value → String) (i : Intent) (g : CapabilityGrant)
    → asset_reasons show i g ≡ []
    → is_empty g.allowed_assets ≡ false
    → AreAssetsIn show g.allowed_assets i.payload
        ("asset" ∷ "base_asset" ∷ "quote_asset" ∷ "from_asset" ∷ "to_asset" ∷ [])
unfolding asset_reasons
assets_inside show i g h listed =
    inside show g.allowed_assets i.payload (asset_fields show) (unnamed _ (rw (listed) at h))
  where
    unnamed : (as_ : List String) → named_assets show as_ ≡ [] → as_ ≡ []
    unnamed [] k = refl
    unnamed (a ∷ as_) k = cc
