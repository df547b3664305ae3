-- ===== src/Gates/Completeness.antt =====
-- The fields that an intent carries when its payload gives no reason to refuse it.
use Prim.Native.String.{String}
use faar_runtime.Common.{◌≡◌, Bool, true, false, ◌&&◌, List, [], ◌∷◌, ◌++◌, arith}
use faar_runtime.Models.Enums.{EconomicPrimitive}
use faar_runtime.Models.Payload.{Value, Payload, get, contains}
use faar_runtime.Table.{All}
use faar_runtime.Gates.Capability.Shape.{
  CapabilityReason, payload_field_required, amount_fields_ambiguous, swap_assets_identical,
  reason_when, is_blank, is_null, is_same_asset, missing_fields, primitive_reasons,
}

abbrev pay_fields : List String
pay_fields = "asset" ∷ "amount_usd" ∷ "target" ∷ []

abbrev swap_fields : List String
swap_fields = "from_asset" ∷ "to_asset" ∷ "amount_usd" ∷ "target" ∷ []

abbrev cancel_fields : List String
cancel_fields = "order_id" ∷ []

abbrev order_assets : List String
order_assets = "base_asset" ∷ "quote_asset" ∷ []

abbrev pub HasFields : Payload → List String → Type 0
HasFields p ks = All (λ k. is_blank (get k p) ≡ false) ks

-- The fields that the primitive needs: a swap is of two assets, and an order has one amount.
abbrev pub IsComplete : (Value → String) → EconomicPrimitive → Payload → Type 0
IsComplete show EconomicPrimitive.pay p = HasFields p pay_fields
IsComplete show EconomicPrimitive.swap p =
    HasFields p swap_fields × (is_same_asset show (get "from_asset" p) (get "to_asset" p) ≡ false)
IsComplete show EconomicPrimitive.cancel_order p = HasFields p cancel_fields
IsComplete show _ p =
    HasFields p order_assets
    × (is_null (get "amount_usd" p) ≡ true → is_null (get "notional_usd" p) ≡ false)
    × (contains "amount_usd" p ≡ true → contains "notional_usd" p ≡ false)

has_fields : (p : Payload) (ks : List String) → missing_fields p ks ≡ [] → HasFields p ks
unfolding missing_fields
has_fields p [] h = tt
has_fields p (k ∷ ks) h =
    let (here, rest) = by_test (is_blank (get k p)) (missing_fields p ks) h in
    (here, has_fields p ks rest)
  where
    by_test :
        (b : Bool) (more : List CapabilityReason)
        → reason_when b (payload_field_required k) ++ more ≡ []
        → (b ≡ false) × (more ≡ [])
    by_test b more h = ground arith

order_parts :
    (p : Payload) (missing : List CapabilityReason) (a b c d : Bool)
    → missing
        ++ (reason_when (a && b) (payload_field_required "notional_usd")
            ++ reason_when (c && d) amount_fields_ambiguous)
      ≡ []
    → (missing ≡ []) × (a ≡ true → b ≡ false) × (c ≡ true → d ≡ false)
order_parts p [] a b c d h = ground arith
order_parts p (r ∷ rs) a b c d h = cc

order-IsComplete :
    (show : Value → String) (p : Payload)
    → missing_fields p order_assets
        ++ (reason_when
              (is_null (get "amount_usd" p) && is_null (get "notional_usd" p))
              (payload_field_required "notional_usd")
            ++ reason_when
                (contains "amount_usd" p && contains "notional_usd" p)
                amount_fields_ambiguous)
      ≡ []
    → IsComplete show EconomicPrimitive.buy p
order-IsComplete show p h =
    let (fields, present, single) =
      order_parts p (missing_fields p order_assets) (is_null (get "amount_usd" p))
        (is_null (get "notional_usd" p)) (contains "amount_usd" p) (contains "notional_usd" p) h in
    (has_fields p order_assets fields, present, single)

pub primitive-IsComplete :
    (show : Value → String) (k : EconomicPrimitive) (p : Payload)
    → primitive_reasons show k p ≡ []
    → IsComplete show k p
unfolding primitive_reasons
primitive-IsComplete show EconomicPrimitive.pay p h = has_fields p pay_fields h
primitive-IsComplete show EconomicPrimitive.swap p h =
    let (fields, assets) =
      both (missing_fields p swap_fields)
        (is_same_asset show (get "from_asset" p) (get "to_asset" p)) h in
    (has_fields p swap_fields fields, assets)
  where
    both :
        (missing : List CapabilityReason) (b : Bool)
        → missing ++ reason_when b swap_assets_identical ≡ []
        → (missing ≡ []) × (b ≡ false)
    both [] b k = ground arith
    both (r ∷ rs) b k = cc
primitive-IsComplete show EconomicPrimitive.cancel_order p h = has_fields p cancel_fields h
primitive-IsComplete show EconomicPrimitive.buy p h = order-IsComplete show p h
primitive-IsComplete show EconomicPrimitive.sell p h = order-IsComplete show p h
primitive-IsComplete show EconomicPrimitive.place_order p h = order-IsComplete show p h
