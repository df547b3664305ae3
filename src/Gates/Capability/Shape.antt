-- ===== src/Gates/Capability/Shape.antt =====
-- _validate_intent_shape: the fields that a payload may and must have.
use Prim.Native.String.{String}
use text.Mathlib.Text.{◌==◌ as str_eq}
use faar_runtime.Common.{
  ℕ, Bool, true, false, not, ◌&&◌, ◌||◌, Option, some, List, [], ◌∷◌, ◌++◌, leb, ltb, if◌then◌else◌,
}
use faar_runtime.Common.Int.{ℤ, pos}
use faar_runtime.Models.Enums.{EconomicPrimitive}
use faar_runtime.Models.Grant.{mem_text}
use faar_runtime.Models.Payload.{Value, Payload, get, contains}
use faar_runtime.Money.{parse_bounded_decimal}

-- The names that some reasons list are sanitised and cut short where they are stored.
pub data CapabilityReason : Type 0 where
  unsafe_raw_execution_field swap_assets_identical amount_fields_ambiguous slippage_bound_invalid
        limit_price_invalid principal_mismatch actor_mismatch grant_id_mismatch
        grant_version_mismatch primitive_not_allowed venue_not_allowed intent_created_in_future
        intent_expired intent_ttl_exceeded grant_expired target_denied target_not_allowed
        target_required amount_invalid_or_nonfinite amount_not_positive max_order_usd_exceeded
        amount_required slippage_bound_exceeds_grant :
      CapabilityReason
  unknown_execution_fields asset_not_allowed : List String → CapabilityReason
  payload_field_required : String → CapabilityReason

abbrev pub reason_when : Bool → CapabilityReason → List CapabilityReason
reason_when true r = r ∷ []
reason_when false r = []

-- _RAW_EXECUTION_FIELDS
abbrev pub raw_execution_fields : List String
raw_execution_fields =
    "raw_calldata" ∷ "calldata" ∷ "raw_transaction" ∷ "signed_transaction" ∷ "private_key"
    ∷ "seed_phrase" ∷ "delegatecall" ∷ "unlimited_approval" ∷ "approval_amount_raw"
    ∷ "signing_payload" ∷ []

abbrev order_fields : List String
order_fields =
    "base_asset" ∷ "quote_asset" ∷ "amount_usd" ∷ "notional_usd" ∷ "target" ∷ "order_type"
    ∷ "limit_price" ∷ "time_in_force" ∷ "max_slippage_bps" ∷ []

-- _ALLOWED_PAYLOAD_FIELDS
abbrev pub allowed_fields : EconomicPrimitive → List String
allowed_fields EconomicPrimitive.pay = "asset" ∷ "amount_usd" ∷ "target" ∷ "payment_reference" ∷ []
allowed_fields EconomicPrimitive.swap =
    "from_asset" ∷ "to_asset" ∷ "amount_usd" ∷ "target" ∷ "max_slippage_bps" ∷ []
allowed_fields EconomicPrimitive.cancel_order = "order_id" ∷ "target" ∷ []
allowed_fields _ = order_fields

-- The fields of a payload that stand in a list, and those that do not.
unfoldable pub has_any : List String → Payload → Bool
unfolding mem_text
has_any names [] = false
has_any names ((k, v) ∷ p) = mem_text k names || has_any names p

unfoldable pub fields_outside : List String → Payload → List String
unfolding mem_text
fields_outside names [] = []
fields_outside names ((k, v) ∷ p) =
    if mem_text k names then fields_outside names p else k ∷ fields_outside names p

-- value in (None, "")
abbrev pub is_blank : Value → Bool
is_blank Value.null = true
is_blank (Value.str t) = str_eq t ""
is_blank _ = false

abbrev pub is_null : Value → Bool
is_null Value.null = true
is_null _ = false

unfoldable pub missing_fields : Payload → List String → List CapabilityReason
unfolding get
missing_fields p [] = []
missing_fields p (k ∷ ks) =
    reason_when (is_blank (get k p)) (payload_field_required k) ++ missing_fields p ks

-- MAX_SLIPPAGE_BPS
abbrev pub max_slippage_bps : ℕ
max_slippage_bps = 10000

abbrev pub is_slippage_valid : Value → Bool
is_slippage_valid (Value.int (pos n)) = leb n max_slippage_bps
is_slippage_valid _ = false

abbrev pub is_positive_amount : Option ℤ → Bool
is_positive_amount (some (pos n)) = ltb 0 n
is_positive_amount _ = false

abbrev pub unknown_fields : List String → List CapabilityReason
unknown_fields [] = []
unknown_fields (k ∷ ks) = unknown_execution_fields (k ∷ ks) ∷ []

-- The bounds on the price, where the payload has them.
unfoldable pub bound_reasons : Payload → List CapabilityReason
unfolding get contains parse_bounded_decimal
bound_reasons p =
    reason_when
      (contains "max_slippage_bps" p && not (is_slippage_valid (get "max_slippage_bps" p)))
      slippage_bound_invalid
    ++ reason_when
        (contains "limit_price" p
          && not (is_positive_amount (parse_bounded_decimal (get "limit_price" p))))
        limit_price_invalid

module _ (show : Value → String) where
  -- str(value)
  abbrev pub text_of : Value → String
  text_of (Value.str t) = t
  text_of v = show v

  abbrev pub is_same_asset : Value → Value → Bool
  is_same_asset from_ to_ =
      not (is_blank from_) && (not (is_blank to_) && str_eq (text_of from_) (text_of to_))

  unfoldable pub primitive_reasons : EconomicPrimitive → Payload → List CapabilityReason
  unfolding get contains missing_fields
  primitive_reasons EconomicPrimitive.pay p =
      missing_fields p ("asset" ∷ "amount_usd" ∷ "target" ∷ [])
  primitive_reasons EconomicPrimitive.swap p =
      missing_fields p ("from_asset" ∷ "to_asset" ∷ "amount_usd" ∷ "target" ∷ [])
      ++ reason_when (is_same_asset (get "from_asset" p) (get "to_asset" p)) swap_assets_identical
  primitive_reasons EconomicPrimitive.cancel_order p = missing_fields p ("order_id" ∷ [])
  primitive_reasons _ p =
      missing_fields p ("base_asset" ∷ "quote_asset" ∷ [])
      ++ (reason_when (is_null (get "amount_usd" p) && is_null (get "notional_usd" p))
            (payload_field_required "notional_usd")
          ++ reason_when (contains "amount_usd" p && contains "notional_usd" p)
              amount_fields_ambiguous)

  unfoldable pub shape_reasons : EconomicPrimitive → Payload → List CapabilityReason
  unfolding has_any fields_outside primitive_reasons bound_reasons
  shape_reasons k p =
      reason_when (has_any raw_execution_fields p) unsafe_raw_execution_field
      ++ (unknown_fields (fields_outside (allowed_fields k) p)
          ++ (primitive_reasons k p ++ bound_reasons p))
