-- ===== src/Runtime/Tests/Fixtures.antt =====
-- A payment of 5 dollars under a grant, the credentials for it, and surroundings in which no other
-- worker commits, every signature is trusted and the adapter hands back a receipt.
use faar_runtime.Money.{unit}
use faar_runtime.Common.{ℕ, ◌+◌, ◌*◌, true, false, none, some, [], ◌∷◌}
use faar_runtime.Common.Int.{pos}
use faar_runtime.Models.Enums.{
  active, reserved, unknown, AuthorityPosture, AuthorityPrimitive, SettlementStatus,
}
use faar_runtime.Models.Enums.EconomicPrimitive.{pay}
use faar_runtime.Models.Payload.{Value}
use faar_runtime.Models.Grant.{CapabilityLimits, CapabilityGrant, Intent, finite, RiskSnapshot}
use faar_runtime.Models.Requests.{AttestationKind, Attestation}
use faar_runtime.Money.Rounding.{plus}
use faar_runtime.Settlement.Quorum.{SettlementRecord}
use faar_runtime.Store.Schema.{GrantRow, Reservation, held, IntentRow, PermitRow, Store}
use faar_runtime.Store.Evidence.{Crypto}
use faar_runtime.Worker.Defs.{Env, Answer, Verification, World}
use faar_runtime.Worker.Judgement.{Credentials}

abbrev pub second : ℕ
second = 1000000

abbrev pub limits : CapabilityLimits
limits = record {
  max_order_usd = some (10 * unit);
  max_position_usd = none;
  max_daily_turnover_usd = some (100 * unit);
  max_daily_loss_usd = none;
  max_slippage_bps = none;
  max_price_impact_bps = none;
  max_market_data_age_seconds = none;
  max_risk_snapshot_age_seconds = none;
  max_intent_ttl_seconds = none;
  max_clock_skew_seconds = 5;
  max_actions_per_window = some 3;
  action_window_seconds = some 60;
  max_submission_attempts = 2;
}

abbrev pub grant : CapabilityGrant
grant = record {
  principal_id = 1;
  grant_id = 10;
  version = 1;
  actor_id = 2;
  status = active;
  allowed_primitives = pay ∷ [];
  allowed_venues = 7 ∷ [];
  allowed_assets = "USDC" ∷ [];
  allowed_targets = "shop" ∷ [];
  denied_targets = [];
  valid_until = none;
  limits = limits;
}

abbrev pub payment : Intent
payment = record {
  principal_id = 1;
  intent_id = 100;
  actor_id = 2;
  grant_id = 10;
  grant_version = 1;
  primitive = pay;
  venue = 7;
  created_at = 0;
  expires_at = 900 * second;
  payload =
      ("asset", Value.str "USDC")
      ∷ ("amount_usd", Value.int (pos 5))
      ∷ ("target", Value.str "shop")
      ∷ [];
}

abbrev pub risk : RiskSnapshot
risk = record {
  observed_at = 0;
  state_version = 4;
  scope = 0;
  position_after_usd = none;
  daily_turnover_after_usd = some (finite (pos (5 * unit)));
  daily_loss_usd = none;
  market_data_age_seconds = none;
  requested_slippage_bps = none;
  price_impact_bps = none;
  actions_in_window = 0;
  circuit_breaker_active = false;
  data_complete = true;
  source_count = 1;
  sources_agree = true;
}

abbrev pub attestation : AttestationKind → Attestation
attestation kind = record {
  kind = kind;
  signed_by = 1;
  subject_hash = 3;
  intent_hash = 77;
  issued_at = 0;
  expires_at = 600 * second;
}

abbrev pub credentials : Credentials
credentials = record {
  authority = record {
    posture = AuthorityPosture.execute;
    primitive = AuthorityPrimitive.execute_action;
    reason_codes = [];
  };
  risk = risk;
  authority_attestation = attestation AttestationKind.authority;
  risk_attestation = attestation AttestationKind.risk;
}

abbrev pub crypto : Crypto
crypto = record {
  is_keyed = true;
  digest = λ e. e.event_type * 1000 + e.payload;
  event_mac = λ h. h + 1;
  head_mac = λ i n h. i + n + h;
}

-- The verifier's answer, with authority and of the request of the payment.
abbrev pub answer : SettlementStatus → SettlementRecord
answer status = record {
  status = status;
  effect_id = some 31;
  amount_usd = some (plus (5 * unit));
  authoritative = true;
  verified_request_hash = some 5;
}

abbrev pub quiet : Verification → Env
quiet v = record {
  crypto = crypto;
  hashes = record {
    intent = λ _. 77;
    grant = λ _. 55;
    authority = λ _. 3;
    risk = λ _. 3;
    request = λ _. 5;
    attestation = λ _. 9;
    signed_permit = λ _. 66;
    permit_id = λ _ _ _ epoch fence. 900 + epoch + fence;
  };
  texts = record {
    authority = λ _. 200;
    capability = λ _. 201;
    risk = λ _. 202;
    usage = λ _. 203;
    of_authority = λ r. 300 + r;
    of_risk = λ r. 400 + r;
    of_permit = λ r. 500 + r;
    refusal = λ _ _. 204;
  };
  show = λ _. "None";
  others = λ _ s. s;
  is_locked = λ _. false;
  is_busy = λ _. false;
  clock = λ _. 100 * second;
  orphaned_adapter_calls = λ _. 0;
  max_orphaned_adapter_calls = 8;
  max_permit_ttl_seconds = 5;
  is_effect_id = λ _. true;
  adapters = 7 ∷ [];
  adapter = λ _ _ _. Answer.receipt;
  verifier = λ _ _. v;
  trust = λ _ _ _ _ _. [];
  sign = λ _. 8;
  content = λ _ _. record { event_type = 1; payload = 1; size = 10; created_at = 0 };
}

abbrev pub grant_row : GrantRow
grant_row = record {
  grant_id = 10;
  version = 1;
  principal_id = 1;
  grant_hash = 55;
  runtime_status = active;
  runtime_epoch = 1;
  fence_counter = 1;
}

abbrev pub empty_store : Store
empty_store = record {
  db = record {
    grants = grant_row ∷ [];
    usage_reservations = [];
    risk_claims = [];
    permit_risk_claims = [];
    intents = [];
    submission_attempts = [];
    execution_permits = [];
    runtime_controls = [];
    exposure_caps = [];
    exposure_caps_version = 0;
    evidence = [];
    evidence_head = [];
    heads_since = 1;
  };
  anchor = none;
  anchor_required = false;
}

-- The payment was submitted once, and the venue consumed its permit.
abbrev pub consumed_row : PermitRow
consumed_row = record {
  rowid = 0;
  permit_id = 900;
  intent_id = 100;
  principal_id = 1;
  grant_id = 10;
  grant_version = 1;
  grant_epoch = 1;
  fence_token = 1;
  permit_hash = 66;
  expires_at = none;
  consumed_at = some 4;
  voided_at = none;
}

abbrev pub unknown_row : IntentRow
unknown_row = record {
  intent_id = 100;
  principal_id = 1;
  venue = 7;
  intent_hash = 77;
  state = unknown;
  effect_id = none;
  reason_codes = [];
  submission_count = 1;
  ambiguity_until = none;
  filled_amount_usd = none;
}

abbrev pub consumed_store : Store
consumed_store = record empty_store {
  db = record empty_store.db { intents = unknown_row ∷ []; execution_permits = consumed_row ∷ [] };
}

-- The payment was reserved, and no attempt was made.
abbrev pub payment_reservation : Reservation
payment_reservation = record {
  intent_id = 100;
  principal_id = 1;
  grant_id = 10;
  grant_version = 1;
  day_key = 0;
  velocity_ts = some (100 * second);
  max_actions_per_window = some 3;
  action_window_seconds = some 60;
  amount_usd = 5 * unit;
  status = held;
  submitted = false;
}

abbrev pub reserved_store : Store
reserved_store = record empty_store {
  db = record empty_store.db {
    intents = record unknown_row { state = reserved; submission_count = 0 } ∷ [];
    usage_reservations = payment_reservation ∷ [];
  };
}

abbrev pub world : Store → World
world s = record { store = s; calls = 0; sent = []; exhausted = false }
