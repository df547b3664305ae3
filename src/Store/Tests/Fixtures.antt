-- ===== src/Store/Tests/Fixtures.antt =====
-- A grant, an intent under it with its reservation and permit, and a store that holds them.
use faar_runtime.Money.{unit}
use faar_runtime.Common.{◌+◌, ◌*◌, true, false, none, some, [], ◌∷◌, if◌then◌else◌}
use faar_runtime.Common.Int.{pos}
use faar_runtime.Common.Result.{ok, err}
use faar_runtime.Anchor.{grant_key, Anchor, same_key}
use faar_runtime.Models.Enums.{active, IntentState}
use faar_runtime.Models.Enums.EconomicPrimitive.{pay}
use faar_runtime.Models.Payload.{Value}
use faar_runtime.Models.Grant.{CapabilityLimits, CapabilityGrant, Intent, RiskSnapshot}
use faar_runtime.Store.Schema.{GrantRow, Reservation, held, IntentRow, PermitRow, Store}
use faar_runtime.Store.Access.{Tx}
use faar_runtime.Store.Permits.{Presented}
use faar_runtime.Store.Evidence.{Crypto}
use faar_runtime.Store.Lifecycle.{Change}

abbrev pub limits : CapabilityLimits
limits = record {
  max_order_usd = some 1000;
  max_position_usd = none;
  max_daily_turnover_usd = some (100 * unit);
  max_daily_loss_usd = none;
  max_slippage_bps = none;
  max_price_impact_bps = none;
  max_market_data_age_seconds = none;
  max_risk_snapshot_age_seconds = none;
  max_intent_ttl_seconds = none;
  max_clock_skew_seconds = 5;
  max_actions_per_window = some 3;
  action_window_seconds = some 60;
  max_submission_attempts = 2;
}

abbrev pub grant : CapabilityGrant
grant = record {
  principal_id = 1;
  grant_id = 10;
  version = 1;
  actor_id = 2;
  status = active;
  allowed_primitives = pay ∷ [];
  allowed_venues = 7 ∷ [];
  allowed_assets = "USDC" ∷ [];
  allowed_targets = "shop" ∷ [];
  denied_targets = [];
  valid_until = none;
  limits = limits;
}

abbrev pub payment : Intent
payment = record {
  principal_id = 1;
  intent_id = 101;
  actor_id = 2;
  grant_id = 10;
  grant_version = 1;
  primitive = pay;
  venue = 7;
  created_at = 0;
  expires_at = 900000000;
  payload = ("amount_usd", Value.int (pos 5)) ∷ [];
}

abbrev pub risk : RiskSnapshot
risk = record {
  observed_at = 0;
  state_version = 4;
  scope = 0;
  position_after_usd = none;
  daily_turnover_after_usd = none;
  daily_loss_usd = none;
  market_data_age_seconds = none;
  requested_slippage_bps = none;
  price_impact_bps = none;
  actions_in_window = 0;
  circuit_breaker_active = false;
  data_complete = true;
  source_count = 1;
  sources_agree = true;
}

abbrev pub grant_row : GrantRow
grant_row = record {
  grant_id = 10;
  version = 1;
  principal_id = 1;
  grant_hash = 55;
  runtime_status = active;
  runtime_epoch = 1;
  fence_counter = 1;
}

abbrev pub intent_row : IntentState → IntentRow
intent_row state = record {
  intent_id = 100;
  principal_id = 1;
  venue = 7;
  intent_hash = 77;
  state = state;
  effect_id = some 31;
  reason_codes = [];
  submission_count = 0;
  ambiguity_until = none;
  filled_amount_usd = none;
}

abbrev pub reservation : Reservation
reservation = record {
  intent_id = 100;
  principal_id = 1;
  grant_id = 10;
  grant_version = 1;
  day_key = 0;
  velocity_ts = some 3;
  max_actions_per_window = some 3;
  action_window_seconds = some 60;
  amount_usd = 5 * unit;
  status = held;
  submitted = false;
}

abbrev pub permit : PermitRow
permit = record {
  rowid = 0;
  permit_id = 900;
  intent_id = 100;
  principal_id = 1;
  grant_id = 10;
  grant_version = 1;
  grant_epoch = 1;
  fence_token = 1;
  permit_hash = 66;
  expires_at = none;
  consumed_at = none;
  voided_at = none;
}

abbrev pub presented : Presented
presented = record {
  permit_id = 900;
  principal_id = 1;
  grant_id = 10;
  grant_version = 1;
  grant_epoch = 1;
  fence_token = 1;
  permit_hash = 66;
}

abbrev pub anchor : Anchor
anchor = record {
  marks = λ k. if same_key (grant_key 10 1) k then some (record { epoch = 1; fence = 1 }) else none;
  identity = some 8;
  readable = λ _. true;
  writable = λ _. true;
}

-- A store whose intent 100 is in the given state.
abbrev pub store_at : IntentState → Store
store_at state = record {
  db = record {
    grants = grant_row ∷ [];
    usage_reservations = reservation ∷ [];
    risk_claims = [];
    permit_risk_claims = [];
    intents = intent_row state ∷ [];
    submission_attempts = [];
    execution_permits = permit ∷ [];
    runtime_controls = [];
    exposure_caps = [];
    exposure_caps_version = 0;
    evidence = [];
    evidence_head = [];
    heads_since = 1;
  };
  anchor = some anchor;
  anchor_required = true;
}

-- The store after a transaction that commits.
abbrev pub after : {A : Type 0} → Store → Tx A → Store
after s (ok (a, t)) = t
after s (err e) = s

abbrev pub crypto : Crypto
crypto = record {
  is_keyed = true;
  digest = λ e. e.event_type * 1000 + e.payload;
  event_mac = λ h. h + 1;
  head_mac = λ i n h. i + n + h;
}

abbrev pub no_change : Change
no_change = record {
  reason_codes = [];
  effect_id = none;
  release_usage = true;
  commit_usage = false;
  ambiguity_until = none;
  filled_amount_usd = none;
}
