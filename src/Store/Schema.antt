-- ===== src/Store/Schema.antt =====
-- The tables of `SQLiteIntentStore` (`faar/store.py`), and the store: the datastore, the anchor
-- that it was opened with, and whether the datastore is bound to one. Columns that no operation
-- reads (created_at, updated_at, grant_json, intent_json, issued_at, velocity_bucket) are left out.
use Prim.Native.Nat.{ℕ}
use mathlib.Core.Bool.{Bool}
use mathlib.Core.Option.{Option}
use mathlib.Core.List.{List}
use faar_runtime.Anchor.{Anchor}
use faar_runtime.Models.Enums.{GrantStatus, IntentState}

pub record GrantRow : Type 0 where
  pub grant_id : ℕ
  pub version : ℕ
  pub principal_id : ℕ
  pub grant_hash : ℕ
  pub runtime_status : GrantStatus
  pub runtime_epoch : ℕ
  pub fence_counter : ℕ

pub data UsageStatus : Type 0 where
  held committed released : UsageStatus

-- `velocity_ts` is NULL on rows that an older version wrote.
pub record Reservation : Type 0 where
  pub intent_id : ℕ
  pub principal_id : ℕ
  pub grant_id : ℕ
  pub grant_version : ℕ
  pub day_key : ℕ
  pub velocity_ts : Option ℕ
  pub max_actions_per_window : Option ℕ
  pub action_window_seconds : Option ℕ
  pub amount_usd : ℕ
  pub status : UsageStatus
  pub submitted : Bool

pub record RiskClaim : Type 0 where
  pub principal_id : ℕ
  pub grant_id : ℕ
  pub grant_version : ℕ
  pub risk_scope : ℕ
  pub state_version : ℕ
  pub intent_id : ℕ

pub record IntentRow : Type 0 where
  pub intent_id : ℕ
  pub principal_id : ℕ
  pub venue : ℕ
  pub intent_hash : ℕ
  pub state : IntentState
  pub effect_id : Option ℕ
  pub reason_codes : List ℕ
  pub submission_count : ℕ
  pub ambiguity_until : Option ℕ
  pub filled_amount_usd : Option ℕ

pub record Attempt : Type 0 where
  pub intent_id : ℕ
  pub attempt_number : ℕ
  pub principal_id : ℕ
  pub grant_id : ℕ
  pub grant_version : ℕ
  pub attempted_at : ℕ
  pub action_count : ℕ

pub record PermitRow : Type 0 where
  pub rowid : ℕ
  pub permit_id : ℕ
  pub intent_id : ℕ
  pub principal_id : ℕ
  pub grant_id : ℕ
  pub grant_version : ℕ
  pub grant_epoch : ℕ
  pub fence_token : ℕ
  pub permit_hash : ℕ
  pub expires_at : Option ℕ
  pub consumed_at : Option ℕ
  pub voided_at : Option ℕ

-- 'global' or 'principal:<id>'
pub data ControlScope : Type 0 where
  global : ControlScope
  principal : ℕ → ControlScope

pub record ControlRow : Type 0 where
  pub scope : ControlScope
  pub halted : Bool
  pub reason : ℕ
  pub control_epoch : ℕ

-- The cap is a text in the datastore; `none` is a text that does not parse.
pub record CapRow : Type 0 where
  pub scope : ControlScope
  pub max_turnover_usd : Option ℕ

-- The payload of an event is the number of its canonical JSON text.
pub record Event : Type 0 where
  pub id : ℕ
  pub intent_id : ℕ
  pub principal_id : ℕ
  pub event_type : ℕ
  pub payload : ℕ
  pub created_at : ℕ
  pub prev_hash : Option ℕ
  pub event_hash : ℕ
  pub event_mac : Option ℕ

pub record Head : Type 0 where
  pub intent_id : ℕ
  pub seq : ℕ
  pub head_hash : ℕ
  pub head_mac : Option ℕ

pub record Db : Type 0 where
  pub grants : List GrantRow
  pub usage_reservations : List Reservation
  pub risk_claims : List RiskClaim
  pub permit_risk_claims : List RiskClaim
  pub intents : List IntentRow
  pub submission_attempts : List Attempt
  pub execution_permits : List PermitRow
  pub runtime_controls : List ControlRow
  pub exposure_caps : List CapRow
  pub exposure_caps_version : ℕ
  pub evidence : List Event
  pub evidence_head : List Head
  pub heads_since : ℕ

pub record Store : Type 0 where
  pub db : Db
  pub open db use *
  pub anchor : Option Anchor
  pub anchor_required : Bool

-- The exceptions of the store. `anchor_behind` is AnchorUnavailableAfterCommit.
pub data StoreError : Type 0 where
  unknown_grant grant_conflict anchor_missing anchor_unavailable anchor_behind authority_regression
        unknown_principal value_error key_error intent_conflict unknown_intent invalid_transition
        effect_conflict permit_conflict integrity_error migration_error evidence_integrity
        evidence_too_large :
      StoreError

-- The effective status: that of the row, or why authority is suspended.
pub data ControlStatus : Type 0 where
  runtime : GrantStatus → ControlStatus
  anchor_required regressed anchor_unavailable halted : ControlStatus

-- A stop commits although the anchor failed, and raises AnchorUnavailableAfterCommit then.
pub data Report (A : Type 0) : Type 0 where
  done : A → Report A
  behind : Report A
