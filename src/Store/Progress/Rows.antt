-- ===== src/Store/Progress/Rows.antt =====
-- The development of one row of each table, reflexive and transitive, and of a whole store.
use faar_runtime.Common.{ℕ, ◌≤◌, ◌<◌, ◌≡◌, true, false, arith, is_some, is_none}
use faar_runtime.Table.Kept.{Kept, Kept-refl, Kept-trans}
use faar_runtime.Store.Schema.{GrantRow, IntentRow, PermitRow, Reservation, Store}
use faar_runtime.Store.Access.{at_grant, is_active, is_revoked}
use faar_runtime.Store.Permits.{at_permit}
use faar_runtime.Store.Usage.{at_reservation, is_held}
use faar_runtime.Store.Lifecycle.{at_intent, is_terminal}
use faar_runtime.Store.Progress.Owners.{Owners, IsLedgered}

-- Epoch and fence never fall, a revoked version stays revoked, and a version that was not ACTIVE
-- is ACTIVE again only under a later epoch.
pub record GrantExtends (r q : GrantRow) : Type 0 where
  pub principal : q.principal_id ≡ r.principal_id
  pub hash : q.grant_hash ≡ r.grant_hash
  pub epoch : r.runtime_epoch ≤ q.runtime_epoch
  pub fence : r.fence_counter ≤ q.fence_counter
  pub stays_revoked : is_revoked r.runtime_status ≡ true → is_revoked q.runtime_status ≡ true
  pub reactivated :
      is_active r.runtime_status ≡ false
      → is_active q.runtime_status ≡ true
      → r.runtime_epoch < q.runtime_epoch

-- A permit keeps its binding; its consumption and its voiding are final and exclude each other.
pub record PermitExtends (p q : PermitRow) : Type 0 where
  pub rowid : q.rowid ≡ p.rowid
  pub intent : q.intent_id ≡ p.intent_id
  pub principal : q.principal_id ≡ p.principal_id
  pub grant : q.grant_id ≡ p.grant_id
  pub version : q.grant_version ≡ p.grant_version
  pub epoch : q.grant_epoch ≡ p.grant_epoch
  pub fence : q.fence_token ≡ p.fence_token
  pub hash : q.permit_hash ≡ p.permit_hash
  pub stays_consumed : is_some p.consumed_at ≡ true → is_some q.consumed_at ≡ true
  pub stays_voided : is_some p.voided_at ≡ true → is_some q.voided_at ≡ true
  pub voided_for_good :
      is_some p.voided_at ≡ true → is_none p.consumed_at ≡ true → is_none q.consumed_at ≡ true

-- The identity of an intent is fixed, its effect is not lost, its count of submissions does not
-- fall, and a terminal state is final.
pub record IntentExtends (r q : IntentRow) : Type 0 where
  pub principal : q.principal_id ≡ r.principal_id
  pub venue : q.venue ≡ r.venue
  pub hash : q.intent_hash ≡ r.intent_hash
  pub effect_kept : is_some r.effect_id ≡ true → is_some q.effect_id ≡ true
  pub count : r.submission_count ≤ q.submission_count
  pub terminal : is_terminal r.state ≡ true → q.state ≡ r.state
  pub terminal_effect : is_terminal r.state ≡ true → q.effect_id ≡ r.effect_id
  pub terminal_count : is_terminal r.state ≡ true → q.submission_count ≡ r.submission_count

-- A reservation keeps its amount and owner, and is settled once.
pub record ReservationExtends (r q : Reservation) : Type 0 where
  pub principal : q.principal_id ≡ r.principal_id
  pub grant : q.grant_id ≡ r.grant_id
  pub amount : q.amount_usd ≡ r.amount_usd
  pub stamp : q.velocity_ts ≡ r.velocity_ts
  pub settled : is_held r.status ≡ false → q.status ≡ r.status
  pub submitted : r.submitted ≡ true → q.submitted ≡ true

pub GrantExtends-refl : (r : GrantRow) → GrantExtends r r
GrantExtends-refl r = ground arith

pub PermitExtends-refl : (p : PermitRow) → PermitExtends p p
PermitExtends-refl p = ground arith

pub IntentExtends-refl : (r : IntentRow) → IntentExtends r r
IntentExtends-refl r = ground arith

pub ReservationExtends-refl : (r : Reservation) → ReservationExtends r r
ReservationExtends-refl r = ground arith

pub GrantExtends-trans : (a b c : GrantRow) → GrantExtends a b → GrantExtends b c → GrantExtends a c
GrantExtends-trans a b c h k = ground arith

pub PermitExtends-trans :
    (a b c : PermitRow) → PermitExtends a b → PermitExtends b c → PermitExtends a c
PermitExtends-trans a b c h k = ground arith

pub IntentExtends-trans :
    (a b c : IntentRow) → IntentExtends a b → IntentExtends b c → IntentExtends a c
IntentExtends-trans a b c h k = ground arith

pub ReservationExtends-trans :
    (a b c : Reservation) → ReservationExtends a b → ReservationExtends b c → ReservationExtends a c
ReservationExtends-trans a b c h k = ground arith

pub record Advances (s t : Store) : Type 0 where
  pub grants : (g v : ℕ) → Kept (at_grant g v) GrantExtends s.grants t.grants
  pub permits : (i : ℕ) → Kept (at_permit i) PermitExtends s.execution_permits t.execution_permits
  pub intents : (i : ℕ) → Kept (at_intent i) IntentExtends s.intents t.intents
  pub reservations :
      (i : ℕ) → Kept (at_reservation i) ReservationExtends s.usage_reservations t.usage_reservations
  pub owners : Owners s.intents → Owners t.intents
  pub ledger :
      IsLedgered s.intents s.submission_attempts → IsLedgered t.intents t.submission_attempts

pub Advances-refl : (s : Store) → Advances s s
Advances-refl s = record {
  grants = λ g v. Kept-refl GrantExtends GrantExtends-refl (at_grant g v) s.grants;
  permits = λ i. Kept-refl PermitExtends PermitExtends-refl (at_permit i) s.execution_permits;
  intents = λ i. Kept-refl IntentExtends IntentExtends-refl (at_intent i) s.intents;
  reservations = λ i.
      Kept-refl ReservationExtends ReservationExtends-refl (at_reservation i) s.usage_reservations;
  owners = λ h. h;
  ledger = λ h. h;
}

pub Advances-trans : (s t u : Store) → Advances s t → Advances t u → Advances s u
Advances-trans s t u a b = record {
  grants = λ g v.
      Kept-trans GrantExtends GrantExtends-trans (at_grant g v) s.grants t.grants u.grants
        (a.grants g v) (b.grants g v);
  permits = λ i.
      Kept-trans PermitExtends PermitExtends-trans (at_permit i) s.execution_permits
        t.execution_permits u.execution_permits (a.permits i) (b.permits i);
  intents = λ i.
      Kept-trans IntentExtends IntentExtends-trans (at_intent i) s.intents t.intents u.intents
        (a.intents i) (b.intents i);
  reservations = λ i.
      Kept-trans ReservationExtends ReservationExtends-trans (at_reservation i) s.usage_reservations
        t.usage_reservations u.usage_reservations (a.reservations i) (b.reservations i);
  owners = λ h. b.owners (a.owners h);
  ledger = λ h. b.ledger (a.ledger h);
}
