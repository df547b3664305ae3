-- ===== src/Store/Lifecycle.antt =====
-- The life of an intent: register, get, transition and begin_submission.
mod States
use faar_runtime.Common.{
  ℕ, ◌+◌, ◌-◌, ◌/◌, Bool, true, false, not, ◌&&◌, ◌||◌, Option, none, some, List, [], ◌∷◌, ◌++◌,
  ltb, leb, ◌==◌, if◌then◌else◌,
}
use faar_runtime.Common.Result.{ok, err, ◌>>=◌, ◌>>◌, require, or_raise}
use faar_runtime.Table.{find, exists, update}
use faar_runtime.Models.Enums.{
  IntentState, proposed, denied, deferred, stopped, authorized, reserved, submitted, unknown,
  reconciling, confirmed, finalized, failed_safe,
}
use faar_runtime.Models.Grant.{Intent}
use faar_runtime.Store.Schema.{
  IntentRow, Reservation, released, committed, Attempt, Store, key_error, value_error,
  intent_conflict, invalid_transition, effect_conflict, migration_error,
}
use faar_runtime.Store.Access.{Tx}
use faar_runtime.Store.Evidence.{Crypto, Content, append_evidence}
use faar_runtime.Store.Usage.{microseconds, at_reservation, settle_usage, action_velocity_count}
unfoldable pub use States.{is_terminal, is_allowed, state_code, is_expected}

abbrev pub at_intent : ℕ → IntentRow → Bool
at_intent i row = row.intent_id == i

abbrev pub find_intent : Store → ℕ → Option IntentRow
find_intent s i = find (at_intent i) s.intents

abbrev pub new_intent : Intent → ℕ → IntentRow
new_intent i intent_hash = record {
  intent_id = i.intent_id;
  principal_id = i.principal_id;
  venue = i.venue;
  intent_hash = intent_hash;
  state = proposed;
  effect_id = none;
  reason_codes = [];
  submission_count = 0;
  ambiguity_until = none;
  filled_amount_usd = none;
}

-- The row and the first event of its chain, "intent_registered", are one transaction.
abbrev pub insert_intent : Crypto → Store → Intent → ℕ → Content → Tx IntentRow
insert_intent c s i intent_hash x =
    let row = new_intent i intent_hash in
    let t = record s { db = record s.db { intents = s.intents ++ row ∷ [] } } in
    append_evidence c t i.intent_id i.principal_id x >>= λ r. ok (row, r.1)

-- An id that is taken keeps its principal and its canonical payload.
abbrev pub register_row : Crypto → Store → Intent → ℕ → Content → Option IntentRow → Tx IntentRow
register_row c s i intent_hash x none = insert_intent c s i intent_hash x
register_row c s i intent_hash x (some row) =
    if not (row.principal_id == i.principal_id)
    then err intent_conflict
    else if not (row.intent_hash == intent_hash)
    then err intent_conflict
    else ok (row, s)

-- The row of the intent afterwards is the result.
unfoldable pub register : Crypto → Store → Intent → ℕ → Content → Tx IntentRow
register c s i intent_hash x = register_row c s i intent_hash x (find_intent s i.intent_id)

-- The keyword arguments of `transition`. `effect_id` and the amount have their types; the
-- serialised size of the reason codes is not modelled.
pub record Change : Type 0 where
  pub reason_codes : List ℕ
  pub effect_id : Option ℕ
  pub release_usage : Bool
  pub commit_usage : Bool
  pub ambiguity_until : Option ℕ
  pub filled_amount_usd : Option ℕ

-- `x if x is not None else old`
abbrev pub or_old : Option ℕ → Option ℕ → Option ℕ
or_old none old = old
or_old (some x) old = some x

abbrev pub same_effect : Option ℕ → ℕ → Bool
same_effect none e = false
same_effect (some d) e = d == e

-- UNIQUE(venue, effect_id) WHERE effect_id IS NOT NULL: another intent owns the effect.
abbrev pub owns_effect : IntentRow → ℕ → IntentRow → Bool
owns_effect row e r =
    not (r.intent_id == row.intent_id) && (r.venue == row.venue && same_effect r.effect_id e)

abbrev pub is_effect_taken : Store → IntentRow → Option ℕ → Bool
is_effect_taken s row none = false
is_effect_taken s row (some e) = exists (owns_effect row e) s.intents

abbrev pub changed : IntentRow → IntentState → Change → IntentRow
changed row state c = record row {
  state = state;
  effect_id = or_old c.effect_id row.effect_id;
  reason_codes = c.reason_codes;
  ambiguity_until = or_old c.ambiguity_until row.ambiguity_until;
  filled_amount_usd = or_old c.filled_amount_usd row.filled_amount_usd;
}

abbrev pub changed_usage : Change → ℕ → List Reservation → List Reservation
changed_usage c i rows =
    let freed = if c.release_usage then settle_usage released i rows else rows in
    if c.commit_usage then settle_usage committed i freed else freed

abbrev pub apply_change : Store → ℕ → IntentState → Change → Store
apply_change s i state c = record s {
  db = record s.db {
    intents = update (at_intent i) (λ r. changed r state c) s.intents;
    usage_reservations = changed_usage c i s.usage_reservations;
  };
}

-- Compare and set: `false` when the state is not one of the expected.
unfoldable pub transition : Store → ℕ → List IntentState → IntentState → Change → Tx Bool
transition s i expected new_state c = do
  require (not (c.release_usage && c.commit_usage)) value_error
  row ← or_raise (find_intent s i) key_error
  if not (is_expected row.state expected)
      then ok (false, s)
      else if not (is_allowed row.state new_state)
      then err invalid_transition
      else if is_effect_taken s row (or_old c.effect_id row.effect_id)
      then err effect_conflict
      else ok (true, apply_change s i new_state c)

-- What begin_submission returns, with the resulting count.
pub data Submission : Type 0 where
  started : ℕ → Submission
  not_expected : ℕ → Submission
  attempt_limit_reached : ℕ → Submission
  velocity_limit_reached : ℕ → Submission

-- The velocity snapshot of the reservation.
abbrev pub is_bad_snapshot : Reservation → Bool
is_bad_snapshot r = elim r.max_actions_per_window [
  | none ↦ false
  | some cap ↦ elim r.action_window_seconds [ none ↦ true | some window ↦ ltb window 1 ]
]

abbrev pub is_velocity_spent : Store → Reservation → ℕ → ℕ → Bool
is_velocity_spent s r i now = elim r.max_actions_per_window [
  | none ↦ false
  | some cap ↦ elim r.action_window_seconds [
    | none ↦ false
    | some window ↦
        ltb cap (action_velocity_count s r.grant_id r.principal_id (now - window) (some i) + 1)
  ]
]

abbrev pub new_attempt : Reservation → ℕ → ℕ → ℕ → Attempt
new_attempt r i count now = record {
  intent_id = i;
  attempt_number = count;
  principal_id = r.principal_id;
  grant_id = r.grant_id;
  grant_version = r.grant_version;
  attempted_at = now;
  action_count = 1;
}

abbrev pub resubmitted : ℕ → IntentRow → IntentRow
resubmitted count row = record row {
  state = submitted;
  submission_count = count;
  reason_codes = [];
  ambiguity_until = none;
}

abbrev pub start : Store → Reservation → ℕ → ℕ → ℕ → Store
start s r i count now = record s {
  db = record s.db {
    submission_attempts = s.submission_attempts ++ new_attempt r i count now ∷ [];
    intents = update (at_intent i) (resubmitted count) s.intents;
    usage_reservations =
        update (at_reservation i) (λ r. record r { submitted = true }) s.usage_reservations;
  };
}

abbrev pub submit : Store → IntentRow → Reservation → ℕ → ℕ → Tx Submission
submit s row r i now =
    if is_bad_snapshot r
    then err migration_error
    else if is_velocity_spent s r i now
    then ok (velocity_limit_reached row.submission_count, s)
    else if not (is_allowed row.state submitted)
    then err invalid_transition
    else let count = row.submission_count + 1 in ok (started count, start s r i count now)

-- A submission without a reservation is a fault of the datastore.
abbrev pub submit_reserved : Store → IntentRow → ℕ → ℕ → Option Reservation → Tx Submission
submit_reserved s row i now none = err migration_error
submit_reserved s row i now (some r) = submit s row r i (now / microseconds)

-- `now` in microseconds
unfoldable pub begin_submission : Store → ℕ → List IntentState → ℕ → ℕ → Tx Submission
begin_submission s i expected max_attempts now = do
  row ← or_raise (find_intent s i) key_error
  let count = row.submission_count
  if not (is_expected row.state expected)
      then ok (not_expected count, s)
      else if leb max_attempts count
      then ok (attempt_limit_reached count, s)
      else submit_reserved s row i now (find (at_reservation i) s.usage_reservations)
