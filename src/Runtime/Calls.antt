-- ===== src/Runtime/Calls.antt =====
-- The calls of the store that the runtime makes, RuntimeResult and the results that read the row.
use faar_runtime.Common.{
  ℕ, Bool, true, false, Option, none, some, List, [], ◌∷◌, ltb, if◌then◌else◌,
}
use faar_runtime.Common.Result.{Result, ok, require, or_raise}
use faar_runtime.Models.Enums.{IntentState}
use faar_runtime.Models.Grant.{CapabilityGrant}
use faar_runtime.Store.Schema.{
  Store, StoreError, IntentRow, unknown_intent, evidence_integrity, ControlStatus,
}
use faar_runtime.Store.Grants.{verify_grant, get_grant_control}
use faar_runtime.Store.Permits.{void_unconsumed_permits, permit_counts}
use faar_runtime.Store.Usage.{commit_usage, release_usage}
use faar_runtime.Store.Evidence.{add_evidence, is_head_matching, chain_length, chain_tail}
use faar_runtime.Store.Lifecycle.{transition, find_intent, Change}
use faar_runtime.Worker.Defs.{Env, Entry, M, pure, ◌>>=◌, ◌>>◌, call, reading}

pub record RuntimeResult : Type 0 where
  pub intent_id : ℕ
  pub state : IntentState
  pub effect_id : Option ℕ
  pub reason_codes : List ℕ
  pub replayed : Bool
  pub submission_count : ℕ

-- A change that writes the reason codes and nothing else; the keyword arguments are added to it.
abbrev pub because : List ℕ → Change
because reasons = record {
  reason_codes = reasons;
  effect_id = none;
  release_usage = false;
  commit_usage = false;
  ambiguity_until = none;
  filled_amount_usd = none;
}

abbrev pub releasing : List ℕ → Change
releasing reasons = record (because reasons) { release_usage = true }

-- assert_evidence_appendable
unfoldable pub is_appendable : Env → Store → ℕ → Result StoreError (Unit {0})
is_appendable e s i =
    require (is_head_matching e.crypto s i (chain_length s i) (chain_tail s i)) evidence_integrity

abbrev pub is_nonempty {ℓ} : {A : Type ℓ} → List A → Bool
is_nonempty [] = false
is_nonempty (_ ∷ _) = true

module _ (e : Env) where
  unfoldable pub get : ℕ → M IntentRow
  get i = call e (reading (λ s. or_raise (find_intent s i) unknown_intent))

  unfoldable pub change : ℕ → IntentState → IntentState → Change → M Bool
  change i from_ to_ c = call e (λ s. transition s i (from_ ∷ []) to_ c)

  -- add_evidence; the text of the event is the surroundings'
  unfoldable pub log : ℕ → Entry → M ℕ
  log i x w = call e (λ s. add_evidence e.crypto s i (e.content w.calls x)) w

  unfoldable pub assert_evidence_appendable : ℕ → M (Unit {0})
  unfolding is_appendable
  assert_evidence_appendable i = call e (reading (λ s. is_appendable e s i))

  unfoldable pub verify_provisioned : CapabilityGrant → M (Unit {0})
  verify_provisioned g = call e (reading (λ s. verify_grant s g (e.hashes.grant g)))

  unfoldable pub get_grant_status : CapabilityGrant → M ControlStatus
  get_grant_status g =
      call e (reading (λ s. get_grant_control s g.principal_id g.grant_id g.version)) >>= λ r.
      pure r.0

  unfoldable pub void : ℕ → M ℕ
  void i w = call e (λ s. ok (void_unconsumed_permits s i (e.clock w.calls))) w

  unfoldable pub count_permits : ℕ → M (ℕ × ℕ)
  count_permits i = call e (reading (λ s. ok (permit_counts s i)))

  unfoldable pub commit : ℕ → M (Unit {0})
  commit i = call e (λ s. ok (tt, commit_usage s i))

  unfoldable pub release : ℕ → M (Unit {0})
  release i = call e (λ s. ok (tt, release_usage s i))

  -- voided = void_unconsumed_permits(...); if voided: add_evidence("permits_voided")
  unfoldable pub void_permits : ℕ → M (Unit {0})
  unfolding void log
  void_permits i = do
    voided ← void i
    if ltb 0 voided then log i (Entry.permits_voided voided) >> pure tt else pure tt

abbrev pub or_stored : Option ℕ → Option ℕ → Option ℕ
or_stored none old = old
or_stored (some x) old = some x

abbrev pub or_codes : List ℕ → List ℕ → List ℕ
or_codes [] old = old
or_codes (r ∷ rs) old = r ∷ rs

abbrev pub result_of_row : IntentRow → Option ℕ → List ℕ → Bool → RuntimeResult
result_of_row row effect reasons replayed = record {
  intent_id = row.intent_id;
  state = row.state;
  effect_id = effect;
  reason_codes = reasons;
  replayed = replayed;
  submission_count = row.submission_count;
}

-- _stored_result
abbrev pub stored_result : IntentRow → List ℕ → Bool → RuntimeResult
stored_result row reasons replayed = result_of_row row row.effect_id reasons replayed

-- _current_result
unfoldable pub current_result : Env → ℕ → Option ℕ → List ℕ → Bool → M RuntimeResult
unfolding get
current_result e i effect reasons replayed = get e i >>= λ row. pure (
    result_of_row row (or_stored effect row.effect_id) (or_codes reasons row.reason_codes) replayed)
