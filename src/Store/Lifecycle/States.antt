-- ===== src/Store/Lifecycle/States.antt =====
-- The states of an intent: TERMINAL_STATES and _ALLOWED_TRANSITIONS of `faar/store.py`.
use faar_runtime.Common.{ℕ, Bool, true, false, ◌||◌, List, [], ◌∷◌, ◌==◌}
use faar_runtime.Models.Enums.{
  IntentState, proposed, denied, deferred, stopped, authorized, reserved, submitted, unknown,
  reconciling, confirmed, finalized, failed_safe,
}

-- TERMINAL_STATES
unfoldable pub is_terminal : IntentState → Bool
is_terminal denied = true
is_terminal deferred = true
is_terminal stopped = true
is_terminal finalized = true
is_terminal failed_safe = true
is_terminal _ = false

-- _ALLOWED_TRANSITIONS
unfoldable pub is_allowed : IntentState → IntentState → Bool
is_allowed proposed denied = true
is_allowed proposed deferred = true
is_allowed proposed stopped = true
is_allowed proposed authorized = true
is_allowed authorized reserved = true
is_allowed authorized stopped = true
is_allowed reserved submitted = true
is_allowed reserved reconciling = true
is_allowed reserved stopped = true
is_allowed submitted confirmed = true
is_allowed submitted unknown = true
is_allowed submitted reconciling = true
is_allowed submitted stopped = true
is_allowed submitted failed_safe = true
is_allowed unknown reconciling = true
is_allowed unknown stopped = true
is_allowed reconciling submitted = true
is_allowed reconciling confirmed = true
is_allowed reconciling finalized = true
is_allowed reconciling failed_safe = true
is_allowed reconciling stopped = true
is_allowed reconciling unknown = true
is_allowed confirmed finalized = true
is_allowed confirmed reconciling = true
is_allowed confirmed stopped = true
is_allowed _ _ = false

-- The number of a state, by which states are compared.
unfoldable pub state_code : IntentState → ℕ
state_code proposed = 0
state_code denied = 1
state_code deferred = 2
state_code stopped = 3
state_code authorized = 4
state_code reserved = 5
state_code submitted = 6
state_code unknown = 7
state_code reconciling = 8
state_code confirmed = 9
state_code finalized = 10
state_code failed_safe = 11

-- state in expected
unfoldable pub is_expected : IntentState → List IntentState → Bool
unfolding state_code
is_expected state [] = false
is_expected state (e ∷ es) = state_code e == state_code state || is_expected state es
