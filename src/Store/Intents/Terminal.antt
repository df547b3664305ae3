-- ===== src/Store/Intents/Terminal.antt =====
-- A terminal intent stays as it ended, and effects have one owner.
use faar_runtime.Common.{
  not-false, ℕ, ◌≡◌, ◌≢◌, sym, ◌∙◌, Bool, true, false, not, ◌&&◌, Option, none, some, List,
  some_inj, leb,
}
use faar_runtime.Common.Result.{ok}
use faar_runtime.Table.{find, count}
use faar_runtime.Models.Enums.{IntentState, submitted}
use faar_runtime.Store.Schema.{IntentRow, Reservation, Store, key_error, value_error}
use faar_runtime.Store.Usage.{at_reservation}
use faar_runtime.Store.Evidence.{Crypto}
use faar_runtime.Store.Lifecycle.{
  find_intent, is_terminal, is_allowed, is_expected, Change, or_old, is_effect_taken, transition,
  begin_submission, Submission, started, is_bad_snapshot, is_velocity_spent, submit_reserved,
}
use faar_runtime.Store.Ensures.{Ensures, Ensures-ok, Ensures-require, Ensures-or_raise, Ensures-if}
use faar_runtime.Store.Progress.Lifecycle.{is_allowed-is_terminal}
use faar_runtime.Store.Progress.Owners.{Owners, IsLedgered, of_intent, counted}
use faar_runtime.Store.Steps.{Run, Run-Advances}

-- What a successful operation on an intent found.
abbrev IsMovable : Store → ℕ → Type 0
IsMovable s i = (row : IntentRow) × (find_intent s i ≡ some row) × (is_terminal row.state ≡ false)

abbrev IfTrue : Store → ℕ → Bool → Store → Type 0
IfTrue s i true t = IsMovable s i
IfTrue s i false t = Unit

transition-IsMovable :
    (s : Store) (i : ℕ) (expected : List IntentState) (state : IntentState) (c : Change)
    → Ensures (IfTrue s i) (transition s i expected state c)
unfolding transition
transition-IsMovable s i expected state c =
    Ensures-require (IfTrue s i) (not (c.release_usage && c.commit_usage)) value_error _ λ _.
      Ensures-or_raise (IfTrue s i) (find_intent s i) key_error _ λ row found.
        Ensures-if (IfTrue s i) (not (is_expected row.state expected)) _ _ (λ _. tt)
          λ _.
            Ensures-if (IfTrue s i) (not (is_allowed row.state state)) _ _ (λ _. tt)
              λ fits.
                Ensures-if (IfTrue s i) (is_effect_taken s row (or_old c.effect_id row.effect_id)) _
                  _ (λ _. tt)
                  λ _. (
                    row,
                    found,
                    is_allowed-is_terminal row.state state
                        (not-false (is_allowed row.state state) fits),
                  )

abbrev IfStarted : Store → ℕ → Submission → Store → Type 0
IfStarted s i (started n) t = IsMovable s i
IfStarted s i _ t = Unit

module _ (s : Store) (i : ℕ) (row : IntentRow) (found : find_intent s i ≡ some row) where
  submit-IsMovable :
      (now : ℕ) (o : Option Reservation) → Ensures (IfStarted s i) (submit_reserved s row i now o)
  submit-IsMovable now none = tt
  submit-IsMovable now (some r) =
      Ensures-if (IfStarted s i) (is_bad_snapshot r) _ _ (λ _. tt)
        λ _.
          Ensures-if (IfStarted s i) (is_velocity_spent s r i _) _ _ (λ _. tt)
            λ _.
              Ensures-if (IfStarted s i) (not (is_allowed row.state submitted)) _ _ (λ _. tt)
                λ fits. (
                  row,
                  found,
                  is_allowed-is_terminal row.state submitted
                      (not-false (is_allowed row.state submitted) fits),
                )

begin_submission-IsMovable :
    (s : Store) (i : ℕ) (expected : List IntentState) (max_attempts now : ℕ)
    → Ensures (IfStarted s i) (begin_submission s i expected max_attempts now)
unfolding begin_submission
begin_submission-IsMovable s i expected max_attempts now =
    Ensures-or_raise (IfStarted s i) (find_intent s i) key_error _ λ row found.
      Ensures-if (IfStarted s i) (not (is_expected row.state expected)) _ _ (λ _. tt)
        λ _.
          Ensures-if (IfStarted s i) (leb max_attempts row.submission_count) _ _ (λ _. tt)
            λ _. submit-IsMovable s i row found now (find (at_reservation i) s.usage_reservations)

stuck :
    (s : Store) (i : ℕ) (row : IntentRow)
    → find_intent s i ≡ some row
    → is_terminal row.state ≡ true
    → IsMovable s i
    → ⊥
stuck s i row found end (x, again, moves) =
    clash (sym end ∙ (rw (some_inj (sym again ∙ found)) at moves))
  where
    clash : true ≡ false → ⊥
    clash h = cc

-- An intent in a terminal state keeps its state, its effect and its count of submissions in every
-- run, and after any run no transition of it succeeds and no submission of it starts.
pub terminal_for_good :
    (c : Crypto) (s u w : Store) (i : ℕ) (row : IntentRow) (expected : List IntentState)
    (state : IntentState) (d : Change) (max_attempts now n : ℕ)
    → find_intent s i ≡ some row
    → is_terminal row.state ≡ true
    → Run c s u
    → ((later : IntentRow) × (find_intent u i ≡ some later)
        × (later.state ≡ row.state)
        × (later.effect_id ≡ row.effect_id)
        × (later.submission_count ≡ row.submission_count))
      × (transition u i expected state d ≢ ok (true, w))
      × (begin_submission u i expected max_attempts now ≢ ok (started n, w))
terminal_for_good c s u w i row expected state d max_attempts now n found end run =
    let (later, again, e) = (Run-Advances c run).intents i row found in
    let ended : is_terminal later.state ≡ true = rw (e.terminal end) end in
    (
      (later, again, e.terminal end, e.terminal_effect end, e.terminal_count end),
      λ h.
          stuck u i later again ended
            (Ensures-ok (IfTrue u i) _ true w (transition-IsMovable u i expected state d) h),
      λ h. stuck u i later again ended (
          Ensures-ok (IfStarted u i) _ (started n) w
            (begin_submission-IsMovable u i expected max_attempts now) h),
    )

-- An effect of a venue belongs to at most one intent, in every store that is reached from one of
-- which this holds.
pub effects_unique :
    (c : Crypto) (s u : Store) (i j e : ℕ) (r q : IntentRow)
    → Owners s.intents
    → Run c s u
    → find_intent u i ≡ some r
    → find_intent u j ≡ some q
    → r.venue ≡ q.venue
    → r.effect_id ≡ some e
    → q.effect_id ≡ some e
    → i ≡ j
effects_unique c s u i j e r q own run = (Run-Advances c run).owners own i j e r q

-- The ledger of attempts has exactly as many rows of an intent as its row counts submissions, in
-- every store that is reached from one of which this holds; an intent that is not registered has
-- none.
pub attempts_ledgered :
    (c : Crypto) (s u : Store) (i : ℕ)
    → IsLedgered s.intents s.submission_attempts
    → Run c s u
    → count (of_intent i) u.submission_attempts ≡ counted (find_intent u i)
attempts_ledgered c s u i h run = (Run-Advances c run).ledger h i
