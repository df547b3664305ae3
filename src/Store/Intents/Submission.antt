-- ===== src/Store/Intents/Submission.antt =====
-- A submission that starts: what begin_submission found, and the limits that hold after it.
use faar_runtime.Common.{
  not-false, ℕ, ◌+◌, ◌-◌, ◌/◌, ◌≤◌, ◌≡◌, refl, Bool, true, false, not, ◌&&◌, Option, none, some,
  List, [], ◌∷◌, ◌++◌, arith, ◌==◌, leb, ltb, if◌then◌else◌,
}
use faar_runtime.Common.Result.{ok}
use faar_runtime.Table.{find, update, count}
use faar_runtime.Table.Sums.{sum-append, count-update}
use faar_runtime.Models.Enums.{IntentState, submitted}
use faar_runtime.Store.Schema.{IntentRow, Reservation, Store, key_error}
use faar_runtime.Store.Usage.{
  at_reservation, microseconds, in_attempt_window, in_pending_window, action_velocity_count,
  owned_by, since, is_counted,
}
use faar_runtime.Store.Lifecycle.{
  find_intent, is_allowed, is_expected, begin_submission, Submission, started, is_bad_snapshot,
  is_velocity_spent, submit_reserved, new_attempt, resubmitted, start,
}
use faar_runtime.Store.Ensures.{Ensures, Ensures-ok, Ensures-or_raise, Ensures-if}
use faar_runtime.Store.Intents.Transition.{intent-find}

-- The actions in the window that ends at `now` are at most those that the reservation allows.
abbrev pub IsWithinVelocity : Store → Reservation → ℕ → Type 0
IsWithinVelocity t r now =
    (cap window : ℕ)
    → r.max_actions_per_window ≡ some cap
    → r.action_window_seconds ≡ some window
    → action_velocity_count t r.grant_id r.principal_id (now - window) none ≤ cap

-- What a submission found, and what it wrote.
pub record IsStarted (s : Store) (i : ℕ) (expected : List IntentState) (max_attempts now n : ℕ)
    (t : Store) : Type 0 where
  pub row : IntentRow
  pub found : find_intent s i ≡ some row
  pub was_expected : is_expected row.state expected ≡ true
  pub allowed : is_allowed row.state submitted ≡ true
  pub counts : n ≡ row.submission_count + 1
  pub within_attempts : n ≤ max_attempts
  pub intents :
      (j : ℕ) → find_intent t j ≡ (if j == i then some (resubmitted n row) else find_intent s j)
  pub reservation : Reservation
  pub reserved : find (at_reservation i) s.usage_reservations ≡ some reservation
  pub attempts :
      t.submission_attempts
      ≡ s.submission_attempts ++ new_attempt reservation i n (now / microseconds) ∷ []
  pub within_velocity : IsWithinVelocity t reservation (now / microseconds)

abbrev IfStarted : Store → ℕ → List IntentState → ℕ → ℕ → Submission → Store → Type 0
IfStarted s i expected max_attempts now (started n) t = IsStarted s i expected max_attempts now n t
IfStarted s i expected max_attempts now _ t = t ≡ s

below : (m n : ℕ) → leb m n ≡ false → n + 1 ≤ m
below m n h = ground arith

-- The reservation of a submitted intent is not pending any more.
pending-submitted :
    (g p from i : ℕ) (rows : List Reservation)
    → count
        (in_pending_window g p from none)
        (update (at_reservation i) (λ r. record r { submitted = true }) rows)
      ≤ count (in_pending_window g p from (some i)) rows
pending-submitted g p from i rows =
    count-update (in_pending_window g p from none) (in_pending_window g p from (some i))
      (at_reservation i) (λ r. record r { submitted = true }) rows still
  where
    still :
        (x : Reservation)
        → in_pending_window g p from none
            (if at_reservation i x then record x { submitted = true } else x)
          ≡ true
        → in_pending_window g p from (some i) x ≡ true
    still x h =
        by_id (x.intent_id == i) (x.grant_id == g) (owned_by p x.principal_id)
          (since from x.velocity_ts) (not x.submitted) (is_counted x.status)
          (fields (x.intent_id == i) h)
      where
        fields :
            (b : Bool)
            → in_pending_window g p from none (if b then record x { submitted = true } else x)
              ≡ true
            → (x.grant_id == g
                && (owned_by p x.principal_id
                    && (since from x.velocity_ts
                        && ((if b then false else not x.submitted)
                            && (is_counted x.status && true)))))
              ≡ true
        fields true h = h
        fields false h = h

        by_id :
            (b grant owner recent unsent live : Bool)
            → (grant && (owner && (recent && ((if b then false else unsent) && (live && true)))))
              ≡ true
            → (grant && (owner && (recent && (unsent && (live && not b))))) ≡ true
        by_id b grant owner recent unsent live h = ground arith

velocity-start :
    (s : Store) (q : Reservation) (g p from i n now : ℕ)
    → action_velocity_count (start s q i n now) g p from none
      ≤ action_velocity_count s g p from (some i) + 1
unfolding action_velocity_count
velocity-start s q g p from i n now =
    let new = new_attempt q i n now in
    bounded (in_attempt_window g p from new) _ _ _ _
      (sum-append (in_attempt_window g p from) (λ a. a.action_count) s.submission_attempts new)
      (pending-submitted g p from i s.usage_reservations)
  where
    bounded :
        (b : Bool) (total old pending before : ℕ)
        → total ≡ old + (if b then 1 else 0)
        → pending ≤ before
        → total + pending ≤ old + before + 1
    bounded true total old pending before e le = omega arith
    bounded false total old pending before e le = omega arith

module _ (s : Store) (i : ℕ) (expected : List IntentState) (max_attempts : ℕ) (row : IntentRow)
    (found : find_intent s i ≡ some row) (was_expected : is_expected row.state expected ≡ true)
    (more : leb max_attempts row.submission_count ≡ false) where
  unspent :
      (r : Reservation) (now : ℕ)
      → is_velocity_spent s r i now ≡ false
      → IsWithinVelocity (start s r i (row.submission_count + 1) now) r now
  unspent r now h cap window ec ew =
      within cap _ _
        (velocity-start s r r.grant_id r.principal_id (now - window) i (row.submission_count + 1)
          now)
        (rw (ec, ew) at h)
    where
      within : (cap a b : ℕ) → a ≤ b + 1 → ltb cap (b + 1) ≡ false → a ≤ cap
      within cap a b le h = ground arith

  submit-IsStarted :
      (now : ℕ) (o : Option Reservation)
      → find (at_reservation i) s.usage_reservations ≡ o
      → Ensures (IfStarted s i expected max_attempts now) (submit_reserved s row i now o)
  submit-IsStarted now none e = tt
  submit-IsStarted now (some r) e =
      Ensures-if (IfStarted s i expected max_attempts now) (is_bad_snapshot r) _ _ (λ _. tt)
        λ _.
          Ensures-if (IfStarted s i expected max_attempts now) (is_velocity_spent s r i _) _ _
            (λ _. refl)
            λ unspent_now.
              Ensures-if (IfStarted s i expected max_attempts now)
                (not (is_allowed row.state submitted)) _ _ (λ _. tt)
                λ allowed. record {
                  row = row;
                  found = found;
                  was_expected = was_expected;
                  allowed = not-false (is_allowed row.state submitted) allowed;
                  counts = refl;
                  within_attempts = below max_attempts row.submission_count more;
                  intents =
                      intent-find i (resubmitted (row.submission_count + 1)) s.intents row found
                        (λ _. refl);
                  reservation = r;
                  reserved = e;
                  attempts = refl;
                  within_velocity = unspent r (now / microseconds) unspent_now;
                }

begin_submission-IsStarted :
    (s : Store) (i : ℕ) (expected : List IntentState) (max_attempts now : ℕ)
    → Ensures
        (IfStarted s i expected max_attempts now)
        (begin_submission s i expected max_attempts now)
unfolding begin_submission
begin_submission-IsStarted s i expected max_attempts now =
    Ensures-or_raise (IfStarted s i expected max_attempts now) (find_intent s i) key_error _
      λ row found.
        Ensures-if (IfStarted s i expected max_attempts now) (not (is_expected row.state expected))
          _ _ (λ _. refl)
          λ was_expected.
            Ensures-if (IfStarted s i expected max_attempts now)
              (leb max_attempts row.submission_count) _ _ (λ _. refl)
              λ more.
                submit-IsStarted s i expected max_attempts row found
                  (not-false (is_expected row.state expected) was_expected) more now
                  (find (at_reservation i) s.usage_reservations) refl

-- A submission that starts found the intent in an expected state, with a reservation and fewer
-- attempts than `max_attempts`. Afterwards the intent is submitted with one attempt more and every
-- other intent is as before, the ledger has this attempt as its last row, and the actions of the
-- grant in its trailing window, this one counted, are at most those that its reservation allows.
pub submission_within_limits :
    (s t : Store) (i : ℕ) (expected : List IntentState) (max_attempts now n : ℕ)
    → begin_submission s i expected max_attempts now ≡ ok (started n, t)
    → IsStarted s i expected max_attempts now n t
submission_within_limits s t i expected max_attempts now n h =
    Ensures-ok (IfStarted s i expected max_attempts now) _ (started n) t
      (begin_submission-IsStarted s i expected max_attempts now) h
