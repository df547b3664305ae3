-- ===== src/Store/Progress/Lifecycle.antt =====
-- The operations on intents develop their rows: register, transition, begin_submission, and
-- add_evidence, which changes no row of the other tables.
use faar_runtime.Common.{
  not-false, ℕ, ◌+◌, ◌/◌, ◌≤◌, ◌≡◌, refl, sym, ◌∙◌, ap, subst, Bool, true, false, not, ◌&&◌, Option,
  none, some, List, arith, some_inj, leb, if◌then◌else◌,
}
use faar_runtime.Table.{find, update}
use faar_runtime.Table.Find.{find_holds}
use faar_runtime.Table.Kept.{Kept, Kept-refl, Kept-update, Kept-trans}
use faar_runtime.Models.Enums.{
  IntentState, proposed, denied, deferred, stopped, authorized, reserved, submitted, unknown,
  reconciling, confirmed, finalized, failed_safe,
}
use faar_runtime.Store.Schema.{
  IntentRow, Reservation, released, committed, Store, value_error, key_error,
}
use faar_runtime.Store.Usage.{at_reservation, settle_usage, microseconds}
use faar_runtime.Store.Lifecycle.{
  at_intent, find_intent, is_terminal, is_allowed, is_expected, Change, changed, changed_usage,
  or_old, transition, is_effect_taken, resubmitted, new_attempt, is_bad_snapshot, is_velocity_spent,
  submit, submit_reserved, begin_submission,
}
use faar_runtime.Store.Ensures.{Ensures, Ensures-require, Ensures-or_raise, Ensures-if}
use faar_runtime.Store.Progress.Owners.{
  IsFresh, Owners-update, Owners-IsFresh, checked-IsFresh, IsLedgered-update, IsLedgered-start,
}
use faar_runtime.Store.Progress.Rows.{
  IntentExtends, IntentExtends-refl, ReservationExtends, ReservationExtends-refl,
  ReservationExtends-trans, Advances, Advances-refl,
}
use faar_runtime.Store.Progress.Usage.{settle_usage-Kept}

-- No transition leaves a terminal state.
pub is_allowed-is_terminal : (a b : IntentState) → is_allowed a b ≡ true → is_terminal a ≡ false
unfolding is_allowed is_terminal
is_allowed-is_terminal proposed b h = refl
is_allowed-is_terminal denied b h = cc
is_allowed-is_terminal deferred b h = cc
is_allowed-is_terminal stopped b h = cc
is_allowed-is_terminal authorized b h = refl
is_allowed-is_terminal reserved b h = refl
is_allowed-is_terminal submitted b h = refl
is_allowed-is_terminal unknown b h = refl
is_allowed-is_terminal reconciling b h = refl
is_allowed-is_terminal confirmed b h = refl
is_allowed-is_terminal finalized b h = cc
is_allowed-is_terminal failed_safe b h = cc

changed-Extends :
    (r : IntentRow) (state : IntentState) (c : Change)
    → is_terminal r.state ≡ false
    → IntentExtends r (changed r state c)
changed-Extends r state c h = ground arith

resubmitted-Extends :
    (r : IntentRow) (n : ℕ)
    → is_terminal r.state ≡ false
    → r.submission_count ≤ n
    → IntentExtends r (resubmitted n r)
resubmitted-Extends r n h k = ground arith

module _ (s : Store) (i : ℕ) (row : IntentRow) (found : find_intent s i ≡ some row) where
  found_again : (j : ℕ) (x : IntentRow) → find_intent s j ≡ some x → at_intent i x ≡ true → row ≡ x
  found_again j x hx hit = some_inj (
      sym found ∙ ap (find_intent s) (same_id j x (find_holds (at_intent j) s.intents hx) hit) ∙ hx)
    where
      same_id : (j : ℕ) (x : IntentRow) → at_intent j x ≡ true → at_intent i x ≡ true → i ≡ j
      same_id j x a b = ground arith

  pub updated_intent :
      (f : IntentRow → IntentRow)
      → ((x : IntentRow) → (f x).intent_id ≡ x.intent_id)
      → IntentExtends row (f row)
      → (j : ℕ) → Kept (at_intent j) IntentExtends s.intents (update (at_intent i) f s.intents)
  updated_intent f same ext j =
      Kept-update IntentExtends IntentExtends-refl (at_intent j) (at_intent i) f s.intents
        (λ x. rw (same x))
        (λ x hx hit. subst (λ y. IntentExtends y (f y)) (found_again j x hx hit) ext)

if-Kept :
    (b : Bool) (p : Reservation → Bool) (xs ys zs : List Reservation)
    → Kept p ReservationExtends xs ys
    → Kept p ReservationExtends xs zs
    → Kept p ReservationExtends xs (if b then ys else zs)
if-Kept true p xs ys zs h k = h
if-Kept false p xs ys zs h k = k

changed_usage-Kept :
    (c : Change) (i : ℕ) (rows : List Reservation) (j : ℕ)
    → Kept (at_reservation j) ReservationExtends rows (changed_usage c i rows)
changed_usage-Kept c i rows j =
    if-Kept c.commit_usage p rows (settle_usage committed i (freed)) freed
      (Kept-trans ReservationExtends ReservationExtends-trans p rows freed
        (settle_usage committed i freed) freed-Kept (settle_usage-Kept committed i freed j))
      freed-Kept
  where
    p : Reservation → Bool
    p = at_reservation j

    freed : List Reservation
    freed = if c.release_usage then settle_usage released i rows else rows

    freed-Kept : Kept p ReservationExtends rows freed
    freed-Kept =
        if-Kept c.release_usage p rows (settle_usage released i rows) rows
          (settle_usage-Kept released i rows j)
          (Kept-refl ReservationExtends ReservationExtends-refl p rows)

-- A change of the effect passed the unique index.
changed-IsFresh :
    (s : Store) (i : ℕ) (row : IntentRow)
    → find_intent s i ≡ some row
    → (state : IntentState) (c : Change)
    → is_effect_taken s row (or_old c.effect_id row.effect_id) ≡ false
    → IsFresh s.intents i (changed row state c)
changed-IsFresh s i row found state c free = by_effect (or_old c.effect_id row.effect_id) refl free
  where
    none_some : (d : ℕ) → none ≡ some d → ⊥
    none_some d k = cc

    by_effect :
        (o : Option ℕ)
        → or_old c.effect_id row.effect_id ≡ o
        → is_effect_taken s row o ≡ false
        → IsFresh s.intents i (changed row state c)
    by_effect none e k = λ j d q hq venue has eq. absurd (none_some d (sym e ∙ has))
    by_effect (some d) e k = checked-IsFresh i s.intents row (changed row state c) d found k refl e

pub transition-Advances :
    (s : Store) (i : ℕ) (expected : List IntentState) (state : IntentState) (c : Change)
    → Ensures (λ _ t. Advances s t) (transition s i expected state c)
unfolding transition
transition-Advances s i expected state c =
    Ensures-require (λ _. Advances s) (not (c.release_usage && c.commit_usage)) value_error _
      λ _.
        Ensures-or_raise (λ _. Advances s) (find_intent s i) key_error _
          λ row found.
            Ensures-if (λ _. Advances s) (not (is_expected row.state expected)) _ _
              (λ _. Advances-refl s)
              λ _.
                Ensures-if (λ _. Advances s) (not (is_allowed row.state state)) _ _ (λ _. tt)
                  λ fits.
                    Ensures-if (λ _. Advances s)
                      (is_effect_taken s row (or_old c.effect_id row.effect_id)) _ _ (λ _. tt)
                      λ free. record {
                        grants = (Advances-refl s).grants;
                        permits = (Advances-refl s).permits;
                        intents =
                            updated_intent s i row found (λ r. changed r state c) (λ _. refl)
                              (changed-Extends row state c (
                                is_allowed-is_terminal row.state state
                                  (not-false (is_allowed row.state state) fits)));
                        owners =
                            Owners-update i (λ r. changed r state c) s.intents (λ _. refl)
                              (λ x hx.
                                subst (λ y. IsFresh s.intents i (changed y state c))
                                  (some_inj (sym found ∙ hx))
                                  (changed-IsFresh s i row found state c free));
                        ledger =
                            IsLedgered-update i (λ r. changed r state c) s.intents
                              s.submission_attempts (λ _. refl) (λ _. refl);
                        reservations = changed_usage-Kept c i s.usage_reservations;
                      }

taken-Extends : (r : Reservation) → ReservationExtends r (record r { submitted = true })
taken-Extends r = ground arith

module _ (s : Store) (i : ℕ) (row : IntentRow) (found : find_intent s i ≡ some row) where
  submit-Advances :
      (r : Reservation) (now : ℕ) → Ensures (λ _ t. Advances s t) (submit s row r i now)
  submit-Advances r now =
      Ensures-if (λ _. Advances s) (is_bad_snapshot r) _ _ (λ _. tt)
        λ _.
          Ensures-if (λ _. Advances s) (is_velocity_spent s r i now) _ _ (λ _. Advances-refl s)
            λ _.
              Ensures-if (λ _. Advances s) (not (is_allowed row.state submitted)) _ _ (λ _. tt)
                λ fits. record {
                  grants = (Advances-refl s).grants;
                  permits = (Advances-refl s).permits;
                  intents =
                      updated_intent s i row found (resubmitted (row.submission_count + 1))
                        (λ _. refl)
                        (resubmitted-Extends row (row.submission_count + 1)
                          (is_allowed-is_terminal row.state submitted
                            (not-false (is_allowed row.state submitted) fits))
                          (omega arith));
                  owners = λ own.
                      Owners-update i (resubmitted (row.submission_count + 1)) s.intents (λ _. refl)
                        (λ x hx.
                          Owners-IsFresh i s.intents x (resubmitted (row.submission_count + 1) x)
                            own hx refl refl)
                        own;
                  ledger =
                      IsLedgered-start i (resubmitted (row.submission_count + 1)) s.intents
                        s.submission_attempts (new_attempt r i (row.submission_count + 1) now) row
                        found refl (λ _. refl) refl;
                  reservations = λ j.
                      Kept-update ReservationExtends ReservationExtends-refl (at_reservation j)
                        (at_reservation i) (λ r. record r { submitted = true }) s.usage_reservations
                        (λ _. refl) (λ x _ _. taken-Extends x);
                }

  submit_reserved-Advances :
      (now : ℕ) (o : Option Reservation)
      → Ensures (λ _ t. Advances s t) (submit_reserved s row i now o)
  submit_reserved-Advances now none = tt
  submit_reserved-Advances now (some r) = submit-Advances r (now / microseconds)

pub begin_submission-Advances :
    (s : Store) (i : ℕ) (expected : List IntentState) (max_attempts now : ℕ)
    → Ensures (λ _ t. Advances s t) (begin_submission s i expected max_attempts now)
unfolding begin_submission
begin_submission-Advances s i expected max_attempts now =
    Ensures-or_raise (λ _. Advances s) (find_intent s i) key_error _
      λ row found.
        Ensures-if (λ _. Advances s) (not (is_expected row.state expected)) _ _
          (λ _. Advances-refl s)
          λ _.
            Ensures-if (λ _. Advances s) (leb max_attempts row.submission_count) _ _
              (λ _. Advances-refl s)
              λ _.
                submit_reserved-Advances s i row found now
                  (find (at_reservation i) s.usage_reservations)
