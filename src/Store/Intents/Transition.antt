-- ===== src/Store/Intents/Transition.antt =====
-- A transition that succeeds, row by row: compare-and-set, with the reservation in the same
-- transaction.
use faar_runtime.Common.{
  not-false, ℕ, ◌≡◌, refl, ◌∙◌, ap, Bool, true, false, not, ◌&&◌, Option, none, some, List, ◌==◌,
  ==_iff, Bool-cases, inl, inr, if◌then◌else◌,
}
use faar_runtime.Common.Result.{ok}
use faar_runtime.Table.{find, update}
use faar_runtime.Table.Find.{find-update, find_holds, find-update_hit, touched}
use faar_runtime.Models.Enums.{IntentState}
use faar_runtime.Store.Schema.{
  IntentRow, Reservation, released, committed, Store, key_error, value_error,
}
use faar_runtime.Store.Usage.{at_reservation, is_held, settle_usage}
use faar_runtime.Store.Lifecycle.{
  at_intent, find_intent, is_allowed, is_expected, Change, changed, or_old, is_effect_taken,
  transition,
}
use faar_runtime.Store.Ensures.{Ensures, Ensures-ok, Ensures-require, Ensures-or_raise, Ensures-if}

-- What becomes of a reservation: that of the intent is settled if it was held.
abbrev settled_by : (release commit : Bool) → ℕ → Reservation → Reservation
settled_by release commit i r =
    if r.intent_id == i && is_held r.status
    then (if release
        then record r { status = released }
        else if commit
        then record r { status = committed }
        else r)
    else r

abbrev pub settled : Change → ℕ → Reservation → Reservation
settled c i r = settled_by c.release_usage c.commit_usage i r

abbrev pub option_map {ℓ κ} : {A : Type ℓ} {B : Type κ} → (A → B) → Option A → Option B
option_map f none = none
option_map f (some x) = some (f x)

-- What a transition found, and what it wrote.
pub record IsTransitioned (s : Store) (i : ℕ) (expected : List IntentState) (state : IntentState)
    (c : Change) (t : Store) : Type 0 where
  pub row : IntentRow
  pub found : find_intent s i ≡ some row
  pub was_expected : is_expected row.state expected ≡ true
  pub allowed : is_allowed row.state state ≡ true
  pub free : is_effect_taken s row (or_old c.effect_id row.effect_id) ≡ false
  pub intents :
      (j : ℕ) → find_intent t j ≡ (if j == i then some (changed row state c) else find_intent s j)
  pub usage :
      (j : ℕ)
      → find (at_reservation j) t.usage_reservations
        ≡ option_map (settled c i) (find (at_reservation j) s.usage_reservations)
  pub grants : t.grants ≡ s.grants
  pub permits : t.execution_permits ≡ s.execution_permits
  pub anchor : t.anchor ≡ s.anchor

-- The same on the table, from the flags.
abbrev usage_by : (release commit : Bool) → ℕ → List Reservation → List Reservation
usage_by release commit i rows =
    let freed = if release then settle_usage released i rows else rows in
    if commit then settle_usage committed i freed else freed

usage_by-find :
    (a b : Bool) (i : ℕ) (rows : List Reservation) (j : ℕ)
    → not (a && b) ≡ true
    → find (at_reservation j) (usage_by a b i rows)
      ≡ option_map (settled_by a b i) (find (at_reservation j) rows)
usage_by-find true true i rows j h = cc
usage_by-find true false i rows j h =
    find-update (at_reservation j) (λ r. at_reservation i r && is_held r.status)
      (λ r. record r { status = released }) rows (λ _. refl)
    ∙ same (find (at_reservation j) rows)
  where
    same :
        (o : Option Reservation)
        → touched
            (λ r. at_reservation i r && is_held r.status)
            (λ r. record r { status = released })
            o
          ≡ option_map (settled_by true false i) o
    same none = refl
    same (some r) = refl
usage_by-find false true i rows j h =
    find-update (at_reservation j) (λ r. at_reservation i r && is_held r.status)
      (λ r. record r { status = committed }) rows (λ _. refl)
    ∙ same (find (at_reservation j) rows)
  where
    same :
        (o : Option Reservation)
        → touched
            (λ r. at_reservation i r && is_held r.status)
            (λ r. record r { status = committed })
            o
          ≡ option_map (settled_by false true i) o
    same none = refl
    same (some r) = refl
usage_by-find false false i rows j h = same (find (at_reservation j) rows)
  where
    same : (o : Option Reservation) → o ≡ option_map (settled_by false false i) o
    same none = refl
    same (some r) = ap some (if_same (r.intent_id == i && is_held r.status))
      where
        if_same : (b : Bool) → r ≡ (if b then r else r)
        if_same true = refl
        if_same false = refl

-- The intents after the UPDATE of one of them.
pub intent-find :
    (i : ℕ) (f : IntentRow → IntentRow) (rows : List IntentRow) (row : IntentRow)
    → find (at_intent i) rows ≡ some row
    → ((x : IntentRow) → (f x).intent_id ≡ x.intent_id)
    → (j : ℕ)
    → find (at_intent j) (update (at_intent i) f rows)
      ≡ (if j == i then some (f row) else find (at_intent j) rows)
intent-find i f rows row found same_id j = elim (Bool-cases (j == i)) [
  | inl same ↦
      rw (same, (==_iff j i).0 same)
        (find-update_hit (at_intent i) (at_intent i) f rows (λ x. rw (same_id x)) found
          (find_holds (at_intent i) rows found))
  | inr differs ↦ rw differs (
      find-update (at_intent j) (at_intent i) f rows (λ x. rw (same_id x))
      ∙ kept differs (find (at_intent j) rows) refl)
]
  where
    missed :
        (x : IntentRow)
        → (j == i) ≡ false
        → at_intent j x ≡ true
        → (if at_intent i x then f x else x) ≡ x
    missed x differs h = rw ((==_iff x.intent_id j).0 h, differs) refl

    kept :
        (j == i) ≡ false
        → (o : Option IntentRow) → find (at_intent j) rows ≡ o
        → touched (at_intent i) f o ≡ o
    kept differs none e = refl
    kept differs (some x) e = ap some (missed x differs (find_holds (at_intent j) rows e))

abbrev IfTransitioned : Store → ℕ → List IntentState → IntentState → Change → Bool → Store → Type 0
IfTransitioned s i expected state c true t = IsTransitioned s i expected state c t
IfTransitioned s i expected state c false t = t ≡ s

transition-IsTransitioned :
    (s : Store) (i : ℕ) (expected : List IntentState) (state : IntentState) (c : Change)
    → Ensures (IfTransitioned s i expected state c) (transition s i expected state c)
unfolding transition
transition-IsTransitioned s i expected state c =
    Ensures-require (IfTransitioned s i expected state c) (not (c.release_usage && c.commit_usage))
      value_error _
      λ one.
        Ensures-or_raise (IfTransitioned s i expected state c) (find_intent s i) key_error _
          λ row found.
            Ensures-if (IfTransitioned s i expected state c) (not (is_expected row.state expected))
              _ _ (λ _. refl)
              λ was_expected.
                Ensures-if (IfTransitioned s i expected state c) (not (is_allowed row.state state))
                  _ _ (λ _. tt)
                  λ allowed.
                    Ensures-if (IfTransitioned s i expected state c)
                      (is_effect_taken s row (or_old c.effect_id row.effect_id)) _ _ (λ _. tt)
                      λ free. record {
                        row = row;
                        found = found;
                        was_expected = not-false (is_expected row.state expected) was_expected;
                        allowed = not-false (is_allowed row.state state) allowed;
                        free = free;
                        intents =
                            intent-find i (λ r. changed r state c) s.intents row found (λ _. refl);
                        usage = λ j.
                            usage_by-find c.release_usage c.commit_usage i s.usage_reservations j
                              one;
                        grants = refl;
                        permits = refl;
                        anchor = refl;
                      }

-- A transition that reports success found the intent in an expected state from which the new state
-- is allowed, with an effect that no other intent of the venue owns; afterwards the intent has the
-- new state, effect and filled amount and every other intent is as before, the intent's held
-- reservation and no other is released or committed as the call asks, and grants, permits and
-- anchor are untouched.
pub transition_succeeds :
    (s t : Store) (i : ℕ) (expected : List IntentState) (state : IntentState) (c : Change)
    → transition s i expected state c ≡ ok (true, t)
    → IsTransitioned s i expected state c t
transition_succeeds s t i expected state c h =
    Ensures-ok (IfTransitioned s i expected state c) _ true t
      (transition-IsTransitioned s i expected state c) h

-- A transition that finds another state than the expected reports so and changes nothing.
pub transition_misses :
    (s t : Store) (i : ℕ) (expected : List IntentState) (state : IntentState) (c : Change)
    → transition s i expected state c ≡ ok (false, t)
    → t ≡ s
transition_misses s t i expected state c h =
    Ensures-ok (IfTransitioned s i expected state c) _ false t
      (transition-IsTransitioned s i expected state c) h
