-- ===== src/Store/Progress/Registration.antt =====
-- The registration of an intent and the evidence develop the rows.
use faar_runtime.Common.{ℕ, ◌≡◌, refl, not, Option, none, some, [], ◌∷◌, ◌++◌, ◌==◌, leb}
use faar_runtime.Common.Result.{ok, err, ◌>>=◌, ◌>>◌, require}
use faar_runtime.Table.{find}
use faar_runtime.Table.Kept.{Kept-append}
use faar_runtime.Models.Grant.{Intent}
use faar_runtime.Store.Schema.{
  Event, IntentRow, Store, key_error, evidence_integrity, evidence_too_large,
}
use faar_runtime.Store.Access.{Tx}
use faar_runtime.Store.Evidence.{
  Crypto, Content, append_evidence, add_evidence, is_head_matching, chain_length, chain_tail,
  max_evidence_row_chars, next_event, appended,
}
use faar_runtime.Store.Lifecycle.{at_intent, find_intent, register, register_row, new_intent}
use faar_runtime.Store.Ensures.{Ensures, Ensures-require, Ensures-or_raise, Ensures-if}
use faar_runtime.Store.Progress.Owners.{Owners-append, IsLedgered-append}
use faar_runtime.Store.Progress.Rows.{IntentExtends, IntentExtends-refl, Advances, Advances-refl}

-- Appending evidence changes the two evidence tables only.
pub append_evidence-Advances :
    (c : Crypto) (s t : Store) (i p : ℕ) (x : Content)
    → Advances s t
    → Ensures (λ _ u. Advances s u) (append_evidence c t i p x)
unfolding append_evidence
append_evidence-Advances c s t i p x a =
    Ensures-require (λ _. Advances s) (is_head_matching c t i (chain_length t i) (chain_tail t i))
      evidence_integrity (require (leb x.size max_evidence_row_chars) evidence_too_large >> written)
      λ _.
        Ensures-require (λ _. Advances s) (leb x.size max_evidence_row_chars) evidence_too_large
          written
          λ _. record {
            grants = a.grants;
            permits = a.permits;
            intents = a.intents;
            reservations = a.reservations;
            owners = a.owners;
            ledger = a.ledger;
          }
  where
    e : Event
    e = next_event c t i p x

    written : Tx ℕ
    written = ok (e.event_hash, appended c t i e)

pub add_evidence-Advances :
    (c : Crypto) (s : Store) (i : ℕ) (x : Content)
    → Ensures (λ _ t. Advances s t) (add_evidence c s i x)
unfolding add_evidence
add_evidence-Advances c s i x =
    Ensures-or_raise (λ _. Advances s) (find (at_intent i) s.intents) key_error _
      λ row _. append_evidence-Advances c s s i row.principal_id x (Advances-refl s)

inserted-Advances :
    (s : Store) (row : IntentRow)
    → row.effect_id ≡ none
    → row.submission_count ≡ 0
    → Advances s (record s { db = record s.db { intents = s.intents ++ row ∷ [] } })
inserted-Advances s row unowned new = record {
  grants = (Advances-refl s).grants;
  permits = (Advances-refl s).permits;
  intents = λ j. Kept-append IntentExtends IntentExtends-refl (at_intent j) s.intents row;
  owners = Owners-append s.intents row unowned;
  ledger = IsLedgered-append s.intents s.submission_attempts row new;
  reservations = (Advances-refl s).reservations;
}

-- The result of a first step goes on into a second that changes no store.
returned :
    {A B : Type 0} (s : Store) (m : Tx A) (b : B)
    → Ensures (λ _ t. Advances s t) m
    → Ensures (λ _ t. Advances s t) (m >>= λ r. ok (b, r.1))
returned s (ok r) b h = h
returned s (err e) b h = tt

pub register-Advances :
    (c : Crypto) (s : Store) (i : Intent) (hash : ℕ) (x : Content)
    → Ensures (λ _ t. Advances s t) (register c s i hash x)
unfolding register
register-Advances c s i hash x = registered (find_intent s i.intent_id)
  where
    registered :
        (o : Option IntentRow) → Ensures (λ _ t. Advances s t) (register_row c s i hash x o)
    registered none = returned s _ (new_intent i hash) (
        append_evidence-Advances c s
          (record s { db = record s.db { intents = s.intents ++ new_intent i hash ∷ [] } })
          i.intent_id i.principal_id x (inserted-Advances s (new_intent i hash) refl refl))
    registered (some row) =
        Ensures-if (λ _. Advances s) (not (row.principal_id == i.principal_id)) _ _ (λ _. tt)
          λ _.
            Ensures-if (λ _. Advances s) (not (row.intent_hash == hash)) _ _ (λ _. tt)
              (λ _. Advances-refl s)
