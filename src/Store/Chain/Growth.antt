-- ===== src/Store/Chain/Growth.antt =====
-- An append extends the chain of its intent and keeps it valid; it touches no other chain.
use mathlib.Core.Path.{ap₂}
use faar_runtime.Common.{
  ℕ, ◌+◌, ◌≡◌, refl, sym, ◌∙◌, ap, subst, Bool, true, false, not, ◌&&◌, ◌||◌, Option, none, some,
  List, [], ◌∷◌, ◌++◌, arith, ◌==◌, is_none, leb, if◌then◌else◌, eq_refl,
}
use faar_runtime.Common.Result.{ok, ◌>>◌, require}
use faar_runtime.Table.{find}
use faar_runtime.Store.Schema.{
  Event, Head, IntentRow, Store, key_error, evidence_integrity, evidence_too_large,
}
use faar_runtime.Store.Access.{Tx}
use faar_runtime.Store.Ensures.{Ensures, Ensures-ok, Ensures-require, Ensures-or_raise}
use faar_runtime.Store.Evidence.{
  Crypto, Content, of_intent, evidence_rows, verify_chain_rows, tail_hash, find_head, commits,
  same_option, length, is_head_matching, chain_length, chain_tail, next_event, new_head, appended,
  append_evidence, add_evidence, is_event_valid, evidence_status, head_status,
  max_evidence_row_chars, is_born_with_head, EvidenceStatus, valid, unknown_intent, chain_invalid,
  chain_empty, head_deleted, head_missing, head_mismatch,
}
use faar_runtime.Store.Chain.Rows.{same_option_refl, verified-counts, verify-append}
use faar_runtime.Store.Chain.Heads.{select-append, put_head-find, put_head-find_other}

module _ (c : Crypto) (s : Store) (i p : ℕ) (x : Content) where
  abbrev e : Event
  e = next_event c s i p x

  -- The rows of the intent, and those of another.
  rows_same : evidence_rows (appended c s i e) i ≡ evidence_rows s i ++ e ∷ []
  unfolding evidence_rows
  rows_same = select-append (of_intent i) s.evidence e ∙ (rw (eq_refl i) refl)

  rows_other : (j : ℕ) → (i == j) ≡ false → evidence_rows (appended c s i e) j ≡ evidence_rows s j
  unfolding evidence_rows
  rows_other j h = select-append (of_intent j) s.evidence e ∙ (rw h (plus_nil _))
    where
      plus_nil : {A : Type 0} (xs : List A) → xs ++ [] ≡ xs
      plus_nil [] = refl
      plus_nil (y ∷ ys) = ap (λ zs. y ∷ zs) (plus_nil ys)

  head_same : find_head (appended c s i e) i ≡ some (new_head c i (chain_length s i) e.event_hash)
  head_same = put_head-find (new_head c i (chain_length s i) e.event_hash) s.evidence_head

  head_other : (j : ℕ) → (i == j) ≡ false → find_head (appended c s i e) j ≡ find_head s j
  head_other j h =
      put_head-find_other (new_head c i (chain_length s i) e.event_hash) s.evidence_head j h

  -- The new row passes the checks that it was written for.
  new_event-valid : is_event_valid c i (chain_tail s i) e ≡ true
  new_event-valid = passes c.is_keyed c.event_mac
    where
      passes :
          (b : Bool) (mac : ℕ → ℕ)
          → (same_option (chain_tail s i) (chain_tail s i)
              && (e.event_hash == e.event_hash
                  && (not b
                      || same_option
                          (if b then some (mac e.event_hash) else none)
                          (some (mac e.event_hash)))))
            ≡ true
      passes true mac =
          rw (same_option_refl (chain_tail s i), eq_refl e.event_hash, eq_refl (mac e.event_hash))
            refl
      passes false mac = rw (same_option_refl (chain_tail s i), eq_refl e.event_hash) refl

length-append : {A : Type 0} (xs : List A) (y : A) → length (xs ++ y ∷ []) ≡ length xs + 1
length-append [] y = refl
length-append (x ∷ xs) y = ap (λ n. n + 1) (length-append xs y)

tail_hash-append :
    (o : Option ℕ) (es : List Event) (e : Event) → tail_hash o (es ++ e ∷ []) ≡ some e.event_hash
unfolding tail_hash
tail_hash-append o [] e = refl
tail_hash-append o (f ∷ es) e = tail_hash-append (some f.event_hash) es e

status_valid :
    (gone chained keyed_store : Bool) (x : EvidenceStatus)
    → gone ≡ false
    → chained ≡ true
    → (keyed_store ≡ true → x ≡ valid)
    → (if gone
        then unknown_intent
        else if not chained
        then chain_invalid
        else if keyed_store
        then x
        else valid)
      ≡ valid
status_valid gone chained true x g h k = rw (g, h, k refl) refl
status_valid gone chained false x g h k = rw (g, h) refl

module _ (c : Crypto) (s : Store) (i p : ℕ) (x : Content) where
  abbrev written : Event
  written = next_event c s i p x

  abbrev extended : Store
  extended = appended c s i written

  -- The new head commits to the chain with the new row.
  head_valid :
      (rows : List Event)
      → c.is_keyed ≡ true
      → head_status c extended i rows (chain_length s i + 1) (some written.event_hash) ≡ valid
  head_valid rows k = by_head (find_head extended i) (head_same c s i p x)
    where
      fits :
          (n hash mac : ℕ) (b : Bool)
          → b ≡ true
          → (if not (n + 1 == 0)
                && (n + 1 == n + 1
                    && (hash == hash && same_option (if b then some mac else none) (some mac)))
              then valid
              else head_mismatch)
            ≡ valid
      fits n hash mac true h = rw (eq_refl (n + 1), eq_refl hash, eq_refl mac) (positive n)
        where
          positive : (n : ℕ) → (if not (n + 1 == 0) && true then valid else head_mismatch) ≡ valid
          positive n = ground arith
      fits n hash mac false h = cc

      by_head :
          (o : Option Head)
          → o ≡ some (new_head c i (chain_length s i) written.event_hash)
          → (elim o [
            | none ↦
                if chain_length s i + 1 == 0
                then chain_empty
                else if is_born_with_head extended rows
                then head_deleted
                else head_missing
            | some h ↦
                if not (chain_length s i + 1 == 0)
                  && commits c i h (chain_length s i + 1) (some written.event_hash)
                then valid
                else head_mismatch
          ])
            ≡ valid
      by_head o e = rw e (
          fits (chain_length s i) written.event_hash
            (c.head_mac i (chain_length s i) written.event_hash) c.is_keyed k)

  appended-valid :
      is_none (find (λ (r : IntentRow). r.intent_id == i) s.intents) ≡ false
      → (verify_chain_rows c i none 0 (evidence_rows s i)).0 ≡ true
      → evidence_status c extended i ≡ valid
  unfolding evidence_status
  appended-valid registered chained = status_valid _ _ c.is_keyed _ registered verified (λ k.
      subst (λ (r : Bool × ℕ × Option ℕ). head_status c extended i rows r.1 r.2 ≡ valid)
        (sym counts) (head_valid rows k))
    where
      zero_plus : (n : ℕ) → 0 + n ≡ n
      zero_plus n = omega arith

      rows : List Event
      rows = evidence_rows extended i

      verified : (verify_chain_rows c i none 0 rows).0 ≡ true
      verified =
          subst (λ es. (verify_chain_rows c i none 0 es).0 ≡ true) (sym (rows_same c s i p x))
            (verify-append c i none 0 (evidence_rows s i) written chained
              (new_event-valid c s i p x))

      counts :
          verify_chain_rows c i none 0 rows ≡ (true, chain_length s i + 1, some written.event_hash)
      counts =
          verified-counts c i none 0 rows verified
          ∙ ap₂ (λ n o. (true, n, o))
              (zero_plus (length rows)
                ∙ ap length (rows_same c s i p x)
                ∙ length-append (evidence_rows s i) written)
              (ap (tail_hash none) (rows_same c s i p x)
                ∙ tail_hash-append none (evidence_rows s i) written)

-- What an append wrote.
pub record IsGrown (c : Crypto) (s : Store) (i hash : ℕ) (t : Store) : Type 0 where
  pub status : evidence_status c t i ≡ valid
  pub event : Event
  pub own_hash : event.event_hash ≡ hash
  pub rows : evidence_rows t i ≡ evidence_rows s i ++ event ∷ []
  pub other_rows : (j : ℕ) → (i == j) ≡ false → evidence_rows t j ≡ evidence_rows s j
  pub other_heads : (j : ℕ) → (i == j) ≡ false → find_head t j ≡ find_head s j
  pub intents : t.intents ≡ s.intents

grown :
    (c : Crypto) (s : Store) (i : ℕ) (x : Content)
    → (verify_chain_rows c i none 0 (evidence_rows s i)).0 ≡ true
    → Ensures (IsGrown c s i) (add_evidence c s i x)
unfolding add_evidence append_evidence
grown c s i x chained =
    Ensures-or_raise (IsGrown c s i) (find (λ (r : IntentRow). r.intent_id == i) s.intents)
      key_error _
      λ row found.
        Ensures-require (IsGrown c s i) (is_head_matching c s i (chain_length s i) (chain_tail s i))
          evidence_integrity
          (require (leb x.size max_evidence_row_chars) evidence_too_large >> done_ row)
          λ _.
            Ensures-require (IsGrown c s i) (leb x.size max_evidence_row_chars) evidence_too_large
              (done_ row)
              λ _. record {
                status = appended-valid c s i row.principal_id x (rw found refl) chained;
                event = next_event c s i row.principal_id x;
                own_hash = refl;
                rows = rows_same c s i row.principal_id x;
                other_rows = rows_other c s i row.principal_id x;
                other_heads = head_other c s i row.principal_id x;
                intents = refl;
              }
  where
    done_ : IntentRow → Tx ℕ
    done_ row =
        let event = next_event c s i row.principal_id x in
        ok (event.event_hash, appended c s i event)

-- An event that is added to a chain whose rows verify leaves the evidence of its intent valid, under
-- a key as without one: the chain is extended by one event, whose hash is the result, its head
-- commits to it, and the rows and the head of every other intent are as before.
pub append_keeps_valid :
    (c : Crypto) (s t : Store) (i hash : ℕ) (x : Content)
    → (verify_chain_rows c i none 0 (evidence_rows s i)).0 ≡ true
    → add_evidence c s i x ≡ ok (hash, t)
    → IsGrown c s i hash t
append_keeps_valid c s t i hash x chained h =
    Ensures-ok (IsGrown c s i) _ hash t (grown c s i x chained) h

keeps_intents :
    (c : Crypto) (s : Store) (i : ℕ) (x : Content)
    → Ensures (λ a t. t.intents ≡ s.intents) (add_evidence c s i x)
unfolding add_evidence append_evidence
keeps_intents c s i x =
    Ensures-or_raise Q (find (λ (r : IntentRow). r.intent_id == i) s.intents) key_error _
      λ row found.
        Ensures-require Q (is_head_matching c s i (chain_length s i) (chain_tail s i))
          evidence_integrity
          (require (leb x.size max_evidence_row_chars) evidence_too_large >> written row)
          λ _.
            Ensures-require Q (leb x.size max_evidence_row_chars) evidence_too_large (written row)
              (λ _. refl)
  where
    Q : ℕ → Store → Type 0
    Q a t = t.intents ≡ s.intents

    written : IntentRow → Tx ℕ
    written row =
        let event = next_event c s i row.principal_id x in
        ok (event.event_hash, appended c s i event)

-- An event that is added keeps the table of intents, also on a chain that does not verify.
pub add_evidence-keeps :
    (c : Crypto) (s t : Store) (i hash : ℕ) (x : Content)
    → add_evidence c s i x ≡ ok (hash, t)
    → t.intents ≡ s.intents
add_evidence-keeps c s t i hash x h =
    Ensures-ok (λ a u. u.intents ≡ s.intents) _ hash t (keeps_intents c s i x) h
