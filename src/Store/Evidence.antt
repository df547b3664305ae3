-- ===== src/Store/Evidence.antt =====
-- The evidence chain: _append_evidence_in_txn with its head commitment, add_evidence,
-- _verify_chain_rows and evidence_status. Hashing and MACs are Python's: a parameter.
use faar_runtime.Common.{
  ℕ, ◌+◌, Bool, true, false, not, ◌&&◌, ◌||◌, Option, none, some, List, [], ◌∷◌, ◌++◌, leb, ◌==◌,
  is_none, if◌then◌else◌,
}
use faar_runtime.Common.Result.{ok, ◌>>=◌, ◌>>◌, require, or_raise}
use faar_runtime.Table.{find, exists, update, select}
use faar_runtime.Store.Schema.{
  Event, Head, IntentRow, Store, key_error, evidence_integrity, evidence_too_large,
}
use faar_runtime.Store.Access.{Tx}

-- What the hash of an event covers.
pub record Envelope : Type 0 where
  pub intent_id : ℕ
  pub event_type : ℕ
  pub payload : ℕ
  pub created_at : ℕ
  pub prev_hash : Option ℕ

-- sha256 of the envelope's canonical JSON, and HMAC-SHA256 under the evidence key; `is_keyed` says
-- whether the store was opened with a key.
pub record Crypto : Type 0 where
  pub is_keyed : Bool
  pub digest : Envelope → ℕ
  pub event_mac : ℕ → ℕ
  pub head_mac : ℕ → ℕ → ℕ → ℕ

-- MAX_EVIDENCE_ROW_CHARS
abbrev pub max_evidence_row_chars : ℕ
max_evidence_row_chars = 262144

abbrev pub of_intent : ℕ → Event → Bool
of_intent i e = e.intent_id == i

-- _evidence_rows_locked
unfoldable pub evidence_rows : Store → ℕ → List Event
evidence_rows s i = select (of_intent i) s.evidence

abbrev pub length {ℓ} : {A : Type ℓ} → List A → ℕ
length [] = 0
length (_ ∷ xs) = length xs + 1

-- event_hash of the last row, or the given one
unfoldable pub tail_hash : Option ℕ → List Event → Option ℕ
tail_hash h [] = h
tail_hash h (e ∷ es) = tail_hash (some e.event_hash) es

abbrev pub at_head : ℕ → Head → Bool
at_head i h = h.intent_id == i

abbrev pub find_head : Store → ℕ → Option Head
find_head s i = find (at_head i) s.evidence_head

abbrev pub same_option : Option ℕ → Option ℕ → Bool
same_option none none = true
same_option (some a) (some b) = a == b
same_option _ _ = false

-- The row of the head commits to this length and this hash.
abbrev pub commits : Crypto → ℕ → Head → ℕ → Option ℕ → Bool
commits c i h count last =
    h.seq + 1 == count
    && (same_option (some h.head_hash) last
        && same_option h.head_mac (some (c.head_mac i h.seq h.head_hash)))

-- _check_head_matches_tail
unfoldable pub is_head_matching : Crypto → Store → ℕ → ℕ → Option ℕ → Bool
is_head_matching c s i count last = not c.is_keyed || elim (find_head s i) [
  | none ↦ count == 0
  | some h ↦ not (count == 0) && commits c i h count last
]

abbrev pub envelope_of : Event → Envelope
envelope_of e = record {
  intent_id = e.intent_id;
  event_type = e.event_type;
  payload = e.payload;
  created_at = e.created_at;
  prev_hash = e.prev_hash;
}

-- HMAC under the key, or None without one
abbrev pub keyed : Crypto → ℕ → Option ℕ
keyed c m = if c.is_keyed then some m else none

-- What an event says.
pub record Content : Type 0 where
  pub event_type : ℕ
  pub payload : ℕ
  pub size : ℕ
  pub created_at : ℕ

abbrev pub new_event : Crypto → ℕ → ℕ → ℕ → Content → Option ℕ → Event
new_event c id i principal x prev =
    let hash = c.digest (record {
      intent_id = i;
      event_type = x.event_type;
      payload = x.payload;
      created_at = x.created_at;
      prev_hash = prev;
    }) in
    record {
      id = id;
      intent_id = i;
      principal_id = principal;
      event_type = x.event_type;
      payload = x.payload;
      created_at = x.created_at;
      prev_hash = prev;
      event_hash = hash;
      event_mac = keyed c (c.event_mac hash);
    }

abbrev pub new_head : Crypto → ℕ → ℕ → ℕ → Head
new_head c i seq hash = record {
  intent_id = i;
  seq = seq;
  head_hash = hash;
  head_mac = keyed c (c.head_mac i seq hash);
}

-- INSERT … ON CONFLICT(intent_id) DO UPDATE
abbrev pub put_head : Head → List Head → List Head
put_head h rows =
    if exists (at_head h.intent_id) rows
    then update (at_head h.intent_id) (λ _. h) rows
    else rows ++ h ∷ []

abbrev pub chain_length : Store → ℕ → ℕ
chain_length s i = length (evidence_rows s i)

abbrev pub chain_tail : Store → ℕ → Option ℕ
chain_tail s i = tail_hash none (evidence_rows s i)

-- The event that extends the chain of an intent.
abbrev pub next_event : Crypto → Store → ℕ → ℕ → Content → Event
next_event c s i principal x = new_event c (length s.evidence + 1) i principal x (chain_tail s i)

-- INSERT INTO evidence, and the head that commits to the new row
abbrev pub appended : Crypto → Store → ℕ → Event → Store
appended c s i e = record s {
  db = record s.db {
    evidence = s.evidence ++ e ∷ [];
    evidence_head = put_head (new_head c i (chain_length s i) e.event_hash) s.evidence_head;
  };
}

-- _append_evidence_in_txn, with the hash of the new event
unfoldable pub append_evidence : Crypto → Store → ℕ → ℕ → Content → Tx ℕ
unfolding evidence_rows tail_hash is_head_matching
append_evidence c s i principal x = do
  require (is_head_matching c s i (chain_length s i) (chain_tail s i)) evidence_integrity
  require (leb x.size max_evidence_row_chars) evidence_too_large
  let e = next_event c s i principal x
  ok (e.event_hash, appended c s i e)

unfoldable pub add_evidence : Crypto → Store → ℕ → Content → Tx ℕ
unfolding append_evidence
add_evidence c s i x = do
  row ← or_raise (find (λ (r : IntentRow). r.intent_id == i) s.intents) key_error
  append_evidence c s i row.principal_id x

-- The checks of one row of the chain against the hash of the row before it.
abbrev pub is_event_valid : Crypto → ℕ → Option ℕ → Event → Bool
is_event_valid c i prev e =
    same_option e.prev_hash prev
    && (c.digest (record {
      intent_id = i;
      event_type = e.event_type;
      payload = e.payload;
      created_at = e.created_at;
      prev_hash = e.prev_hash;
    })
          == e.event_hash
        && (not c.is_keyed || same_option e.event_mac (some (c.event_mac e.event_hash))))

-- _verify_chain_rows: whether all rows verify, how many do, and the hash of the last that does
unfoldable pub verify_chain_rows : Crypto → ℕ → Option ℕ → ℕ → List Event → Bool × ℕ × Option ℕ
verify_chain_rows c i prev count [] = (true, count, prev)
verify_chain_rows c i prev count (e ∷ es) =
    let rest = verify_chain_rows c i (some e.event_hash) (count + 1) es in
    if is_event_valid c i prev e then rest else (false, count, prev)

pub data EvidenceStatus : Type 0 where
  valid unknown_intent chain_invalid chain_empty head_deleted head_missing head_mismatch :
      EvidenceStatus

-- _born_with_head
abbrev pub is_born_with_head : Store → List Event → Bool
is_born_with_head s [] = false
is_born_with_head s (e ∷ es) = leb s.heads_since e.id

-- The check of the head, of a keyed store.
abbrev pub head_status : Crypto → Store → ℕ → List Event → ℕ → Option ℕ → EvidenceStatus
head_status c s i rows count last = elim (find_head s i) [
  | none ↦
      if count == 0
      then chain_empty
      else if is_born_with_head s rows
      then head_deleted
      else head_missing
  | some h ↦ if not (count == 0) && commits c i h count last then valid else head_mismatch
]

unfoldable pub evidence_status : Crypto → Store → ℕ → EvidenceStatus
unfolding evidence_rows verify_chain_rows
evidence_status c s i =
    let rows = evidence_rows s i in
    let (chained, count, last) = verify_chain_rows c i none 0 rows in
    if is_none (find (λ (r : IntentRow). r.intent_id == i) s.intents)
    then unknown_intent
    else if not chained
    then chain_invalid
    else if c.is_keyed
    then head_status c s i rows count last
    else valid
