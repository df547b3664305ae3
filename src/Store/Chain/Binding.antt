-- ===== src/Store/Chain/Binding.antt =====
-- What the signed head commits to: the number of the rows, and under a hash without collisions their
-- contents.
use mathlib.Core.Path.{ap₂}
use faar_runtime.Common.{
  ℕ, ◌+◌, ◌≡◌, refl, sym, ◌∙◌, ap, subst, Bool, true, false, not, ◌&&◌, Option, none, some, List,
  [], ◌∷◌, arith, some_inj, ◌==◌, ==_iff, is_none, if◌then◌else◌, map,
}
use faar_runtime.Table.{find, All}
use faar_runtime.Store.Schema.{Event, Head, IntentRow, Store}
use faar_runtime.Store.Evidence.{
  Crypto, Envelope, evidence_rows, verify_chain_rows, tail_hash, commits, same_option, length,
  find_head, evidence_status, head_status, is_born_with_head, EvidenceStatus, valid, unknown_intent,
  chain_invalid, chain_empty, head_deleted, head_missing, head_mismatch,
}
use faar_runtime.Store.Chain.Rows.{
  hashed, IsChain, same_option_sound, verified-IsChain, verified-counts,
}

-- What a keyed store that reports `ok` has: a chain that its head commits to.
pub record IsCommitted (c : Crypto) (s : Store) (i : ℕ) : Type 0 where
  pub chained : IsChain c i none (evidence_rows s i)
  pub head : Head
  pub committed : find_head s i ≡ some head
  pub counts : head.seq + 1 ≡ length (evidence_rows s i)
  pub ends : tail_hash none (evidence_rows s i) ≡ some head.head_hash

status_ok :
    (gone chained keyed : Bool) (x : EvidenceStatus)
    → keyed ≡ true
    → (if gone
        then unknown_intent
        else if not chained
        then chain_invalid
        else if keyed
        then x
        else valid)
      ≡ valid
    → (chained ≡ true) × (x ≡ valid)
status_ok true chained keyed x k h = cc
status_ok false false keyed x k h = cc
status_ok false true true x k h = (refl, h)
status_ok false true false x k h = cc

commits_ok :
    (c : Crypto) (i : ℕ) (x : Head) (n : ℕ) (last : Option ℕ)
    → (if not (n == 0) && commits c i x n last then valid else head_mismatch) ≡ valid
    → (x.seq + 1 ≡ n) × (last ≡ some x.head_hash)
commits_ok c i x n last h =
    let (counts, rest) = both (not (n == 0)) (x.seq + 1 == n) _ h in
    (
      (==_iff (x.seq + 1) n).0 counts,
      sym (
          same_option_sound (some x.head_hash) last
            (first (same_option (some x.head_hash) last) _ rest)),
    )
  where
    both :
        (a b d : Bool)
        → (if a && (b && d) then valid else head_mismatch) ≡ valid
        → (b ≡ true) × (d ≡ true)
    both true true true h = (refl, refl)
    both true true false h = cc
    both true false d h = cc
    both false b d h = cc

    first : (a b : Bool) → (a && b) ≡ true → a ≡ true
    first a b h = ground arith

head_ok :
    (c : Crypto) (s : Store) (i : ℕ) (rows : List Event) (n : ℕ) (last : Option ℕ)
    → head_status c s i rows n last ≡ valid
    → (x : Head) × (find_head s i ≡ some x) × (x.seq + 1 ≡ n) × (last ≡ some x.head_hash)
head_ok c s i rows n last h = by_head (find_head s i) refl h
  where
    missing :
        (a b : Bool)
        → (if a then chain_empty else if b then head_deleted else head_missing) ≡ valid
        → ⊥
    missing true b h = cc
    missing false true h = cc
    missing false false h = cc

    by_head :
        (o : Option Head)
        → find_head s i ≡ o
        → (elim o [
          | none ↦
              if n == 0
              then chain_empty
              else if is_born_with_head s rows
              then head_deleted
              else head_missing
          | some x ↦ if not (n == 0) && commits c i x n last then valid else head_mismatch
        ])
          ≡ valid
        → (x : Head) × (find_head s i ≡ some x) × (x.seq + 1 ≡ n) × (last ≡ some x.head_hash)
    by_head none e k = absurd (missing (n == 0) (is_born_with_head s rows) k)
    by_head (some x) e k = let (counts, ends) = commits_ok c i x n last k in (x, e, counts, ends)

pub valid-IsCommitted :
    (c : Crypto) (s : Store) (i : ℕ)
    → c.is_keyed ≡ true
    → evidence_status c s i ≡ valid
    → IsCommitted c s i
unfolding evidence_status
valid-IsCommitted c s i keyed h =
    let rows = evidence_rows s i in
    let (chained, head_valid) =
      status_ok (is_none (find (λ (r : IntentRow). r.intent_id == i) s.intents))
        (verify_chain_rows c i none 0 rows).0 c.is_keyed
        (head_status c s i rows (verify_chain_rows c i none 0 rows).1
          (verify_chain_rows c i none 0 rows).2)
        keyed h in
    let (x, at_i, counts, ends) = head_ok c s i rows (length rows) (tail_hash none rows) (
      subst (λ (r : Bool × ℕ × Option ℕ). head_status c s i rows r.1 r.2 ≡ valid)
        (verified-counts c i none 0 rows chained
          ∙ ap (λ n. (true, n, tail_hash none rows)) (zero_plus (length rows)))
        head_valid) in
    record {
      chained = verified-IsChain c i none 0 rows chained;
      head = x;
      committed = at_i;
      counts = counts;
      ends = ends;
    }
  where
    zero_plus : (n : ℕ) → 0 + n ≡ n
    zero_plus n = omega arith

-- A keyed store does not report `ok` after events were removed from a chain or added to it behind
-- the head: any two stores with the same head of an intent that both report `ok` have the same number
-- of its events, and the same last hash.
pub head_commits_length :
    (c : Crypto) (s t : Store) (i : ℕ)
    → c.is_keyed ≡ true
    → find_head s i ≡ find_head t i
    → evidence_status c s i ≡ valid
    → evidence_status c t i ≡ valid
    → (length (evidence_rows s i) ≡ length (evidence_rows t i))
      × (tail_hash none (evidence_rows s i) ≡ tail_hash none (evidence_rows t i))
head_commits_length c s t i keyed same hs ht =
    let a = valid-IsCommitted c s i keyed hs in
    let b = valid-IsCommitted c t i keyed ht in
    let heads : a.head ≡ b.head = some_inj (sym a.committed ∙ same ∙ b.committed) in
    (
      sym a.counts ∙ ap (λ (x : Head). x.seq + 1) heads ∙ b.counts,
      a.ends ∙ ap (λ (x : Head). some x.head_hash) heads ∙ sym b.ends,
    )

-- No two of the envelopes that the chains hash have the same hash and differ.
abbrev pub IsCollisionFree : Crypto → ℕ → List Event → List Event → Type 0
IsCollisionFree c i es fs =
    All (λ e. All (λ f. c.digest (hashed i e) ≡ c.digest (hashed i f) → hashed i e ≡ hashed i f) fs)
      es

weaker :
    (c : Crypto) (i : ℕ) (f : Event) (es fs : List Event)
    → IsCollisionFree c i es (f ∷ fs)
    → IsCollisionFree c i es fs
weaker c i f [] fs h = tt
weaker c i f (e ∷ es) fs h = (h.0.1, weaker c i f es fs h.1)

chain_unique :
    (c : Crypto) (i : ℕ) (p q : Option ℕ) (es fs : List Event)
    → IsChain c i p es
    → IsChain c i q fs
    → length es ≡ length fs
    → tail_hash p es ≡ tail_hash q fs
    → IsCollisionFree c i es fs
    → (p ≡ q) × (map (hashed i) es ≡ map (hashed i) fs)
unfolding tail_hash
chain_unique c i p q [] [] a b n tails free = (tails, refl)
chain_unique c i p q [] (f ∷ fs) a b n tails free = absurd (not_zero (length fs) n)
  where
    not_zero : (n : ℕ) → 0 ≡ n + 1 → ⊥
    not_zero n h = omega arith
chain_unique c i p q (e ∷ es) [] a b n tails free = absurd (not_zero (length es) n)
  where
    not_zero : (n : ℕ) → n + 1 ≡ 0 → ⊥
    not_zero n h = omega arith
chain_unique c i p q (e ∷ es) (f ∷ fs) (ea, ha, a) (eb, hb, b) n tails free =
    let (hashes, rest) =
      chain_unique c i (some e.event_hash) (some f.event_hash) es fs a b
        (less (length es) (length fs) n) tails (weaker c i f es fs free.1) in
    let same : hashed i e ≡ hashed i f = free.0.0 (ha ∙ some_inj hashes ∙ sym hb) in
    (sym ea ∙ ap (λ (x : Envelope). x.prev_hash) same ∙ eb, ap₂ (λ x xs. x ∷ xs) same rest)
  where
    less : (m n : ℕ) → m + 1 ≡ n + 1 → m ≡ n
    less m n h = omega arith

-- The head of a keyed store commits to what the events say: any two stores with the same head of an
-- intent that both report `ok` have the same types, payloads, times and links of its events, in the
-- same order, unless two of their envelopes collide under the hash.
pub head_commits_contents :
    (c : Crypto) (s t : Store) (i : ℕ)
    → c.is_keyed ≡ true
    → find_head s i ≡ find_head t i
    → evidence_status c s i ≡ valid
    → evidence_status c t i ≡ valid
    → IsCollisionFree c i (evidence_rows s i) (evidence_rows t i)
    → map (hashed i) (evidence_rows s i) ≡ map (hashed i) (evidence_rows t i)
head_commits_contents c s t i keyed same hs ht free =
    let (n, tails) = head_commits_length c s t i keyed same hs ht in
    (chain_unique c i none none (evidence_rows s i) (evidence_rows t i)
      (valid-IsCommitted c s i keyed hs).chained (valid-IsCommitted c t i keyed ht).chained n tails
      free).1
