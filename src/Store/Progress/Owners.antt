-- ===== src/Store/Progress/Owners.antt =====
-- Two invariants of the table of intents: an effect of a venue belongs to one intent, and the
-- attempts in the ledger are those that the rows count.
use faar_runtime.Common.{
  ℕ, ◌+◌, ◌≡◌, refl, sym, ◌∙◌, ap, subst, ◌⊎◌, inl, inr, Bool, true, false, Option, none, some,
  List, [], ◌∷◌, ◌++◌, arith, ◌==◌, ==_iff, Bool-cases, some_inj, if◌then◌else◌,
}
use faar_runtime.Table.{find, exists, update, count}
use faar_runtime.Table.Find.{
  find_holds, found-update, found-append, exists_found, find-update, touched, find-append, or_else,
}
use faar_runtime.Table.Sums.{count-append}
use faar_runtime.Store.Schema.{IntentRow, Attempt}
use faar_runtime.Store.Lifecycle.{at_intent, owns_effect}

-- An effect of a venue belongs to one intent.
abbrev pub Owners : List IntentRow → Type 0
Owners rows =
    (i j e : ℕ) (r q : IntentRow)
    → find (at_intent i) rows ≡ some r
    → find (at_intent j) rows ≡ some q
    → r.venue ≡ q.venue
    → r.effect_id ≡ some e
    → q.effect_id ≡ some e
    → i ≡ j

-- No other intent owns an effect that the changed row has.
abbrev pub IsFresh : List IntentRow → ℕ → IntentRow → Type 0
IsFresh rows i row =
    (j e : ℕ) (q : IntentRow)
    → find (at_intent j) rows ≡ some q
    → row.venue ≡ q.venue
    → row.effect_id ≡ some e
    → q.effect_id ≡ some e
    → i ≡ j

found_id :
    (i : ℕ) (rows : List IntentRow) {r : IntentRow}
    → find (at_intent i) rows ≡ some r
    → r.intent_id ≡ i
found_id i rows {r} h = same r (find_holds (at_intent i) rows h)
  where
    same : (x : IntentRow) → at_intent i x ≡ true → x.intent_id ≡ i
    same x h = ground arith

hit_id : (i : ℕ) (x : IntentRow) → at_intent i x ≡ true → x.intent_id ≡ i
hit_id i x h = ground arith

module _ (i : ℕ) (f : IntentRow → IntentRow) (rows : List IntentRow)
    (same_id : (x : IntentRow) → (f x).intent_id ≡ x.intent_id) where
  -- Where a row of the updated table comes from.
  origin :
      (a : ℕ) (r : IntentRow)
      → find (at_intent a) (update (at_intent i) f rows) ≡ some r
      → ((x : IntentRow) × (find (at_intent i) rows ≡ some x) × (a ≡ i) × (f x ≡ r))
        ⊎ (find (at_intent a) rows ≡ some r)
  origin a r h =
      let (x, hx, e) = found-update (at_intent a) (at_intent i) f rows r (λ y. rw (same_id y)) h in
      elim (Bool-cases (at_intent i x)) [
        | inl hit ↦
            let same : a ≡ i = sym (found_id a rows hx) ∙ hit_id i x hit in
            inl (
              x,
              subst (λ k. find (at_intent k) rows ≡ some x) same hx,
              same,
              sym (ap (λ (b : Bool). if b then f x else x) hit) ∙ e,
            )
        | inr miss ↦ inr (hx ∙ ap some (sym (ap (λ (b : Bool). if b then f x else x) miss) ∙ e))
      ]

  pub Owners-update :
      ((x : IntentRow) → find (at_intent i) rows ≡ some x → IsFresh rows i (f x))
      → Owners rows
      → Owners (update (at_intent i) f rows)
  Owners-update fresh own a b e r q ha hb venue er eq = both (origin a r ha) (origin b q hb)
    where
      both :
          ((x : IntentRow) × (find (at_intent i) rows ≡ some x) × (a ≡ i) × (f x ≡ r))
            ⊎ (find (at_intent a) rows ≡ some r)
          → ((x : IntentRow) × (find (at_intent i) rows ≡ some x) × (b ≡ i) × (f x ≡ q))
            ⊎ (find (at_intent b) rows ≡ some q)
          → a ≡ b
      both (inl (x, hx, ai, fr)) (inl (y, hy, bi, fq)) = ai ∙ sym bi
      both (inl (x, hx, ai, fr)) (inr old) =
          ai
          ∙ fresh x hx b e q old (ap (λ (z : IntentRow). z.venue) fr ∙ venue)
              (ap (λ (z : IntentRow). z.effect_id) fr ∙ er) eq
      both (inr old) (inl (y, hy, bi, fq)) = sym (
          bi
          ∙ fresh y hy a e r old (ap (λ (z : IntentRow). z.venue) fq ∙ sym venue)
              (ap (λ (z : IntentRow). z.effect_id) fq ∙ eq) er)
      both (inr old) (inr also) = own a b e r q old also venue er eq

-- A row whose effect and venue stay is fresh by the invariant itself.
pub Owners-IsFresh :
    (i : ℕ) (rows : List IntentRow) (x y : IntentRow)
    → Owners rows
    → find (at_intent i) rows ≡ some x
    → y.venue ≡ x.venue
    → y.effect_id ≡ x.effect_id
    → IsFresh rows i y
Owners-IsFresh i rows x y own hx venue effect j e q hq v ey eq =
    own i j e x q hx hq (sym venue ∙ v) (sym effect ∙ ey) eq

-- The unique index of the datastore is what makes a new effect fresh.
pub checked-IsFresh :
    (i : ℕ) (rows : List IntentRow) (x y : IntentRow) (e : ℕ)
    → find (at_intent i) rows ≡ some x
    → exists (owns_effect x e) rows ≡ false
    → y.venue ≡ x.venue
    → y.effect_id ≡ some e
    → IsFresh rows i y
checked-IsFresh i rows x y e hx free venue effect j d q hq v ey eq = elim (Bool-cases (i == j)) [
  | inl same ↦ (==_iff i j).0 same
  | inr differs ↦ absurd (
      clash (
        exists_found (at_intent j) (owns_effect x e) rows hq (
          owned x q (found_id i rows hx) (found_id j rows hq) differs (sym venue ∙ v)
            (eq ∙ sym ey ∙ effect))))
]
  where
    clash : exists (owns_effect x e) rows ≡ true → ⊥
    clash h = true_false (sym h ∙ free)
      where
        true_false : true ≡ false → ⊥
        true_false k = cc

    owned :
        (x q : IntentRow)
        → x.intent_id ≡ i
        → q.intent_id ≡ j
        → (i == j) ≡ false
        → x.venue ≡ q.venue
        → q.effect_id ≡ some e
        → owns_effect x e q ≡ true
    owned x q a b d v k = ground arith

pub Owners-append :
    (rows : List IntentRow) (z : IntentRow)
    → z.effect_id ≡ none
    → Owners rows
    → Owners (rows ++ z ∷ [])
Owners-append rows z empty own a b e r q ha hb venue er eq =
    both (found-append (at_intent a) rows z r ha) (found-append (at_intent b) rows z q hb)
  where
    no_effect : (x : IntentRow) → z ≡ x → x.effect_id ≡ some e → ⊥
    no_effect x k h = none_some (sym empty ∙ ap (λ (y : IntentRow). y.effect_id) k ∙ h)
      where
        none_some : none ≡ some e → ⊥
        none_some k = cc

    both :
        (find (at_intent a) rows ≡ some r) ⊎ (z ≡ r)
        → (find (at_intent b) rows ≡ some q) ⊎ (z ≡ q)
        → a ≡ b
    both (inl x) (inl y) = own a b e r q x y venue er eq
    both (inr x) y = absurd (no_effect r x er)
    both (inl x) (inr y) = absurd (no_effect q y eq)

abbrev pub of_intent : ℕ → Attempt → Bool
of_intent i a = a.intent_id == i

abbrev pub counted : Option IntentRow → ℕ
counted none = 0
counted (some r) = r.submission_count

-- The ledger of attempts has as many rows of an intent as its row counts.
abbrev pub IsLedgered : List IntentRow → List Attempt → Type 0
IsLedgered rows attempts =
    (i : ℕ) → count (of_intent i) attempts ≡ counted (find (at_intent i) rows)

pub IsLedgered-update :
    (i : ℕ) (f : IntentRow → IntentRow) (rows : List IntentRow) (attempts : List Attempt)
    → ((x : IntentRow) → (f x).intent_id ≡ x.intent_id)
    → ((x : IntentRow) → (f x).submission_count ≡ x.submission_count)
    → IsLedgered rows attempts
    → IsLedgered (update (at_intent i) f rows) attempts
IsLedgered-update i f rows attempts same_id same_count h j =
    h j
    ∙ sym (
        ap counted (find-update (at_intent j) (at_intent i) f rows (λ x. rw (same_id x)))
        ∙ kept (find (at_intent j) rows))
  where
    kept : (o : Option IntentRow) → counted (touched (at_intent i) f o) ≡ counted o
    kept none = refl
    kept (some x) = ground (arith, same_count x)

pub IsLedgered-append :
    (rows : List IntentRow) (attempts : List Attempt) (z : IntentRow)
    → z.submission_count ≡ 0
    → IsLedgered rows attempts
    → IsLedgered (rows ++ z ∷ []) attempts
IsLedgered-append rows attempts z new h j =
    h j ∙ sym (ap counted (find-append (at_intent j) rows z) ∙ kept (find (at_intent j) rows))
  where
    kept :
        (o : Option IntentRow)
        → counted (or_else o (if at_intent j z then some z else none)) ≡ counted o
    kept none = ground arith
    kept (some x) = refl

-- One more attempt, and one more in the count of its intent.
pub IsLedgered-start :
    (i : ℕ) (f : IntentRow → IntentRow) (rows : List IntentRow) (attempts : List Attempt)
    (a : Attempt) (row : IntentRow)
    → find (at_intent i) rows ≡ some row
    → a.intent_id ≡ i
    → ((x : IntentRow) → (f x).intent_id ≡ x.intent_id)
    → (f row).submission_count ≡ row.submission_count + 1
    → IsLedgered rows attempts
    → IsLedgered (update (at_intent i) f rows) (attempts ++ a ∷ [])
IsLedgered-start i f rows attempts a row found mine same_id more h j =
    count-append (of_intent j) attempts a
    ∙ ap (λ (n : ℕ). n + (if of_intent j a then 1 else 0)) (h j)
    ∙ sym (
        ap counted (find-update (at_intent j) (at_intent i) f rows (λ x. rw (same_id x)))
        ∙ moved (find (at_intent j) rows) refl)
  where
    none_some : none ≡ some row → ⊥
    none_some k = cc

    here : i ≡ j → find (at_intent i) rows ≡ find (at_intent j) rows
    here same = ap (λ k. find (at_intent k) rows) same

    moved :
        (o : Option IntentRow)
        → find (at_intent j) rows ≡ o
        → counted (touched (at_intent i) f o) ≡ counted o + (if of_intent j a then 1 else 0)
    moved none e = elim (Bool-cases (i == j)) [
      | inl same ↦ absurd (none_some (sym (here ((==_iff i j).0 same) ∙ e) ∙ found))
      | inr differs ↦ ground (arith, mine)
    ]
    moved (some x) e = elim (Bool-cases (i == j)) [
      | inl same ↦
          let one : row ≡ x = some_inj (sym found ∙ here ((==_iff i j).0 same) ∙ e) in
          let more' : (f x).submission_count ≡ x.submission_count + 1 = rw one at more in
          ground (arith, mine, more', found_id j rows e, same)
      | inr differs ↦ ground (arith, mine, found_id j rows e, differs)
    ]
