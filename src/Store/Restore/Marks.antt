-- ===== src/Store/Restore/Marks.antt =====
-- The marks of an anchor that the operations of the store write: none is lowered.
use faar_runtime.Common.{
  ℕ, ◌≡◌, refl, Bool, true, false, Option, none, some, arith, if◌then◌else◌, subst,
}
use faar_runtime.Common.Result.{Result, ok, err, ok_inj, ◌>>=◌}
use faar_runtime.Anchor.{
  Mark, AnchorKey, grant_key, Anchor, AnchorError, unavailable, lt_mark, max_mark, record_mark,
  same_key,
}
use faar_runtime.Anchor.Order.{same_key_sound, same_key_refl}
use faar_runtime.Store.Access.{anchor_record, anchored}

-- The mark of the key is at least the given one.
abbrev pub Reaches : Option Anchor → AnchorKey → Mark → Type 0
Reaches none k m = ⊥
Reaches (some a) k m = (high : Mark) × (a.marks k ≡ some high) × (lt_mark high m ≡ false)

abbrev pub NeverLowers : Option Anchor → Option Anchor → Type 0
NeverLowers a b = (k : AnchorKey) (m : Mark) → Reaches a k m → Reaches b k m

pub lt_mark-max : (a b m : Mark) → lt_mark a m ≡ false → lt_mark (max_mark a b) m ≡ false
unfolding lt_mark max_mark
lt_mark-max a b m h = ground arith

pub lt_mark-max_right : (a b : Mark) → lt_mark (max_mark a b) b ≡ false
unfolding lt_mark max_mark
lt_mark-max_right a b = ground arith

-- A mark that is put above the old one, whatever it is.
pub put-Reaches :
    (a : Anchor) (j : AnchorKey) (new : Mark)
    → ((m : Mark) → Reaches (some a) j m → lt_mark new m ≡ false)
    → NeverLowers
        (some a)
        (some (record a { marks = λ x. if same_key j x then some new else a.marks x }))
put-Reaches a j new above k m (high, at_k, le) = by_key (same_key j k) refl
  where
    by_key :
        (b : Bool)
        → same_key j k ≡ b
        → Reaches
            (some (record a { marks = λ x. if same_key j x then some new else a.marks x }))
            k
            m
    by_key true e =
        let here : a.marks j ≡ some high = rw (same_key_sound j k e) at_k in
        (new, (rw e refl), above m (high, here, le))
    by_key false e = (high, (rw e at_k), le)

pub record_mark-Reaches :
    (a b : Anchor) (j : AnchorKey) (n : Mark)
    → record_mark a j n ≡ ok b
    → NeverLowers (some a) (some b) × Reaches (some b) j n
unfolding record_mark
record_mark-Reaches a b j n h = by_access (a.writable j) h
  where
    old : Option Mark → Mark
    old o = elim o [ none ↦ record { epoch = 0; fence = 0 } | some m ↦ m ]

    recorded : Anchor
    recorded = record a {
      marks = λ x. if same_key j x then some (max_mark (old (a.marks j)) n) else a.marks x;
    }

    above : (m : Mark) → Reaches (some a) j m → lt_mark (max_mark (old (a.marks j)) n) m ≡ false
    above m (high, at_j, le) = lt_mark-max (old (a.marks j)) n m (rw at_j le)

    reached : Reaches (some recorded) j n
    reached = (
      max_mark (old (a.marks j)) n,
      (rw (same_key_refl j) refl),
      lt_mark-max_right (old (a.marks j)) n,
    )

    by_access :
        (w : Bool)
        → (if w then ok recorded else err unavailable) ≡ ok b
        → NeverLowers (some a) (some b) × Reaches (some b) j n
    by_access true e =
        subst (λ (x : Anchor). NeverLowers (some a) (some x) × Reaches (some x) j n) (ok_inj e)
          (put-Reaches a j (max_mark (old (a.marks j)) n) above, reached)
    by_access false e = cc

-- The same of the anchor that a store may have.
pub anchor_record-Reaches :
    (a b : Option Anchor) (g v : ℕ) (n : Mark) → anchor_record a g v n ≡ ok b → NeverLowers a b
unfolding anchor_record
anchor_record-Reaches none b g v n h = subst (NeverLowers none) (ok_inj h) (λ k m r. r)
anchor_record-Reaches (some a) b g v n h = by_result (record_mark a (grant_key g v) n) refl h
  where
    by_result :
        (r : Result AnchorError Anchor)
        → record_mark a (grant_key g v) n ≡ r
        → (anchored r >>= λ x. ok (some x)) ≡ ok b
        → NeverLowers (some a) b
    by_result (ok x) e k =
        subst (NeverLowers (some a)) (ok_inj k) (record_mark-Reaches a x (grant_key g v) n e).0
    by_result (err x) e k = cc

pub anchor_record-reached :
    (a : Anchor) (b : Option Anchor) (g v : ℕ) (n : Mark)
    → anchor_record (some a) g v n ≡ ok b
    → Reaches b (grant_key g v) n
unfolding anchor_record
anchor_record-reached a b g v n h = by_result (record_mark a (grant_key g v) n) refl h
  where
    by_result :
        (r : Result AnchorError Anchor)
        → record_mark a (grant_key g v) n ≡ r
        → (anchored r >>= λ x. ok (some x)) ≡ ok b
        → Reaches b (grant_key g v) n
    by_result (ok x) e k =
        subst (λ (o : Option Anchor). Reaches o (grant_key g v) n) (ok_inj k)
          (record_mark-Reaches a x (grant_key g v) n e).1
    by_result (err x) e k = cc
