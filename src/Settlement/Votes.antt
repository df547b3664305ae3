-- ===== src/Settlement/Votes.antt =====
-- What the votes of a settled fact are.
use faar_runtime.Common.{
  ℕ, ◌+◌, ◌≡◌, refl, ap, subst, Bool, true, false, not, ◌&&◌, Option, none, some, List, [], ◌∷◌,
  arith, ==_iff, if◌then◌else◌,
}
use faar_runtime.Table.{sum, count}
use faar_runtime.Money.Rounding.{Decimal, plus, minus, round28, normalize, same_decimal_sound}
use faar_runtime.Models.Enums.{SettlementStatus}
use faar_runtime.Settlement.Quorum.{
  SettlementRecord, Fact, status_code, same_text, same_amount, same_fact, normalized, fact_of,
  observed, Count, vote, is_bound, tally,
}

pub same_text_sound : (a b : Option ℕ) → same_text a b ≡ true → a ≡ b
same_text_sound none none h = refl
same_text_sound none (some y) h = cc
same_text_sound (some x) none h = cc
same_text_sound (some x) (some y) h = ap some ((==_iff x y).0 h)

pub same_amount_sound : (a b : Option Decimal) → same_amount a b ≡ true → a ≡ b
same_amount_sound none none h = refl
same_amount_sound none (some y) h = cc
same_amount_sound (some x) none h = cc
same_amount_sound (some x) (some y) h = ap some (same_decimal_sound x y h)

status_code_inj : (a b : SettlementStatus) → status_code a ≡ status_code b → a ≡ b
status_code_inj a b h = ground arith

same_fact_sound : (f g : Fact) → same_fact f g ≡ true → f ≡ g
same_fact_sound f g h =
    let (status, effect, amount) = parts _ _ _ h in
    equal f g
      (status_code_inj f.status g.status
        ((==_iff (status_code f.status) (status_code g.status)).0 status))
      (same_text_sound f.effect_id g.effect_id effect) (same_amount_sound f.amount g.amount amount)
  where
    parts : (a b d : Bool) → (a && (b && d)) ≡ true → (a ≡ true) × (b ≡ true) × (d ≡ true)
    parts a b d h = ground arith

    equal :
        (f g : Fact) → f.status ≡ g.status → f.effect_id ≡ g.effect_id → f.amount ≡ g.amount → f ≡ g
    equal f g a b c = λ i. record { status = a i; effect_id = b i; amount = c i }

-- The votes that the counts hold for the facts of a kind.
abbrev pub weight : (Fact → Bool) → List Count → ℕ
weight p cs = sum (λ c. p c.fact) (λ c. c.votes) cs

pub vote-weight :
    (p : Fact → Bool) (f : Fact) (cs : List Count)
    → weight p (vote f cs) ≡ weight p cs + (if p f then 1 else 0)
unfolding sum vote
vote-weight p f [] = ground arith
vote-weight p f (c ∷ cs) = by_test (same_fact f c.fact) refl (vote-weight p f cs)
  where
    by_test :
        (b : Bool)
        → same_fact f c.fact ≡ b
        → weight p (vote f cs) ≡ weight p cs + (if p f then 1 else 0)
        → weight p (if b then record c { votes = c.votes + 1 } ∷ cs else c ∷ vote f cs)
          ≡ weight p (c ∷ cs) + (if p f then 1 else 0)
    by_test true e h =
        more (p f) (p c.fact) c.votes (weight p cs) (ap p (same_fact_sound f c.fact e))
      where
        more :
            (a b : Bool) (n w : ℕ)
            → a ≡ b
            → (if b then n + 1 else 0) + w ≡ (if b then n else 0) + w + (if a then 1 else 0)
        more a b n w e = ground arith
    by_test false e h = rest (if p c.fact then c.votes else 0) _ _ _ h
      where
        rest : (k m w x : ℕ) → m ≡ w + x → k + m ≡ k + w + x
        rest k m w x h = omega arith

-- What a record says: its status, its effect and its amount to 28 significant digits.
abbrev pub rounded : Option Decimal → Option Decimal
rounded none = none
rounded (some (plus n)) = some (plus (round28 n))
rounded (some (minus n)) = some (minus (round28 n))

abbrev pub reported : SettlementRecord → Fact
reported r = record { status = r.status; effect_id = r.effect_id; amount = rounded r.amount_usd }

pub fact_of-reported : (r : SettlementRecord) → fact_of r ≡ reported r
unfolding fact_of normalize
fact_of-reported r =
    λ i. record { status = r.status; effect_id = r.effect_id; amount = same r.amount_usd i }
  where
    same : (z : Option Decimal) → normalized z ≡ rounded z
    same none = refl
    same (some (plus n)) = refl
    same (some (minus n)) = refl

-- An authoritative answer that is bound to the request, for a fact of a kind.
abbrev pub supports : ℕ → (Fact → Bool) → Option SettlementRecord → Bool
supports expected p a =
    (observed a).authoritative && (is_bound expected (observed a) && p (reported (observed a)))

abbrev pub is_foreign : ℕ → Option SettlementRecord → Bool
is_foreign expected a = (observed a).authoritative && not (is_bound expected (observed a))

pub tally-weight :
    (p : Fact → Bool) (expected : ℕ) (cs : List Count) (n : ℕ)
    (as_ : List (Option SettlementRecord))
    → weight p (tally expected cs n as_).0 ≡ weight p cs + count (supports expected p) as_
unfolding tally count
tally-weight p expected cs n [] = omega arith
tally-weight p expected cs n (a ∷ as_) =
    by_tests (observed a).authoritative (is_bound expected (observed a)) (p (reported (observed a)))
      _ _ _ _ _ (tally-weight p expected cs n as_) (tally-weight p expected cs (n + 1) as_)
      (tally-weight p expected (vote (fact_of (observed a)) cs) n as_)
      (subst (λ f. weight p (vote (fact_of (observed a)) cs) ≡ weight p cs + (if p f then 1 else 0))
        (fact_of-reported (observed a)) (vote-weight p (fact_of (observed a)) cs))
  where
    by_tests :
        (x y z : Bool) (r₁ r₂ r₃ : List Count × ℕ) (w k : ℕ) {v : ℕ}
        → weight p r₁.0 ≡ w + k
        → weight p r₂.0 ≡ w + k
        → weight p r₃.0 ≡ v + k
        → v ≡ w + (if z then 1 else 0)
        → weight p (if not x then r₁ else if not y then r₂ else r₃).0
          ≡ w + ((if x && (y && z) then 1 else 0) + k)
    by_tests false y z r₁ r₂ r₃ w k a b d e = omega (arith, a)
    by_tests true false z r₁ r₂ r₃ w k a b d e = omega (arith, b)
    by_tests true true true r₁ r₂ r₃ w k a b d e = omega (arith, d, e)
    by_tests true true false r₁ r₂ r₃ w k a b d e = omega (arith, d, e)

pub tally-foreign :
    (expected : ℕ) (cs : List Count) (n : ℕ) (as_ : List (Option SettlementRecord))
    → (tally expected cs n as_).1 ≡ n + count (is_foreign expected) as_
unfolding tally count
tally-foreign expected cs n [] = omega arith
tally-foreign expected cs n (a ∷ as_) =
    by_tests (observed a).authoritative (is_bound expected (observed a)) _ _ _ _
      (tally-foreign expected cs n as_) (tally-foreign expected cs (n + 1) as_)
      (tally-foreign expected (vote (fact_of (observed a)) cs) n as_)
  where
    by_tests :
        (x y : Bool) (r₁ r₂ r₃ : List Count × ℕ) (k : ℕ)
        → r₁.1 ≡ n + k
        → r₂.1 ≡ n + 1 + k
        → r₃.1 ≡ n + k
        → (if not x then r₁ else if not y then r₂ else r₃).1
          ≡ n + ((if x && not y then 1 else 0) + k)
    by_tests false y r₁ r₂ r₃ k a b d = omega (arith, a)
    by_tests true false r₁ r₂ r₃ k a b d = omega (arith, b)
    by_tests true true r₁ r₂ r₃ k a b d = omega (arith, d)
