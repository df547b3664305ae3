-- ===== src/Settlement/Finality.antt =====
-- What the counts say of a fact, and of two facts that differ by their finality only.
use faar_runtime.Common.{
  ℕ, ◌+◌, ◌≤◌, ◌≡◌, refl, subst, Bool, true, false, not, ◌&&◌, ◌||◌, Option, none, some, List, [],
  ◌∷◌, arith, ◌==◌, eq_refl, if◌then◌else◌,
}
use faar_runtime.Table.{sum}
use faar_runtime.Money.Rounding.{Decimal, same_decimal_refl}
use faar_runtime.Settlement.Quorum.{
  Fact, status_code, same_text, same_amount, same_effect, Count, is_confirmed, is_finalized,
}
use faar_runtime.Settlement.Votes.{same_text_sound, same_amount_sound, weight}

-- A vote for the fact: the same effect and amount, and the same status or one that is more final.
abbrev pub backs : Fact → Fact → Bool
backs f g =
    same_effect f g
    && (status_code f.status == status_code g.status || (is_confirmed f && is_finalized g))

-- A vote for another effect, another amount, or a status that differs by more than finality.
abbrev pub disputes : Fact → Fact → Bool
disputes f g = not (
    same_effect f g
    && (status_code f.status == status_code g.status
        || ((is_confirmed f && is_finalized g) || (is_finalized f && is_confirmed g))))

same_text_refl : (a : Option ℕ) → same_text a a ≡ true
same_text_refl none = refl
same_text_refl (some x) = eq_refl x

same_amount_refl : (a : Option Decimal) → same_amount a a ≡ true
same_amount_refl none = refl
same_amount_refl (some x) = same_decimal_refl x

pub same_effect_refl : (f : Fact) → same_effect f f ≡ true
same_effect_refl f = rw (same_text_refl f.effect_id, same_amount_refl f.amount) refl

pub same_effect_sym : (f g : Fact) → same_effect f g ≡ true → same_effect g f ≡ true
same_effect_sym f g h =
    let (effect, amount) = parts _ _ h in
    both _ _
      (subst (λ x. same_text x f.effect_id ≡ true) (same_text_sound f.effect_id g.effect_id effect)
        (same_text_refl f.effect_id))
      (subst (λ x. same_amount x f.amount ≡ true) (same_amount_sound f.amount g.amount amount)
        (same_amount_refl f.amount))
  where
    parts : (a b : Bool) → (a && b) ≡ true → (a ≡ true) × (b ≡ true)
    parts a b h = ground arith

    both : (a b : Bool) → a ≡ true → b ≡ true → (a && b) ≡ true
    both a b h k = ground arith

backs_refl : (f : Fact) → backs f f ≡ true
backs_refl f = rw (same_effect_refl f, eq_refl (status_code f.status)) refl

disputes_refl : (f : Fact) → disputes f f ≡ false
disputes_refl f = rw (same_effect_refl f, eq_refl (status_code f.status)) refl

-- What the counts say of a fact.
abbrev pub IsAgreed : ℕ → Fact → List Count → Type 0
IsAgreed quorum f cs = (quorum ≤ weight (backs f) cs) × (weight (disputes f) cs ≡ 0)

pub alone : (quorum : ℕ) (c : Count) → quorum ≤ c.votes → IsAgreed quorum c.fact (c ∷ [])
unfolding sum
alone quorum c h =
    weights (backs c.fact c.fact) (disputes c.fact c.fact) (backs_refl c.fact)
      (disputes_refl c.fact)
  where
    weights :
        (x y : Bool)
        → x ≡ true
        → y ≡ false
        → (quorum ≤ (if x then c.votes else 0) + 0) × ((if y then c.votes else 0) + 0 ≡ 0)
    weights x y hx hy = ground (arith, h)

pair-IsAgreed :
    (quorum : ℕ) (f : Fact) (c d : Count) (x y : Bool)
    → backs f c.fact ≡ x
    → backs f d.fact ≡ y
    → disputes f c.fact ≡ false
    → disputes f d.fact ≡ false
    → quorum ≤ (if x then c.votes else 0) + (if y then d.votes else 0)
    → IsAgreed quorum f (c ∷ d ∷ [])
unfolding sum
pair-IsAgreed quorum f c d x y hx hy hc hd le =
    weights (backs f c.fact) (backs f d.fact) (disputes f c.fact) (disputes f d.fact) hx hy hc hd
  where
    weights :
        (p q u v : Bool)
        → p ≡ x
        → q ≡ y
        → u ≡ false
        → v ≡ false
        → (quorum ≤ (if p then c.votes else 0) + ((if q then d.votes else 0) + 0))
          × ((if u then c.votes else 0) + ((if v then d.votes else 0) + 0) ≡ 0)
    weights p q u v hp hq hu hv = rw (hp, hq, hu, hv) (omega (arith, le), refl)

-- Two facts that differ by their finality only.
pub record IsLagging (confirmed final : Fact) : Type 0 where
  pub effect : same_effect confirmed final ≡ true
  pub weaker : is_confirmed confirmed ≡ true
  pub stronger : is_finalized final ≡ true

module _ (quorum : ℕ) (a b : Count) (lag : IsLagging a.fact b.fact) where
  open lag use {effect, weaker, stronger}

  backed : backs a.fact b.fact ≡ true
  backed =
      rw (effect, weaker, stronger)
        (or_true (status_code a.fact.status == status_code b.fact.status))
    where
      or_true : (x : Bool) → (x || true) ≡ true
      or_true x = ground arith

  undisputed_by_final : disputes a.fact b.fact ≡ false
  undisputed_by_final =
      rw (effect, weaker, stronger) (never (status_code a.fact.status == status_code b.fact.status))
    where
      never : (x : Bool) → not (x || true) ≡ false
      never x = ground arith

  undisputed_by_confirmed : disputes b.fact a.fact ≡ false
  undisputed_by_confirmed =
      rw (same_effect_sym a.fact b.fact effect, weaker, stronger)
        (never (status_code b.fact.status == status_code a.fact.status)
          (is_confirmed b.fact && is_finalized a.fact))
    where
      never : (x y : Bool) → not (x || (y || true)) ≡ false
      never x y = ground arith

  -- Either of them may carry the votes, and the two may be counted in either order.
  pub combined : quorum ≤ b.votes + a.votes → IsAgreed quorum a.fact (a ∷ b ∷ [])
  combined h =
      pair-IsAgreed quorum a.fact a b true true (backs_refl a.fact) backed (disputes_refl a.fact)
        undisputed_by_final (omega (arith, h))

  pub combined_after : quorum ≤ b.votes + a.votes → IsAgreed quorum a.fact (b ∷ a ∷ [])
  combined_after h =
      pair-IsAgreed quorum a.fact b a true true backed (backs_refl a.fact) undisputed_by_final
        (disputes_refl a.fact) h

  pub final_alone : quorum ≤ b.votes → IsAgreed quorum b.fact (a ∷ b ∷ [])
  final_alone h =
      pair-IsAgreed quorum b.fact a b _ true refl (backs_refl b.fact) undisputed_by_confirmed
        (disputes_refl b.fact) (omega (arith, h))

  pub final_alone_before : quorum ≤ b.votes → IsAgreed quorum b.fact (b ∷ a ∷ [])
  final_alone_before h =
      pair-IsAgreed quorum b.fact b a true _ (backs_refl b.fact) refl (disputes_refl b.fact)
        undisputed_by_confirmed (omega (arith, h))
