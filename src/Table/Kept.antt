-- ===== src/Table/Kept.antt =====
-- A table develops: each row that a lookup finds is found later, in a state that is related to the
-- one before. A relation that is reflexive and transitive makes the development so too.
use faar_runtime.Common.{
  ◌≡◌, ◌∙◌, ap, inl, inr, Bool, true, none, some, List, [], ◌∷◌, ◌++◌, Bool-cases, if◌then◌else◌,
}
use faar_runtime.Table.Defs.{find, update}
use faar_runtime.Table.Find.{find-update, find-append, touched, or_else}

abbrev pub Kept {ℓ κ} :
    {A : Type ℓ} → (A → Bool) → (A → A → Type κ) → List A → List A → Type (ℓ ⊔ κ)
Kept {A = A} p R xs ys = (x : A) → find p xs ≡ some x → (y : A) × (find p ys ≡ some y) × R x y

module _ {ℓ κ} {A : Type ℓ} (R : A → A → Type κ) (R_refl : (x : A) → R x x) where
  pub Kept-refl : (p : A → Bool) (xs : List A) → Kept p R xs xs
  Kept-refl p xs x h = (x, h, R_refl x)

  pub Kept-append : (p : A → Bool) (xs : List A) (z : A) → Kept p R xs (xs ++ z ∷ [])
  Kept-append p xs z x h =
      (x, find-append p xs z ∙ ap (λ o. or_else o (if p z then some z else none)) h, R_refl x)

  pub Kept-update :
      (p q : A → Bool) (f : A → A) (xs : List A)
      → ((x : A) → p (f x) ≡ p x)
      → ((x : A) → find p xs ≡ some x → q x ≡ true → R x (f x))
      → Kept p R xs (update q f xs)
  Kept-update p q f xs same moves x h = elim (Bool-cases (q x)) [
    | inl hit ↦ (f x, found ∙ ap (λ (b : Bool). some (if b then f x else x)) hit, moves x h hit)
    | inr miss ↦ (x, found ∙ ap (λ (b : Bool). some (if b then f x else x)) miss, R_refl x)
  ]
    where
      found : find p (update q f xs) ≡ some (if q x then f x else x)
      found = find-update p q f xs same ∙ ap (touched q f) h

module _ {ℓ κ} {A : Type ℓ} (R : A → A → Type κ)
    (R_trans : (x y z : A) → R x y → R y z → R x z) where
  pub Kept-trans :
      (p : A → Bool) (xs ys zs : List A) → Kept p R xs ys → Kept p R ys zs → Kept p R xs zs
  Kept-trans p xs ys zs a b x h =
      let (y, hy, rxy) = a x h in let (z, hz, ryz) = b y hy in (z, hz, R_trans x y z rxy ryz)
