-- ===== src/Table/Rows.antt =====
-- Predicates of every row, under SELECT, UPDATE and INSERT.
use faar_runtime.Common.{
  ◌≡◌, refl, Bool, true, false, some, List, [], ◌∷◌, ◌++◌, arith, if◌then◌else◌,
}
use faar_runtime.Table.Defs.{find, update, All}

module _ {ℓ κ} {A : Type ℓ} (P : A → Type κ) where
  pub All-find : (p : A → Bool) (xs : List A) {x : A} → All P xs → find p xs ≡ some x → P x
  unfolding find
  All-find p [] a h = ground arith
  All-find p (y ∷ xs) {x} a h =
      elim (p y) as (λ b. (if b then some y else find p xs) ≡ some x → P x) [
        | true ↦ λ e. subst_some e a.0
        | false ↦ λ e. All-find p xs a.1 e
      ]
        h
    where
      subst_some : some y ≡ some x → P y → P x
      subst_some e py = ground arith

  pub All-append : (xs : List A) (y : A) → All P xs → P y → All P (xs ++ y ∷ [])
  All-append [] y a h = (h, tt)
  All-append (x ∷ xs) y a h = (a.0, All-append xs y a.1 h)

  pub All-update :
      (p : A → Bool) (f : A → A) (xs : List A)
      → ((x : A) → p x ≡ true → P x → P (f x))
      → All P xs
      → All P (update p f xs)
  unfolding update
  All-update p f [] h a = tt
  All-update p f (x ∷ xs) h a = (touch (p x) refl, All-update p f xs h a.1)
    where
      touch : (b : Bool) → p x ≡ b → P (if b then f x else x)
      touch true e = h x e a.0
      touch false e = a.0
