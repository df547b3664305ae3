-- ===== src/Table/Sums.antt =====
-- Counts and sums over a table, under INSERT and UPDATE.
use faar_runtime.Common.{
  ℕ, ◌+◌, ◌≤◌, ◌≡◌, refl, Bool, true, false, List, [], ◌∷◌, ◌++◌, arith, if◌then◌else◌,
}
use faar_runtime.Table.Defs.{update, count, sum}

module _ {ℓ} {A : Type ℓ} where
  pub count-append :
      (p : A → Bool) (xs : List A) (y : A)
      → count p (xs ++ y ∷ []) ≡ count p xs + (if p y then 1 else 0)
  unfolding count
  count-append p [] y = ground arith
  count-append p (x ∷ xs) y = ground (arith, count-append p xs y)

  pub sum-append :
      (p : A → Bool) (f : A → ℕ) (xs : List A) (y : A)
      → sum p f (xs ++ y ∷ []) ≡ sum p f xs + (if p y then f y else 0)
  unfolding sum
  sum-append p f [] y = ground arith
  sum-append p f (x ∷ xs) y = ground (arith, sum-append p f xs y)

  -- An UPDATE after which a row counts only if another condition held of it before.
  pub count-update :
      (p q hit : A → Bool) (f : A → A) (xs : List A)
      → ((x : A) → p (if hit x then f x else x) ≡ true → q x ≡ true)
      → count p (update hit f xs) ≤ count q xs
  unfolding count update
  count-update p q hit f [] h = ground arith
  count-update p q hit f (x ∷ xs) h =
      more (p (if hit x then f x else x)) (q x) (count p (update hit f xs)) (count q xs) (h x)
        (count-update p q hit f xs h)
    where
      more :
          (a b : Bool) (m n : ℕ)
          → (a ≡ true → b ≡ true)
          → m ≤ n
          → (if a then 1 else 0) + m ≤ (if b then 1 else 0) + n
      more false b m n k le = ground (arith, le)
      more true b m n k le = rw (k refl) (ground (arith, le))
