-- ===== src/Table/Defs.antt =====
-- The statements over a table, for any type of rows.
use faar_runtime.Common.{
  ℕ, ◌+◌, Bool, false, ◌||◌, Option, none, some, List, [], ◌∷◌, max, if◌then◌else◌,
}

module _ {ℓ} {A : Type ℓ} where
  -- SELECT * FROM t WHERE p, the first row
  unfoldable pub find : (A → Bool) → List A → Option A
  find p [] = none
  find p (x ∷ xs) = if p x then some x else find p xs

  -- SELECT 1 FROM t WHERE p LIMIT 1
  unfoldable pub exists : (A → Bool) → List A → Bool
  exists p [] = false
  exists p (x ∷ xs) = p x || exists p xs

  -- UPDATE t SET f WHERE p
  unfoldable pub update : (A → Bool) → (A → A) → List A → List A
  update p f [] = []
  update p f (x ∷ xs) = (if p x then f x else x) ∷ update p f xs

  -- SELECT * FROM t WHERE p
  unfoldable pub select : (A → Bool) → List A → List A
  select p [] = []
  select p (x ∷ xs) = if p x then x ∷ select p xs else select p xs

  -- SELECT COUNT(*) FROM t WHERE p
  unfoldable pub count : (A → Bool) → List A → ℕ
  count p [] = 0
  count p (x ∷ xs) = (if p x then 1 else 0) + count p xs

  -- SELECT SUM(f) FROM t WHERE p, with 0 for no row
  unfoldable pub sum : (A → Bool) → (A → ℕ) → List A → ℕ
  sum p f [] = 0
  sum p f (x ∷ xs) = (if p x then f x else 0) + sum p f xs

  -- SELECT MAX(f) FROM t WHERE p
  unfoldable pub max_of : (A → Bool) → (A → ℕ) → List A → Option ℕ
  max_of p f [] = none
  max_of p f (x ∷ xs) =
      let rest = max_of p f xs in
      if p x then some (elim rest [ none ↦ f x | some m ↦ max (f x) m ]) else rest

-- A predicate of every row.
abbrev pub All {ℓ κ} : {A : Type ℓ} → (A → Type κ) → List A → Type κ
All P [] = Unit
All P (x ∷ xs) = P x × All P xs
