-- ===== src/Store/Chain/Heads.antt =====
-- The rows and the heads that an append writes, as they are found afterwards.
use faar_runtime.Common.{
  ℕ, ◌≡◌, refl, ◌∙◌, ap, Bool, true, false, some, List, [], ◌∷◌, ◌++◌, arith, ◌==◌, ==_iff,
  if◌then◌else◌, eq_refl,
}
use faar_runtime.Table.{find, exists, select, update}
use faar_runtime.Table.Find.{find_none, find-append, find-append_miss}
use faar_runtime.Store.Schema.{Head}
use faar_runtime.Store.Evidence.{at_head, put_head}

pub select-append :
    {A : Type 0} (p : A → Bool) (xs : List A) (y : A)
    → select p (xs ++ y ∷ []) ≡ select p xs ++ (if p y then y ∷ [] else [])
unfolding select
select-append p [] y = by_test (p y)
  where
    by_test : (b : Bool) → (if b then y ∷ [] else []) ≡ (if b then y ∷ [] else [])
    by_test b = refl
select-append p (x ∷ xs) y = by_test (p x) (select-append p xs y)
  where
    by_test :
        (b : Bool)
        → select p (xs ++ y ∷ []) ≡ select p xs ++ (if p y then y ∷ [] else [])
        → (if b then x ∷ select p (xs ++ y ∷ []) else select p (xs ++ y ∷ []))
          ≡ (if b then x ∷ select p xs else select p xs) ++ (if p y then y ∷ [] else [])
    by_test true e = ap (λ zs. x ∷ zs) e
    by_test false e = e

-- A row that replaces the rows of a key is found under it, and under no other.
find-replaced :
    {A : Type 0} (p : A → Bool) (y : A) (xs : List A)
    → p y ≡ true
    → exists p xs ≡ true
    → find p (update p (λ _. y) xs) ≡ some y
unfolding find exists update
find-replaced p y [] h k = ground arith
find-replaced p y (x ∷ xs) h k = ground (arith, find-replaced p y xs h)

find-replaced_other :
    {A : Type 0} (q p : A → Bool) (y : A) (xs : List A)
    → q y ≡ false
    → ((x : A) → p x ≡ true → q x ≡ false)
    → find q (update p (λ _. y) xs) ≡ find q xs
unfolding find update
find-replaced_other q p y [] h apart = refl
find-replaced_other q p y (x ∷ xs) h apart =
    ground (arith, apart x, find-replaced_other q p y xs h apart)

pub put_head-find :
    (h : Head) (rows : List Head) → find (at_head h.intent_id) (put_head h rows) ≡ some h
put_head-find h rows = by_test (exists (at_head h.intent_id) rows) refl
  where
    by_test :
        (b : Bool)
        → exists (at_head h.intent_id) rows ≡ b
        → find
            (at_head h.intent_id)
            (if b then update (at_head h.intent_id) (λ _. h) rows else rows ++ h ∷ [])
          ≡ some h
    by_test true e = find-replaced (at_head h.intent_id) h rows (eq_refl h.intent_id) e
    by_test false e =
        find-append (at_head h.intent_id) rows h
        ∙ (rw (find_none (at_head h.intent_id) rows e, eq_refl h.intent_id) refl)

pub put_head-find_other :
    (h : Head) (rows : List Head) (j : ℕ)
    → (h.intent_id == j) ≡ false
    → find (at_head j) (put_head h rows) ≡ find (at_head j) rows
put_head-find_other h rows j differs = by_test (exists (at_head h.intent_id) rows)
  where
    apart : (x : Head) → at_head h.intent_id x ≡ true → at_head j x ≡ false
    apart x e = rw ((==_iff x.intent_id h.intent_id).0 e) differs

    by_test :
        (b : Bool)
        → find
            (at_head j)
            (if b then update (at_head h.intent_id) (λ _. h) rows else rows ++ h ∷ [])
          ≡ find (at_head j) rows
    by_test true = find-replaced_other (at_head j) (at_head h.intent_id) h rows differs apart
    by_test false = find-append_miss (at_head j) rows h differs
