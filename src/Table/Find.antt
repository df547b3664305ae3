-- ===== src/Table/Find.antt =====
-- What a lookup finds after an UPDATE, and after an INSERT.
use faar_runtime.Common.{
  ◌≡◌, refl, sym, ap, ◌∙◌, ◌⊎◌, some_inj, Bool, true, false, Option, none, some, List, [], ◌∷◌,
  ◌++◌, arith, if◌then◌else◌,
}
use faar_runtime.Table.Defs.{find, exists, update}

-- The rows that an UPDATE leaves for one row.
abbrev pub touched {ℓ} : {A : Type ℓ} → (A → Bool) → (A → A) → Option A → Option A
touched p f none = none
touched p f (some x) = some (if p x then f x else x)

abbrev pub or_else {ℓ} : {A : Type ℓ} → Option A → Option A → Option A
or_else none o = o
or_else (some x) o = some x

module _ {ℓ} {A : Type ℓ} where
  pub find_holds : (p : A → Bool) (xs : List A) {x : A} → find p xs ≡ some x → p x ≡ true
  unfolding find
  find_holds p [] h = ground arith
  find_holds p (y ∷ xs) {x} h = ground (arith, find_holds p xs {x = x})

  -- An UPDATE that does not change the searched columns changes the found row and no other.
  pub find-update :
      (q p : A → Bool) (f : A → A) (xs : List A)
      → ((x : A) → q (f x) ≡ q x)
      → find q (update p f xs) ≡ touched p f (find q xs)
  unfolding find update
  find-update q p f [] h = refl
  find-update q p f (x ∷ xs) h = ground (arith, h x, find-update q p f xs h)

  pub find-append :
      (p : A → Bool) (xs : List A) (y : A)
      → find p (xs ++ y ∷ []) ≡ or_else (find p xs) (if p y then some y else none)
  unfolding find
  find-append p [] y = refl
  find-append p (x ∷ xs) y = ground (arith, find-append p xs y)

  -- The same with a row that the search does not accept.
  pub find-append_miss :
      (p : A → Bool) (xs : List A) (y : A) → p y ≡ false → find p (xs ++ y ∷ []) ≡ find p xs
  unfolding find
  find-append_miss p [] y h = ground arith
  find-append_miss p (x ∷ xs) y h = ground (arith, find-append_miss p xs y h)

  pub exists-append_miss :
      (p : A → Bool) (xs : List A) (y : A) → p y ≡ false → exists p (xs ++ y ∷ []) ≡ exists p xs
  unfolding exists
  exists-append_miss p [] y h = ground arith
  exists-append_miss p (x ∷ xs) y h = ground (arith, exists-append_miss p xs y h)

  pub exists_of_find :
      (p : A → Bool) (xs : List A) {x : A} → find p xs ≡ some x → exists p xs ≡ true
  unfolding find exists
  exists_of_find p [] h = ground arith
  exists_of_find p (y ∷ xs) {x} h = ground (arith, exists_of_find p xs {x = x})

  pub find_none : (p : A → Bool) (xs : List A) → exists p xs ≡ false → find p xs ≡ none
  unfolding find exists
  find_none p [] h = refl
  find_none p (y ∷ xs) h = ground (arith, find_none p xs)

  -- The row that an UPDATE changes is found as changed.
  pub find-update_hit :
      (q p : A → Bool) (f : A → A) (xs : List A) {x : A}
      → ((y : A) → q (f y) ≡ q y)
      → find q xs ≡ some x
      → p x ≡ true
      → find q (update p f xs) ≡ some (f x)
  find-update_hit q p f xs {x} same h hit =
      find-update q p f xs same
      ∙ ap (touched p f) h
      ∙ ap (λ (b : Bool). some (if b then f x else x)) hit

  -- Where a row that is found after an UPDATE comes from.
  pub found-update :
      (q p : A → Bool) (f : A → A) (xs : List A) (y : A)
      → ((x : A) → q (f x) ≡ q x)
      → find q (update p f xs) ≡ some y
      → (x : A) × (find q xs ≡ some x) × ((if p x then f x else x) ≡ y)
  found-update q p f xs y same h = touched_inv (find q xs) refl
    where
      touched_inv :
          (o : Option A)
          → find q xs ≡ o
          → (x : A) × (find q xs ≡ some x) × ((if p x then f x else x) ≡ y)
      touched_inv none e =
          absurd (none_some (sym (find-update q p f xs same ∙ ap (touched p f) e) ∙ h))
        where
          none_some : none ≡ some y → ⊥
          none_some k = cc
      touched_inv (some x) e =
          (x, e, some_inj (sym (find-update q p f xs same ∙ ap (touched p f) e) ∙ h))

  -- The same after an INSERT.
  pub found-append :
      (p : A → Bool) (xs : List A) (z y : A)
      → find p (xs ++ z ∷ []) ≡ some y
      → (find p xs ≡ some y) ⊎ (z ≡ y)
  unfolding find
  found-append p [] z y h = ground arith
  found-append p (x ∷ xs) z y h = ground (arith, found-append p xs z y)

  pub exists_found :
      (p w : A → Bool) (xs : List A) {x : A} → find p xs ≡ some x → w x ≡ true → exists w xs ≡ true
  unfolding find exists
  exists_found p w [] h k = ground arith
  exists_found p w (y ∷ xs) {x} h k = ground (arith, exists_found p w xs {x = x})
