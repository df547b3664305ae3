-- ===== src/Store/Ensures.antt =====
-- What holds of the store that a transaction commits, with a rule for each way to build one.
use faar_runtime.Common.{◌≡◌, refl, subst, Bool, true, false, Option, none, some, if◌then◌else◌}
use faar_runtime.Common.Result.{Result, ok, err, ◌>>=◌, ◌>>◌, require, or_raise}
use faar_runtime.Store.Schema.{Store, StoreError}
use faar_runtime.Store.Access.{Tx}

module _ {ℓ} {A : Type 0} where
  abbrev pub Ensures : (A → Store → Type ℓ) → Tx A → Type ℓ
  Ensures P (ok (a, t)) = P a t
  Ensures P (err e) = Unit

  pub Ensures-bind :
      {B : Type 0} (P : A → Store → Type ℓ) (m : Result StoreError B) (f : B → Tx A)
      → ((b : B) → m ≡ ok b → Ensures P (f b))
      → Ensures P (m >>= f)
  Ensures-bind P (ok b) f h = h b refl
  Ensures-bind P (err e) f h = tt

  pub Ensures-require :
      (P : A → Store → Type ℓ) (b : Bool) (e : StoreError) (m : Tx A)
      → (b ≡ true → Ensures P m)
      → Ensures P (require b e >> m)
  Ensures-require P true e m h = h refl
  Ensures-require P false e m h = tt

  pub Ensures-or_raise :
      {B : Type 0} (P : A → Store → Type ℓ) (o : Option B) (e : StoreError) (f : B → Tx A)
      → ((b : B) → o ≡ some b → Ensures P (f b))
      → Ensures P (or_raise o e >>= f)
  Ensures-or_raise P (some b) e f h = h b refl
  Ensures-or_raise P none e f h = tt

  pub Ensures-if :
      (P : A → Store → Type ℓ) (b : Bool) (m n : Tx A)
      → (b ≡ true → Ensures P m)
      → (b ≡ false → Ensures P n)
      → Ensures P (if b then m else n)
  Ensures-if P true m n h k = h refl
  Ensures-if P false m n h k = k refl

  -- Back to a run that committed.
  pub Ensures-ok :
      (P : A → Store → Type ℓ) (m : Tx A) (a : A) (t : Store) → Ensures P m → m ≡ ok (a, t) → P a t
  Ensures-ok P m a t h e = subst (Ensures P) e h
