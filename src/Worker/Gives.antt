-- ===== src/Worker/Gives.antt =====
-- Actions of which each value has a property: one rule for each way to build an action.
use faar_runtime.Common.{◌≡◌, refl, ◌∙◌, subst, Bool, true, false, if◌then◌else◌}
use faar_runtime.Common.Result.{Result, ok, err, ok_inj}
use faar_runtime.Worker.Defs.{World, M, Raised, pure, raise, then_, ◌>>=◌, ◌>>◌, caught, catch}

-- Each value that an action can return.
pub record Gives {A : Type 0} (Q : A → Type 0) (m : M A) : Type 0 where
  pub at : (w : World) (a : A) → (m w).0 ≡ ok a → Q a

module _ {A : Type 0} (Q : A → Type 0) where
  pub Gives-pure : (a : A) → Q a → Gives Q (pure a)
  Gives-pure a q = record { at = λ w b h. subst Q (ok_inj h) q }

  pub Gives-raise : (x : Raised) → Gives Q (raise x)
  Gives-raise x = record { at = λ w b h. cc }

  pub Gives-test :
      (b : Bool) (m n : M A)
      → (b ≡ true → Gives Q m)
      → (b ≡ false → Gives Q n)
      → Gives Q (if b then m else n)
  Gives-test true m n h k = h refl
  Gives-test false m n h k = k refl

  pub Gives-bind :
      {B : Type 0} (m : M B) (f : B → M A) → ((b : B) → Gives Q (f b)) → Gives Q (m >>= f)
  unfolding ◌>>=◌
  Gives-bind {B} m f h = record { at = λ w a e. rest (m w).0 (m w).1 a e }
    where
      rest : (r : Result Raised B) (u : World) (a : A) → (then_ f r u).0 ≡ ok a → Q a
      rest (ok b) u a e = (h b).at u a e
      rest (err x) u a e = cc

  pub Gives-then : {B : Type 0} (m : M B) (n : M A) → Gives Q n → Gives Q (m >> n)
  unfolding ◌>>◌
  Gives-then m n h = Gives-bind m (λ _. n) (λ _. h)

  pub Gives-catch :
      (m : M A) (handler : Raised → M A)
      → Gives Q m
      → ((x : Raised) → Gives Q (handler x))
      → Gives Q (catch m handler)
  unfolding catch
  Gives-catch m handler h k = record { at = λ w a e. rest w (m w).0 (m w).1 a refl e }
    where
      rest :
          (w : World) (r : Result Raised A) (u : World) (a : A)
          → (m w).0 ≡ r
          → (caught handler r u).0 ≡ ok a
          → Q a
      rest w (ok b) u a same e = h.at w a (same ∙ e)
      rest w (err x) u a same e = (k x).at u a e
