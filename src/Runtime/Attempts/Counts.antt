-- ===== src/Runtime/Attempts/Counts.antt =====
-- The attempts that the datastore counts, and what an action hands over beyond them.
use faar_runtime.Common.{ℕ, ◌+◌, ◌≤◌, ◌≡◌, refl, Option, none, some, List, [], ◌∷◌, arith}
use faar_runtime.Common.Result.{Result, ok, err}
use faar_runtime.Models.Requests.{ExecutionRequest, SignedPermit}
use faar_runtime.Store.Schema.{Store, IntentRow}
use faar_runtime.Store.Lifecycle.{find_intent}
use faar_runtime.Store.Progress.Rows.{Advances}
use faar_runtime.Store.Steps.{Run-Advances}
use faar_runtime.Worker.Defs.{Env, World, M, Raised, then_, ◌>>=◌, ◌>>◌, transport}
use faar_runtime.Worker.Effects.{IsFair, IsEffect, Does}

abbrev pub length {ℓ} : {A : Type ℓ} → List A → ℕ
length [] = 0
length (_ ∷ xs) = length xs + 1

abbrev pub count_in : Option IntentRow → ℕ
count_in none = 0
count_in (some r) = r.submission_count

-- The attempts of an intent that the datastore has counted.
abbrev pub attempts : Store → ℕ → ℕ
attempts s i = count_in (find_intent s i)

pub attempts-Advances : (s t : Store) (i : ℕ) → Advances s t → attempts s i ≤ attempts t i
attempts-Advances s t i a = by_row (find_intent s i) refl
  where
    by_row : (o : Option IntentRow) → find_intent s i ≡ o → count_in o ≤ attempts t i
    by_row none h = omega arith
    by_row (some r) h = let (q, again, k) = a.intents i r h in rw again (k.count)

abbrev pub after : World → Store → World
after w t = record w { store = t; calls = w.calls + 1 }

-- `free` more permits may be handed over than attempts were counted.
abbrev pub Spends : ℕ → ℕ → World → World → Type 0
Spends i free w u = attempts w.store i + length u.sent ≤ length w.sent + attempts u.store i + free

pub Spends-IsEffect : (e : Env) (i : ℕ) → IsFair e → IsEffect e (Spends i 0)
Spends-IsEffect e i fair = record {
  stays = λ w. omega arith;
  joins = λ u v w p q. omega (arith, p, q);
  observes = λ w. omega arith;
  commits = λ w t r. omega (
    arith,
    attempts-Advances w.store (e.others w.calls w.store) i
        (Run-Advances e.crypto (fair w.calls w.store)),
    attempts-Advances (e.others w.calls w.store) t i (Run-Advances e.crypto r),
  );
}

module _ (i a b : ℕ) {A B : Type 0} where
  -- What the parts spend adds up.
  pub Spends-bind :
      (m : M A) (f : A → M B)
      → Does (Spends i a) m
      → ((x : A) → Does (Spends i b) (f x))
      → Does (Spends i (a + b)) (m >>= f)
  unfolding ◌>>=◌
  Spends-bind m f h k = record { at = λ w. rest w (m w).0 (m w).1 (h.at w) }
    where
      rest :
          (w : World) (r : Result Raised A) (u : World)
          → Spends i a w u
          → Spends i (a + b) w (then_ f r u).1
      rest w (ok x) u p = omega (arith, p, (k x).at u)
      rest w (err x) u p = omega (arith, p)

  pub Spends-then :
      (m : M A) (n : M B)
      → Does (Spends i a) m
      → Does (Spends i b) n
      → Does (Spends i (a + b)) (m >> n)
  unfolding ◌>>◌
  Spends-then m n h k = Spends-bind m (λ _. n) h (λ _. k)

pub transport-Spends :
    (e : Env) (i : ℕ) (q : ExecutionRequest) (p : SignedPermit)
    → Does (Spends i 1) (transport e q p)
unfolding transport
transport-Spends e i q p = record { at = λ w. omega arith }
