-- ===== src/Worker/Effects.antt =====
-- Actions that relate the world before to the world after: one rule for each way to build an action.
use faar_runtime.Common.{ℕ, ◌+◌, ◌≡◌, refl, subst, Bool, true, false, if◌then◌else◌}
use faar_runtime.Common.Result.{Result, ok, err}
use faar_runtime.Store.Schema.{Store, StoreError}
use faar_runtime.Store.Access.{Tx}
use faar_runtime.Store.Steps.{Run, here, next}
use faar_runtime.Worker.Defs.{
  Env, World, M, Raised, store_unavailable, pure, raise, then_, ◌>>=◌, ◌>>◌, caught, catch, attempt,
  committed, call, reading, read_from, observe,
}

pub Run-trans : (e : Env) {s t u : Store} → Run e.crypto s t → Run e.crypto t u → Run e.crypto s u
Run-trans e r here = r
Run-trans e r (next q st) = next (Run-trans e r q) st

-- What the others commit before a call is a run of the store.
abbrev pub IsFair : Env → Type 0
IsFair e = (k : ℕ) (s : Store) → Run e.crypto s (e.others k s)

-- A relation between worlds that holds of every call of the store, whose commit is a run of the
-- store's operations after what others committed.
pub record IsEffect (e : Env) (R : World → World → Type 0) : Type 0 where
  pub stays : (w : World) → R w w
  pub joins : (u v w : World) → R u v → R v w → R u w
  pub observes : (w : World) → R w (record w { calls = w.calls + 1 })
  pub commits :
      (w : World) (t : Store)
      → Run e.crypto (e.others w.calls w.store) t
      → R w (record w { store = t; calls = w.calls + 1 })

pub record Does {A : Type 0} (R : World → World → Type 0) (m : M A) : Type 0 where
  pub at : (w : World) → R w (m w).1

-- An operation that commits by a run.
abbrev pub Commits : {A : Type 0} → Env → (Store → Tx A) → Type 0
Commits {A} e op = (s : Store) (a : A) (t : Store) → op s ≡ ok (a, t) → Run e.crypto s t

module _ (e : Env) {R : World → World → Type 0} (eff : IsEffect e R) where
  module _ {A : Type 0} where
    pub Does-pure : (a : A) → Does R (pure a)
    Does-pure a = record { at = eff.stays }

    pub Does-raise : (x : Raised) → Does R (raise {A = A} x)
    Does-raise x = record { at = eff.stays }

    pub Does-if : (b : Bool) (m n : M A) → Does R m → Does R n → Does R (if b then m else n)
    Does-if true m n h k = h
    Does-if false m n h k = k

    pub Does-test :
        (b : Bool) (m n : M A)
        → (b ≡ true → Does R m)
        → (b ≡ false → Does R n)
        → Does R (if b then m else n)
    Does-test true m n h k = h refl
    Does-test false m n h k = k refl

    pub Does-observe : (f : ℕ → A) → Does R (observe f)
    unfolding observe
    Does-observe f = record { at = eff.observes }

    pub Does-attempt : (m : M A) → Does R m → Does R (attempt m)
    unfolding attempt
    Does-attempt m h = record { at = h.at }

    caught_Does :
        (handler : Raised → M A) (r : Result Raised A) (w : World)
        → ((x : Raised) → Does R (handler x))
        → R w (caught handler r w).1
    caught_Does handler (ok a) w h = eff.stays w
    caught_Does handler (err x) w h = (h x).at w

    pub Does-catch :
        (m : M A) (handler : Raised → M A)
        → Does R m
        → ((x : Raised) → Does R (handler x))
        → Does R (catch m handler)
    unfolding catch
    Does-catch m handler h k = record {
      at = λ w. eff.joins w _ _ (h.at w) (caught_Does handler (m w).0 (m w).1 k);
    }

    committed_Run :
        (w : World) (s : Store) (r : Tx A)
        → s ≡ e.others w.calls w.store
        → ((a : A) (t : Store) → r ≡ ok (a, t) → Run e.crypto s t)
        → R w (committed w s r).1
    committed_Run w s (ok (a, t)) same h =
        eff.commits w t (subst (λ u. Run e.crypto u t) same (h a t refl))
    committed_Run w s (err x) same h = eff.commits w s (subst (λ u. Run e.crypto u s) same here)

    pub Does-call : (op : Store → Tx A) → Commits e op → Does R (call e op)
    unfolding call
    Does-call op h = record {
      at = λ w. unlocked w (e.others w.calls w.store) (e.is_locked w.calls) refl;
    }
      where
        unlocked :
            (w : World) (s : Store) (b : Bool)
            → s ≡ e.others w.calls w.store
            → R w
                (if b
                  then (err store_unavailable, record w { store = s; calls = w.calls + 1 })
                  else committed w s (op s)).1
        unlocked w s true same = eff.commits w s (subst (λ u. Run e.crypto u s) same here)
        unlocked w s false same = committed_Run w s (op s) same (h s)

    read_same :
        (s : Store) (r : Result StoreError A) (a : A) (t : Store)
        → read_from s r ≡ ok (a, t)
        → Run e.crypto s t
    read_same s (ok b) a t h = subst (Run e.crypto s) (cc) here
    read_same s (err x) a t h = cc

    pub Does-reading : (op : Store → Result StoreError A) → Does R (call e (reading op))
    Does-reading op = Does-call (reading op) (λ s a t h. read_same s (op s) a t h)

  module _ {A B : Type 0} where
    then_Does :
        (f : A → M B) (r : Result Raised A) (w : World)
        → ((a : A) → Does R (f a))
        → R w (then_ f r w).1
    then_Does f (ok a) w h = (h a).at w
    then_Does f (err x) w h = eff.stays w

    pub Does-bind : (m : M A) (f : A → M B) → Does R m → ((a : A) → Does R (f a)) → Does R (m >>= f)
    unfolding ◌>>=◌
    Does-bind m f h k = record {
      at = λ w. eff.joins w _ _ (h.at w) (then_Does f (m w).0 (m w).1 k);
    }

    -- What is observed is a value of the surroundings at some call.
    pub Does-observed :
        (f : ℕ → A) (g : A → M B) → ((k : ℕ) → Does R (g (f k))) → Does R (observe f >>= g)
    unfolding ◌>>=◌ observe
    Does-observed f g h = record { at = λ w. eff.joins w _ _ (eff.observes w) ((h w.calls).at _) }

    pub Does-then : (m : M A) (n : M B) → Does R m → Does R n → Does R (m >> n)
    unfolding ◌>>◌
    Does-then m n h k = Does-bind m (λ _. n) h (λ _. k)

pub ruleset effect_rules =
    (Does-pure, Does-raise, Does-if, Does-observe, Does-attempt, Does-catch, Does-bind, Does-then)

-- The effect on the datastore is a run.
abbrev pub Runs : Env → World → World → Type 0
Runs e w u = Run e.crypto w.store u.store

pub Runs-IsEffect : (e : Env) → IsFair e → IsEffect e (Runs e)
Runs-IsEffect e fair = record {
  stays = λ w. here;
  joins = λ u v w r q. Run-trans e r q;
  observes = λ w. here;
  commits = λ w t r. Run-trans e (fair w.calls w.store) r;
}
