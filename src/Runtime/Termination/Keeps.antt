-- ===== src/Runtime/Termination/Keeps.antt =====
-- Actions that keep the row of an intent, while its lease keeps other workers from it.
use faar_runtime.Common.{ℕ, ◌+◌, ◌≡◌, refl, sym, ap, ◌∙◌, Bool, true, false, some, if◌then◌else◌}
use faar_runtime.Common.Result.{Result, ok, err, ok_inj}
use faar_runtime.Models.Grant.{CapabilityGrant}
use faar_runtime.Store.Schema.{Store, StoreError, IntentRow}
use faar_runtime.Store.Access.{Tx}
use faar_runtime.Table.{find}
use faar_runtime.Store.Chain.Growth.{add_evidence-keeps}
use faar_runtime.Store.Permits.{void_unconsumed_permits, permit_counts}
use faar_runtime.Store.Lifecycle.{at_intent, find_intent}
use faar_runtime.Worker.Defs.{
  Env, Entry, World, M, Raised, pure, then_, ◌>>=◌, ◌>>◌, call, committed, reading, read_from,
  observe, attempt, store_unavailable,
}
use faar_runtime.Worker.Effects.{IsEffect, Does}
use faar_runtime.Runtime.Calls

-- No other worker writes the row of the intent.
abbrev pub IsLeased : Env → ℕ → Type 0
IsLeased e i = (k : ℕ) (s : Store) → find_intent (e.others k s) i ≡ find_intent s i

-- The row stays, and no fuel is spent.
abbrev pub Same : ℕ → World → World → Type 0
Same i w u = (find_intent u.store i ≡ find_intent w.store i) × (u.exhausted ≡ w.exhausted)

-- The fuel lasts.
abbrev pub Lasts : World → World → Type 0
Lasts w u = w.exhausted ≡ false → u.exhausted ≡ false

pub Lasts-IsEffect : (e : Env) → IsEffect e Lasts
Lasts-IsEffect e = record {
  stays = λ w h. h;
  joins = λ u v w p q h. q (p h);
  observes = λ w h. h;
  commits = λ w t r h. h;
}

abbrev pub At : ℕ → IntentRow → World → Type 0
At i r w = find_intent w.store i ≡ some r

-- From a world of a kind the fuel lasts.
pub record From {A : Type 0} (P : World → Type 0) (m : M A) : Type 0 where
  pub at : (w : World) → P w → w.exhausted ≡ false → (m w).1.exhausted ≡ false

module _ {A : Type 0} (P : World → Type 0) where
  pub From-Does :
      {R : World → World → Type 0}
      → ((w u : World) → R w u → Lasts w u)
      → (m : M A) → Does R m
      → From P m
  From-Does lasts m h = record { at = λ w p k. lasts w _ (h.at w) k }

  pub From-if : (b : Bool) (m n : M A) → From P m → From P n → From P (if b then m else n)
  From-if true m n h k = h
  From-if false m n h k = k

module _ (e : Env) (i : ℕ) (leased : IsLeased e i) where
  module _ {A : Type 0} where
    kept-pure : (a : A) → Does (Same i) (pure a)
    kept-pure a = record { at = λ w. (refl, refl) }

    pub kept-observe : (f : ℕ → A) → Does (Same i) (observe f)
    unfolding observe
    kept-observe f = record { at = λ w. (refl, refl) }

    kept-if :
        (b : Bool) (m n : M A)
        → Does (Same i) m
        → Does (Same i) n
        → Does (Same i) (if b then m else n)
    kept-if true m n h k = h
    kept-if false m n h k = k

    pub kept-attempt : (m : M A) → Does (Same i) m → Does (Same i) (attempt m)
    unfolding attempt
    kept-attempt m h = record { at = h.at }

    kept-call :
        (op : Store → Tx A)
        → ((s : Store) (a : A) (t : Store) → op s ≡ ok (a, t) → find_intent t i ≡ find_intent s i)
        → Does (Same i) (call e op)
    unfolding call
    kept-call op h = record {
      at =
          λ w. unlocked w (e.others w.calls w.store) (e.is_locked w.calls) (leased w.calls w.store);
    }
      where
        done :
            (w : World) (s : Store) (r : Tx A)
            → op s ≡ r
            → find_intent s i ≡ find_intent w.store i
            → Same i w (committed w s r).1
        done w s (ok (a, t)) k same = (h s a t k ∙ same, refl)
        done w s (err x) k same = (same, refl)

        unlocked :
            (w : World) (s : Store) (b : Bool)
            → find_intent s i ≡ find_intent w.store i
            → Same i w
                (if b
                  then (err store_unavailable, record w { store = s; calls = w.calls + 1 })
                  else committed w s (op s)).1
        unlocked w s true same = (same, refl)
        unlocked w s false same = done w s (op s) refl same

    kept-reading : (op : Store → Result StoreError A) → Does (Same i) (call e (reading op))
    kept-reading op = kept-call (reading op) (λ s a t h. read_same s (op s) a t h)
      where
        read_same :
            (s : Store) (r : Result StoreError A) (a : A) (t : Store)
            → read_from s r ≡ ok (a, t)
            → find_intent t i ≡ find_intent s i
        read_same s (ok b) a t h = cc
        read_same s (err x) a t h = cc

  module _ {A B : Type 0} where
    kept-bind :
        (m : M A) (f : A → M B)
        → Does (Same i) m
        → ((a : A) → Does (Same i) (f a))
        → Does (Same i) (m >>= f)
    unfolding ◌>>=◌
    kept-bind m f h k = record { at = λ w. rest w (m w).0 (m w).1 (h.at w) }
      where
        rest : (w : World) (r : Result Raised A) (u : World) → Same i w u → Same i w (then_ f r u).1
        rest w (ok a) u (p, q) = let (p2, q2) = (k a).at u in (p2 ∙ p, q2 ∙ q)
        rest w (err x) u s = s

    kept-then : (m : M A) (n : M B) → Does (Same i) m → Does (Same i) n → Does (Same i) (m >> n)
    unfolding ◌>>◌
    kept-then m n h k = kept-bind m (λ _. n) h (λ _. k)

    module _ (P : World → Type 0) (stays : (w u : World) → Same i w u → P w → P u) where
      -- The row is as it was after an action that keeps it.
      pub From-bind :
          (m : M A) (f : A → M B) → Does (Same i) m → ((a : A) → From P (f a)) → From P (m >>= f)
      unfolding ◌>>=◌
      From-bind m f h k = record { at = λ w p q. rest w (m w).0 (m w).1 p q (h.at w) }
        where
          rest :
              (w : World) (o : Result Raised A) (u : World)
              → P w
              → w.exhausted ≡ false
              → Same i w u
              → (then_ f o u).1.exhausted ≡ false
          rest w (ok a) u p q (s, d) = (k a).at u (stays w u (s, d) p) (d ∙ q)
          rest w (err x) u p q (s, d) = d ∙ q

      pub From-then : (m : M A) (n : M B) → Does (Same i) m → From P n → From P (m >> n)
      unfolding ◌>>◌
      From-then m n h k = From-bind m (λ _. n) h (λ _. k)

  pub kept-log : (x : Entry) → Does (Same i) (Calls.log e i x)
  unfolding Calls.log
  kept-log x = record {
    at = λ w.
        (kept-call _ (λ s a t h.
            ap (find (at_intent i))
              (add_evidence-keeps e.crypto s t i a (e.content w.calls x) h))).at
          w;
  }

  kept-void : Does (Same i) (Calls.void e i)
  unfolding Calls.void void_unconsumed_permits
  kept-void = record {
    at = λ w.
        (kept-call _ (λ s a t h. sym (ap (λ (r : ℕ × Store). find_intent r.1 i) (ok_inj h)))).at w;
  }

  pub kept-void_permits : Does (Same i) (Calls.void_permits e i)
  unfolding Calls.void_permits
  kept-void_permits =
      kept-bind _ _ kept-void
        (λ n. kept-if _ _ _ (kept-then _ _ (kept-log _) (kept-pure _)) (kept-pure _))

  pub kept-count : Does (Same i) (Calls.count_permits e i)
  unfolding Calls.count_permits
  kept-count = kept-reading (λ s. ok (permit_counts s i))

  pub kept-assert : Does (Same i) (Calls.assert_evidence_appendable e i)
  unfolding Calls.assert_evidence_appendable
  kept-assert = kept-reading _

  pub kept-verify : (g : CapabilityGrant) → Does (Same i) (Calls.verify_provisioned e g)
  unfolding Calls.verify_provisioned
  kept-verify g = kept-reading _

  pub kept-status : (g : CapabilityGrant) → Does (Same i) (Calls.get_grant_status e g)
  unfolding Calls.get_grant_status
  kept-status g = kept-bind _ _ (kept-reading _) (λ r. kept-pure _)
