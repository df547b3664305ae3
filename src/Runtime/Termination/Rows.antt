-- ===== src/Runtime/Termination/Rows.antt =====
-- The row of an intent after it is read or changed under its lease.
use faar_runtime.Common.{
  ℕ, ◌≤◌, ◌≡◌, refl, sym, ◌∙◌, subst, Bool, true, false, Option, none, some, [], ◌∷◌, arith,
  eq_refl, some_inj, if◌then◌else◌,
}
use faar_runtime.Common.Result.{Result, ok, err, or_raise}
use faar_runtime.Models.Enums.{IntentState}
use faar_runtime.Store.Schema.{Store, IntentRow, unknown_intent}
use faar_runtime.Store.Access.{Tx}
use faar_runtime.Store.Lifecycle.{find_intent, is_expected, state_code, Change, changed, transition}
use faar_runtime.Store.Intents.Transition.{transition_succeeds}
use faar_runtime.Worker.Defs.{
  Env, World, M, Raised, store_unavailable, then_, ◌>>=◌, ◌>>◌, call, committed, read_from,
}
use faar_runtime.Runtime.Calls
use faar_runtime.Runtime.Attempts.Counts.{attempts, count_in, after}
use faar_runtime.Runtime.Termination.Keeps.{IsLeased, Lasts, At, From}
use faar_runtime.Worker.Effects.{Does}

-- So many attempts are counted.
abbrev pub AtLeast : ℕ → ℕ → World → Type 0
AtLeast n i w = n ≤ attempts w.store i

own_state : (r : IntentRow) → is_expected r.state (r.state ∷ []) ≡ true
unfolding is_expected
own_state r = rw (eq_refl (state_code r.state)) refl

module _ (i : ℕ) (r : IntentRow) (to_ : IntentState) (c : Change) (s t : Store)
    (found : find_intent s i ≡ some r) where
  hits : transition s i (r.state ∷ []) to_ c ≡ ok (false, t) → ⊥
  unfolding transition
  hits h = let own : is_expected r.state (r.state ∷ []) ≡ true = own_state r in ground arith

  moves :
      transition s i (r.state ∷ []) to_ c ≡ ok (true, t) → find_intent t i ≡ some (changed r to_ c)
  moves h =
      let d = transition_succeeds s t i (r.state ∷ []) to_ c h in
      let same : d.row ≡ r = some_inj (sym d.found ∙ found) in
      rw (d.intents i, eq_refl i, same) refl

module _ (e : Env) (i : ℕ) (leased : IsLeased e i) {B : Type 0} where
  pub get-From :
      (n : ℕ) (f : IntentRow → M B)
      → ((r : IntentRow) → n ≤ r.submission_count → From (At i r) (f r))
      → From (AtLeast n i) (Calls.get e i >>= f)
  unfolding Calls.get ◌>>=◌ call
  get-From n f h = record {
    at = λ w p q.
        unlocked w (e.others w.calls w.store) (e.is_locked w.calls)
          (subst (λ o. n ≤ count_in o) (sym (leased w.calls w.store)) p) q;
  }
    where
      found :
          (w : World) (s : Store) (o : Option IntentRow)
          → find_intent s i ≡ o
          → n ≤ count_in o
          → w.exhausted ≡ false
          → let r = committed w s (read_from s (or_raise o unknown_intent)) in
            (then_ f r.0 r.1).1.exhausted ≡ false
      found w s none same p q = q
      found w s (some r) same p q = (h r p).at (after w s) same q

      unlocked :
          (w : World) (s : Store) (b : Bool)
          → n ≤ attempts s i
          → w.exhausted ≡ false
          → let r : Result Raised IntentRow × World =
              if b
              then (err store_unavailable, after w s)
              else committed w s (read_from s (or_raise (find_intent s i) unknown_intent)) in
            (then_ f r.0 r.1).1.exhausted ≡ false
      unlocked w s true p q = q
      unlocked w s false p q = found w s (find_intent s i) refl p q

  module _ (r : IntentRow) (to_ : IntentState) (c : Change) where
    -- A change from the state that was read finds that state.
    pub change-From :
        (m : M B)
        → From (At i (changed r to_ c)) m
        → From (At i r) (Calls.change e i r.state to_ c >> m)
    unfolding Calls.change ◌>>◌ ◌>>=◌ call
    change-From m h = record {
      at = λ w p q.
          unlocked w (e.others w.calls w.store) (e.is_locked w.calls) (leased w.calls w.store ∙ p)
            q;
    }
      where
        tried :
            (w : World) (s : Store) (o : Tx Bool)
            → find_intent s i ≡ some r
            → w.exhausted ≡ false
            → transition s i (r.state ∷ []) to_ c ≡ o
            → (then_ (λ _. m) (committed w s o).0 (committed w s o).1).1.exhausted ≡ false
        tried w s (ok (true, t)) found q k = h.at (after w t) (moves i r to_ c s t found k) q
        tried w s (ok (false, t)) found q k = absurd (hits i r to_ c s t found k)
        tried w s (err y) found q k = q

        unlocked :
            (w : World) (s : Store) (b : Bool)
            → find_intent s i ≡ some r
            → w.exhausted ≡ false
            → let o : Result Raised Bool × World =
                if b
                then (err store_unavailable, after w s)
                else committed w s (transition s i (r.state ∷ []) to_ c) in
              (then_ (λ _. m) o.0 o.1).1.exhausted ≡ false
        unlocked w s true found q = q
        unlocked w s false found q = tried w s _ found q refl

module _ (e : Env) (i : ℕ) {B : Type 0} (to_ : IntentState) (c : Change) where
  -- After a change that succeeds the row has the new state.
  pub reached-Lasts :
      (from_ : IntentState) (f : Bool → M B)
      → ((row : IntentRow) → row.state ≡ to_ → From (At i row) (f true))
      → Does Lasts (f false)
      → Does Lasts (Calls.change e i from_ to_ c >>= f)
  unfolding Calls.change ◌>>=◌ call
  reached-Lasts from_ f h k = record {
    at = λ w q. unlocked w (e.others w.calls w.store) (e.is_locked w.calls) q;
  }
    where
      tried :
          (w : World) (s : Store) (o : Tx Bool)
          → w.exhausted ≡ false
          → transition s i (from_ ∷ []) to_ c ≡ o
          → (then_ f (committed w s o).0 (committed w s o).1).1.exhausted ≡ false
      tried w s (ok (true, t)) q same =
          let d = transition_succeeds s t i (from_ ∷ []) to_ c same in
          (h (changed d.row to_ c) refl).at (after w t) (rw (d.intents i, eq_refl i) refl) q
      tried w s (ok (false, t)) q same = k.at (after w t) q
      tried w s (err y) q same = q

      unlocked :
          (w : World) (s : Store) (b : Bool)
          → w.exhausted ≡ false
          → let o : Result Raised Bool × World =
              if b
              then (err store_unavailable, after w s)
              else committed w s (transition s i (from_ ∷ []) to_ c) in
            (then_ f o.0 o.1).1.exhausted ≡ false
      unlocked w s true q = q
      unlocked w s false q = tried w s _ q refl
