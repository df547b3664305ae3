-- ===== src/Settlement/Agreement.antt =====
-- A fact that is settled has its quorum, and no authoritative answer disputes it.
use faar_runtime.Common.{
  ℕ, ◌+◌, ◌≤◌, ◌≡◌, refl, ap, subst, Bool, true, false, not, ◌&&◌, Option, none, some, List, [],
  ◌∷◌, arith, ltb, ◌==◌, ==_iff, some_inj, if◌then◌else◌,
}
use faar_runtime.Table.{sum, count}
use faar_runtime.Settlement.Quorum.{
  SettlementRecord, Fact, same_effect, Count, tally, is_confirmed, is_finalized, merged, merge_two,
  reconcile_finality, Settlement, contested, quorum_not_reached, settled, decided, verify,
}
use faar_runtime.Settlement.Votes.{supports, is_foreign, tally-weight, tally-foreign}
use faar_runtime.Settlement.Finality.{
  backs, disputes, IsAgreed, alone, IsLagging, combined, combined_after, final_alone,
  final_alone_before, same_effect_sym,
}

-- The fact that is settled from the counts.
abbrev settled_fact : Settlement → Option Fact
settled_fact (settled f n) = some f
settled_fact _ = none

one_settled :
    (quorum : ℕ) (c : Count) (f : Fact) (n : ℕ)
    → decided quorum (c ∷ []) ≡ settled f n
    → (c.fact ≡ f) × (quorum ≤ c.votes)
one_settled quorum c f n h = by_test (ltb c.votes quorum) refl h
  where
    by_test :
        (b : Bool)
        → ltb c.votes quorum ≡ b
        → (if b then quorum_not_reached c.fact c.votes else settled c.fact c.votes) ≡ settled f n
        → (c.fact ≡ f) × (quorum ≤ c.votes)
    by_test true e k = cc
    by_test false e k = (some_inj (ap settled_fact k), ground arith)

lagging_settled :
    (quorum : ℕ) (a b : Count) (lag : IsLagging a.fact b.fact) (f : Fact) (n : ℕ) (cs : List Count)
    → (quorum ≤ b.votes + a.votes → IsAgreed quorum a.fact cs)
    → (quorum ≤ b.votes → IsAgreed quorum b.fact cs)
    → decided quorum (merged quorum b a) ≡ settled f n
    → IsAgreed quorum f cs
lagging_settled quorum a b lag f n cs both final h = by_test (ltb b.votes quorum) h
  where
    by_test :
        (t : Bool)
        → decided quorum (if t then record a { votes = b.votes + a.votes } ∷ [] else b ∷ [])
          ≡ settled f n
        → IsAgreed quorum f cs
    by_test true k =
        let (same, le) = one_settled quorum (record a { votes = b.votes + a.votes }) f n k in
        subst (λ g. IsAgreed quorum g cs) same (both le)
    by_test false k =
        let (same, le) = one_settled quorum b f n k in
        subst (λ g. IsAgreed quorum g cs) same (final le)

two_settled :
    (quorum : ℕ) (a b : Count) (f : Fact) (n : ℕ)
    → decided quorum (merge_two quorum a b) ≡ settled f n
    → IsAgreed quorum f (a ∷ b ∷ [])
two_settled quorum a b f n h =
    by_tests (same_effect a.fact b.fact) refl (is_confirmed a.fact) refl (is_finalized b.fact) refl
      (is_finalized a.fact) refl (is_confirmed b.fact) refl h
  where
    by_tests :
        (e : Bool)
        → same_effect a.fact b.fact ≡ e
        → (ca : Bool) → is_confirmed a.fact ≡ ca
        → (fb : Bool) → is_finalized b.fact ≡ fb
        → (fa : Bool) → is_finalized a.fact ≡ fa
        → (cb : Bool) → is_confirmed b.fact ≡ cb
        → decided quorum (
            if e && (ca && fb)
            then merged quorum b a
            else if e && (fa && cb)
            then merged quorum a b
            else a ∷ b ∷ [])
          ≡ settled f n
        → IsAgreed quorum f (a ∷ b ∷ [])
    by_tests true he true hca true hfb fa hfa cb hcb k =
        let lag : IsLagging a.fact b.fact = record { effect = he; weaker = hca; stronger = hfb } in
        lagging_settled quorum a b lag f n (a ∷ b ∷ []) (combined quorum a b lag)
          (final_alone quorum a b lag) k
    by_tests true he false hca fb hfb true hfa true hcb k =
        let lag : IsLagging b.fact a.fact = record {
          effect = same_effect_sym a.fact b.fact he;
          weaker = hcb;
          stronger = hfa;
        } in
        lagging_settled quorum b a lag f n (a ∷ b ∷ []) (combined_after quorum b a lag)
          (final_alone_before quorum b a lag) k
    by_tests true he true hca false hfb true hfa true hcb k =
        let lag : IsLagging b.fact a.fact = record {
          effect = same_effect_sym a.fact b.fact he;
          weaker = hcb;
          stronger = hfa;
        } in
        lagging_settled quorum b a lag f n (a ∷ b ∷ []) (combined_after quorum b a lag)
          (final_alone_before quorum b a lag) k
    by_tests true he true hca false hfb true hfa false hcb k = cc
    by_tests true he true hca false hfb false hfa cb hcb k = cc
    by_tests true he false hca fb hfb true hfa false hcb k = cc
    by_tests true he false hca fb hfb false hfa cb hcb k = cc
    by_tests false he ca hca fb hfb fa hfa cb hcb k = cc

counts_settled :
    (quorum : ℕ) (cs : List Count) (f : Fact) (n : ℕ)
    → decided quorum (reconcile_finality quorum cs) ≡ settled f n
    → IsAgreed quorum f cs
unfolding reconcile_finality
counts_settled quorum [] f n h = cc
counts_settled quorum (c ∷ []) f n h =
    let (same, le) = one_settled quorum c f n h in
    subst (λ g. IsAgreed quorum g (c ∷ [])) same (alone quorum c le)
counts_settled quorum (a ∷ b ∷ []) f n h = two_settled quorum a b f n h
counts_settled quorum (a ∷ b ∷ c ∷ cs) f n h = cc

-- When the quorum settles a fact, at least `quorum` sources gave an authoritative record of this
-- request with its effect and amount and with its status or, for CONFIRMED, with FINALIZED; and no
-- authoritative record is of another request, of another effect or amount, or of a status that
-- differs by more than the finality. Amounts are compared, and settled, as rounded to 28 significant
-- digits. A source that raises has no weight.
pub settled_by_quorum :
    (quorum expected : ℕ) (answers : List (Option SettlementRecord)) (f : Fact) (n : ℕ)
    → verify quorum expected answers ≡ settled f n
    → (quorum ≤ count (supports expected (backs f)) answers)
      × (count (supports expected (disputes f)) answers ≡ 0)
      × (count (is_foreign expected) answers ≡ 0)
unfolding verify sum
settled_by_quorum quorum expected answers f n h =
    let (clean, decided_eq) =
      no_mismatch (tally expected [] 0 answers).1 (tally expected [] 0 answers).0 h in
    let (reached, undisputed) =
      counts_settled quorum (tally expected [] 0 answers).0 f n decided_eq in
    (
      omega (arith, reached, tally-weight (backs f) expected [] 0 answers),
      omega (arith, undisputed, tally-weight (disputes f) expected [] 0 answers),
      omega (arith, clean, tally-foreign expected [] 0 answers),
    )
  where
    no_mismatch :
        (m : ℕ) (cs : List Count)
        → (if not (m == 0) then contested else decided quorum (reconcile_finality quorum cs))
          ≡ settled f n
        → (m ≡ 0) × (decided quorum (reconcile_finality quorum cs) ≡ settled f n)
    no_mismatch m cs k = by_test (m == 0) refl k
      where
        by_test :
            (b : Bool)
            → m == 0 ≡ b
            → (if not b then contested else decided quorum (reconcile_finality quorum cs))
              ≡ settled f n
            → (m ≡ 0) × (decided quorum (reconcile_finality quorum cs) ≡ settled f n)
        by_test true e k = ((==_iff m 0).0 e, k)
        by_test false e k = cc
