-- ===== src/Store/Authority/Supersession.antt =====
-- A later permit of the same intent supersedes the earlier ones for good.
use faar_runtime.Common.{
  ℕ, ◌<◌, ◌≡◌, ◌≢◌, refl, sym, ◌∙◌, Bool, true, false, not, Option, some, List, [], ◌∷◌, arith,
  some_inj, eq_refl, not-true,
}
use faar_runtime.Common.Result.{ok}
use faar_runtime.Table.{find, exists}
use faar_runtime.Table.Find.{find-append, find_none, exists_found}
use faar_runtime.Models.Grant.{CapabilityGrant, Intent}
use faar_runtime.Store.Schema.{PermitRow, Store, permit_conflict, integrity_error}
use faar_runtime.Store.Permits.{
  record_execution_permit, live_conflict, clashes, length, new_permit, at_permit, supersedes,
  consume_execution_permit, Presented, consumed,
}
use faar_runtime.Store.Evidence.{Crypto}
use faar_runtime.Store.Ensures.{Ensures, Ensures-ok, Ensures-require}
use faar_runtime.Store.Steps.{Run, Run-Advances, next, here, issue}
use faar_runtime.Store.Authority.Consumption.{consumed-IsAccepted}

-- The row that was inserted.
abbrev IsIssued : Store → ℕ → ℕ → Store → Type 0
IsIssued s permit i t =
    (p : PermitRow) × (find (at_permit permit) t.execution_permits ≡ some p)
    × (p.intent_id ≡ i)
    × (p.rowid ≡ length s.execution_permits)

exists_none :
    (xs : List PermitRow) (permit g v fence : ℕ)
    → exists (clashes permit g v fence) xs ≡ false
    → exists (at_permit permit) xs ≡ false
unfolding exists
exists_none [] permit g v fence h = refl
exists_none (x ∷ xs) permit g v fence h = ground (arith, exists_none xs permit g v fence)

issued :
    (s : Store) (permit : ℕ) (i : Intent) (g : CapabilityGrant) (epoch fence hash : ℕ)
    (expires now : Option ℕ)
    → Ensures
        (λ _. IsIssued s permit i.intent_id)
        (record_execution_permit s permit i g epoch fence hash expires now)
unfolding record_execution_permit
issued s permit i g epoch fence hash expires now =
    Ensures-require (λ _. IsIssued s permit i.intent_id) (not (live_conflict s i.intent_id g now))
      permit_conflict _
      λ _.
        Ensures-require (λ _. IsIssued s permit i.intent_id)
          (not (exists (clashes permit g.grant_id g.version fence) s.execution_permits))
          integrity_error _
          λ free. (
            new_permit s permit i g epoch fence hash expires,
            find-append (at_permit permit) s.execution_permits _
                ∙ (rw
                    (
                      find_none (at_permit permit) s.execution_permits (
                          exists_none s.execution_permits permit g.grant_id g.version fence (
                            not-true
                              (exists (clashes permit g.grant_id g.version fence)
                                s.execution_permits)
                              free)),
                      eq_refl permit,
                    )
                    refl),
            refl,
            refl,
          )

-- Once a permit is issued for an intent, no permit that the intent had before is consumed, after any
-- operations: also by a venue whose clock lags. The ledger numbers its rows in order.
pub superseded_for_good :
    (c : Crypto) (s t u w : Store) (permit : ℕ) (i : Intent) (g : CapabilityGrant)
    (epoch fence hash : ℕ) (expires now : Option ℕ) (q : Presented) (ts : ℕ) (p : PermitRow)
    → find (at_permit q.permit_id) s.execution_permits ≡ some p
    → p.intent_id ≡ i.intent_id
    → p.rowid < length s.execution_permits
    → record_execution_permit s permit i g epoch fence hash expires now ≡ ok (tt, t)
    → Run c t u
    → consume_execution_permit u q ts ≢ ok (consumed, w)
superseded_for_good c s t u w permit i g epoch fence hash expires now q ts p found same older h run
      e =
    let (new, at_new, of_intent, numbered) =
      Ensures-ok (λ _. IsIssued s permit i.intent_id) _ tt t
        (issued s permit i g epoch fence hash expires now) h in
    let first : Run c s t = next here (issue permit i g epoch fence hash expires now t h) in
    let (p₁, at₁, e₁) = (Run-Advances c first).permits q.permit_id p found in
    let (p₂, at₂, e₂) = (Run-Advances c run).permits q.permit_id p₁ at₁ in
    let (new₂, at_new₂, e_new) = (Run-Advances c run).permits permit new at_new in
    let (x, a) = consumed-IsAccepted u q ts w e in
    let one : x ≡ p₂ = some_inj (sym a.recorded ∙ at₂) in
    let last : exists (supersedes p₂) u.execution_permits ≡ false = rw one at a.last in
    clash _ last (
      exists_found (at_permit permit) (supersedes p₂) u.execution_permits at_new₂ (
        later p₂ new₂ (e_new.intent ∙ of_intent ∙ sym same ∙ sym (e₂.intent ∙ e₁.intent))
          (omega (arith, e₁.rowid, e₂.rowid, e_new.rowid, numbered, older))))
  where
    later :
        (x y : PermitRow) → y.intent_id ≡ x.intent_id → x.rowid < y.rowid → supersedes x y ≡ true
    later x y h k = ground arith

    clash : (b : Bool) → b ≡ false → b ≡ true → ⊥
    clash b h k = cc
