-- ===== src/Store/Progress/Permits.antt =====
-- The operations on permits develop their rows: record_execution_permit,
-- void_unconsumed_permits and consume_execution_permit.
use faar_runtime.Common.{
  ℕ, ◌+◌, ◌≡◌, refl, sym, ◌∙◌, ap, subst, Bool, true, false, not, ◌&&◌, Option, none, some, List,
  [], ◌∷◌, arith, some_inj, is_some, is_none, ◌==◌,
}
use faar_runtime.Table.{find, exists}
use faar_runtime.Table.Find.{find_holds}
use faar_runtime.Table.Kept.{Kept, Kept-refl, Kept-append, Kept-update}
use faar_runtime.Models.Grant.{CapabilityGrant, Intent}
use faar_runtime.Store.Schema.{
  GrantRow, IntentRow, Attempt, PermitRow, Store, permit_conflict, integrity_error,
}
use faar_runtime.Store.Access.{at_grant, find_grant, anchor_record}
use faar_runtime.Store.Permits.{
  record_execution_permit, void_unconsumed_permits, consume_execution_permit, Presented,
  PermitReason, at_permit, binds, is_pending, live_conflict, clashes, supersedes, control_reasons,
  commit_consumption, consume_controlled, consume_granted, consume_row, consume_found,
  open_ambiguity,
}
use faar_runtime.Store.Lifecycle.{at_intent}
use faar_runtime.Store.Ensures.{Ensures, Ensures-bind, Ensures-require, Ensures-if}
use faar_runtime.Store.Progress.Owners.{
  Owners, Owners-update, Owners-IsFresh, IsLedgered, IsLedgered-update,
}
use faar_runtime.Store.Progress.Rows.{
  GrantExtends, GrantExtends-refl, PermitExtends, PermitExtends-refl, IntentExtends,
  IntentExtends-refl, Advances, Advances-refl,
}

stamped-Extends : (r : IntentRow) (e : ℕ) → IntentExtends r (record r { ambiguity_until = some e })
stamped-Extends r e = ground arith

open_ambiguity-Kept :
    (i : ℕ) (e : Option ℕ) (rows : List IntentRow) (j : ℕ)
    → Kept (at_intent j) IntentExtends rows (open_ambiguity i e rows)
open_ambiguity-Kept i none rows j = Kept-refl IntentExtends IntentExtends-refl (at_intent j) rows
open_ambiguity-Kept i (some e) rows j =
    Kept-update IntentExtends IntentExtends-refl (at_intent j) (at_intent i)
      (λ r. record r { ambiguity_until = some e }) rows (λ _. refl) (λ x _ _. stamped-Extends x e)

open_ambiguity-Owners :
    (i : ℕ) (e : Option ℕ) (rows : List IntentRow) → Owners rows → Owners (open_ambiguity i e rows)
open_ambiguity-Owners i none rows own = own
open_ambiguity-Owners i (some e) rows own =
    Owners-update i (λ r. record r { ambiguity_until = some e }) rows (λ _. refl)
      (λ x hx. Owners-IsFresh i rows x (record x { ambiguity_until = some e }) own hx refl refl) own

open_ambiguity-IsLedgered :
    (i : ℕ) (e : Option ℕ) (rows : List IntentRow) (attempts : List Attempt)
    → IsLedgered rows attempts
    → IsLedgered (open_ambiguity i e rows) attempts
open_ambiguity-IsLedgered i none rows attempts h = h
open_ambiguity-IsLedgered i (some e) rows attempts h =
    IsLedgered-update i (λ r. record r { ambiguity_until = some e }) rows attempts (λ _. refl)
      (λ _. refl) h

pub record_execution_permit-Advances :
    (s : Store) (permit : ℕ) (i : Intent) (g : CapabilityGrant) (epoch fence hash : ℕ)
    (expires now : Option ℕ)
    → Ensures
        (λ _ t. Advances s t)
        (record_execution_permit s permit i g epoch fence hash expires now)
unfolding record_execution_permit
record_execution_permit-Advances s permit i g epoch fence hash expires now =
    Ensures-require (λ _. Advances s) (not (live_conflict s i.intent_id g now)) permit_conflict _
      λ _.
        Ensures-require (λ _. Advances s)
          (not (exists (clashes permit g.grant_id g.version fence) s.execution_permits))
          integrity_error _
          λ _. record {
            grants = (Advances-refl s).grants;
            permits = λ j.
                Kept-append PermitExtends PermitExtends-refl (at_permit j) s.execution_permits _;
            intents = open_ambiguity-Kept i.intent_id expires s.intents;
            owners = open_ambiguity-Owners i.intent_id expires s.intents;
            ledger = open_ambiguity-IsLedgered i.intent_id expires s.intents s.submission_attempts;
            reservations = (Advances-refl s).reservations;
          }

voided-Extends :
    (p : PermitRow) (ts : ℕ)
    → is_pending p ≡ true
    → PermitExtends p (record p { voided_at = some ts })
voided-Extends p ts h = ground arith

and_right : (a b : Bool) → (a && b) ≡ true → b ≡ true
and_right a b h = ground arith

pub void_unconsumed_permits-Advances :
    (s : Store) (i ts : ℕ) → Advances s (void_unconsumed_permits s i ts).1
unfolding void_unconsumed_permits
void_unconsumed_permits-Advances s i ts = record {
  grants = (Advances-refl s).grants;
  permits = λ j.
      Kept-update PermitExtends PermitExtends-refl (at_permit j)
        (λ p. p.intent_id == i && is_pending p) (λ p. record p { voided_at = some ts })
        s.execution_permits (λ _. refl)
        (λ x _ hit. voided-Extends x ts (and_right (x.intent_id == i) (is_pending x) hit));
  intents = (Advances-refl s).intents;
  owners = (Advances-refl s).owners;
  ledger = (Advances-refl s).ledger;
  reservations = (Advances-refl s).reservations;
}

consumed-Extends :
    (p : PermitRow) (ts : ℕ)
    → is_some p.voided_at ≡ false
    → PermitExtends p (record p { consumed_at = some ts })
consumed-Extends p ts h = ground arith

fenced-Extends : (r : GrantRow) → GrantExtends r (record r { fence_counter = r.fence_counter + 1 })
fenced-Extends r = ground arith

module _ (s : Store) (q : Presented) (p : PermitRow)
    (found : find (at_permit q.permit_id) s.execution_permits ≡ some p) where
  found_again :
      (j : ℕ) (x : PermitRow)
      → find (at_permit j) s.execution_permits ≡ some x
      → (at_permit q.permit_id x && is_none x.consumed_at) ≡ true
      → p ≡ x
  found_again j x hx hit = some_inj (
      sym found
      ∙ ap (λ k. find (at_permit k) s.execution_permits)
          (same_id j x (find_holds (at_permit j) s.execution_permits hx) hit)
      ∙ hx)
    where
      same_id :
          (j : ℕ) (x : PermitRow)
          → at_permit j x ≡ true
          → (at_permit q.permit_id x && is_none x.consumed_at) ≡ true
          → q.permit_id ≡ j
      same_id j x a b = ground arith

  commit_consumption-Advances :
      is_some p.voided_at ≡ false
      → (row : GrantRow) (ts : ℕ) → Ensures (λ _ t. Advances s t) (commit_consumption s q row ts)
  commit_consumption-Advances live row ts =
      Ensures-bind (λ _. Advances s) (anchor_record s.anchor q.grant_id q.grant_version _) _
        λ a _. record {
          grants = λ g v.
              Kept-update GrantExtends GrantExtends-refl (at_grant g v)
                (at_grant q.grant_id q.grant_version)
                (λ r. record r { fence_counter = r.fence_counter + 1 }) s.grants (λ _. refl)
                (λ x _ _. fenced-Extends x);
          permits = λ j.
              Kept-update PermitExtends PermitExtends-refl (at_permit j)
                (λ p. at_permit q.permit_id p && is_none p.consumed_at)
                (λ p. record p { consumed_at = some ts }) s.execution_permits (λ _. refl)
                (λ x hx hit.
                  subst (λ y. PermitExtends y (record y { consumed_at = some ts }))
                    (found_again j x hx hit) (consumed-Extends p ts live));
          intents = (Advances-refl s).intents;
          owners = (Advances-refl s).owners;
          ledger = (Advances-refl s).ledger;
          reservations = (Advances-refl s).reservations;
        }

  controlled-Advances :
      is_some p.voided_at ≡ false
      → (row : GrantRow) (ts : ℕ) (rs : List PermitReason)
      → Ensures (λ _ t. Advances s t) (consume_controlled s q row ts rs)
  controlled-Advances live row ts [] = commit_consumption-Advances live row ts
  controlled-Advances live row ts (r ∷ rs) = Advances-refl s

  consume_row-Advances : (ts : ℕ) → Ensures (λ _ t. Advances s t) (consume_row s q p ts)
  consume_row-Advances ts =
      Ensures-if (λ _. Advances s) (not (binds q p)) _ _ (λ _. Advances-refl s)
        λ _.
          Ensures-if (λ _. Advances s) (is_some p.consumed_at) _ _ (λ _. Advances-refl s)
            λ _.
              Ensures-if (λ _. Advances s) (is_some p.voided_at) _ _ (λ _. Advances-refl s)
                λ live.
                  Ensures-if (λ _. Advances s) (exists (supersedes p) s.execution_permits) _ _
                    (λ _. Advances-refl s)
                    λ _. granted live (find_grant s q.grant_id q.grant_version)
    where
      granted :
          is_some p.voided_at ≡ false
          → (o : Option GrantRow) → Ensures (λ _ t. Advances s t) (consume_granted s q ts o)
      granted live none = Advances-refl s
      granted live (some row) = controlled-Advances live row ts (control_reasons s q row)

pub consume_execution_permit-Advances :
    (s : Store) (q : Presented) (ts : ℕ)
    → Ensures (λ _ t. Advances s t) (consume_execution_permit s q ts)
unfolding consume_execution_permit
consume_execution_permit-Advances s q ts =
    looked_up (find (at_permit q.permit_id) s.execution_permits) refl
  where
    looked_up :
        (o : Option PermitRow)
        → find (at_permit q.permit_id) s.execution_permits ≡ o
        → Ensures (λ _ t. Advances s t) (consume_found s q ts o)
    looked_up none e = Advances-refl s
    looked_up (some p) e = consume_row-Advances s q p e ts
