-- ===== src/Store/Progress/Usage.antt =====
-- The operations on reservations develop their rows: reserve_usage, commit_usage, release_usage
-- and claim_permit_risk_state.
use faar_runtime.Common.{
  ℕ, ◌/◌, ◌*◌, ◌≡◌, refl, Bool, true, false, not, ◌&&◌, ◌||◌, Option, none, some, List, [], ◌∷◌,
  arith, ◌==◌, if◌then◌else◌,
}
use faar_runtime.Table.{find, exists}
use faar_runtime.Table.Kept.{Kept, Kept-append, Kept-update}
use faar_runtime.Models.Grant.{CapabilityGrant, Intent, RiskSnapshot}
use faar_runtime.Store.Schema.{Reservation, RiskClaim, UsageStatus, committed, released, Store}
use faar_runtime.Store.Usage.{
  at_reservation, is_held, settle_usage, commit_usage, release_usage, reserve_usage, reserve_new,
  reserve_amount, reserve_existing, claim_clash, insert_usage, reserve_reasons, UsageReason,
  Admission, reservation_amount, microseconds, claim_permit_risk_state, verify_usage_held,
  claim_found, at_risk_claim, is_not_monotonic,
}
use faar_runtime.Store.Ensures.{Ensures, Ensures-if}
use faar_runtime.Store.Progress.Rows.{
  ReservationExtends, ReservationExtends-refl, Advances, Advances-refl,
}

settled-Extends :
    (r : Reservation) (status : UsageStatus)
    → is_held r.status ≡ true
    → ReservationExtends r (record r { status = status })
settled-Extends r status h = ground arith

and_right : (a b : Bool) → (a && b) ≡ true → b ≡ true
and_right a b h = ground arith

pub settle_usage-Kept :
    (status : UsageStatus) (i : ℕ) (rows : List Reservation) (j : ℕ)
    → Kept (at_reservation j) ReservationExtends rows (settle_usage status i rows)
settle_usage-Kept status i rows j =
    Kept-update ReservationExtends ReservationExtends-refl (at_reservation j)
      (λ r. at_reservation i r && is_held r.status) (λ r. record r { status = status }) rows
      (λ _. refl)
      (λ x _ hit. settled-Extends x status (and_right (at_reservation i x) (is_held x.status) hit))

-- Only the reservations change.
usage_changed :
    (s : Store) (rows : List Reservation)
    → ((i : ℕ) → Kept (at_reservation i) ReservationExtends s.usage_reservations rows)
    → Advances s (record s { db = record s.db { usage_reservations = rows } })
usage_changed s rows kept = record {
  grants = (Advances-refl s).grants;
  permits = (Advances-refl s).permits;
  intents = (Advances-refl s).intents;
  owners = (Advances-refl s).owners;
  ledger = (Advances-refl s).ledger;
  reservations = kept;
}

pub commit_usage-Advances : (s : Store) (i : ℕ) → Advances s (commit_usage s i)
unfolding commit_usage
commit_usage-Advances s i = usage_changed s _ (settle_usage-Kept committed i s.usage_reservations)

pub release_usage-Advances : (s : Store) (i : ℕ) → Advances s (release_usage s i)
unfolding release_usage
release_usage-Advances s i = usage_changed s _ (settle_usage-Kept released i s.usage_reservations)

module _ (s : Store) (i : Intent) (g : CapabilityGrant) (risk : RiskSnapshot) where
  insert_usage-Advances : (amount now day : ℕ) → Advances s (insert_usage s i g risk amount now day)
  insert_usage-Advances amount now day = record {
    grants = (Advances-refl s).grants;
    permits = (Advances-refl s).permits;
    intents = (Advances-refl s).intents;
    owners = (Advances-refl s).owners;
    ledger = (Advances-refl s).ledger;
    reservations = λ j.
        Kept-append ReservationExtends ReservationExtends-refl (at_reservation j)
          s.usage_reservations _;
  }

  reserve_new-Advances :
      (amount now day : ℕ) (rs : List UsageReason)
      → Ensures (λ _ t. Advances s t) (reserve_new s i g risk amount now day rs)
  reserve_new-Advances amount now day [] =
      Ensures-if (λ _. Advances s) (exists (claim_clash i g risk) s.risk_claims) _ _ (λ _. tt)
        (λ _. insert_usage-Advances amount now day)
  reserve_new-Advances amount now day (r ∷ rs) = Advances-refl s

  reserve_existing-Advances :
      (amount now day : ℕ) (o : Option Reservation)
      → Ensures (λ _ t. Advances s t) (reserve_existing s i g risk amount now day o)
  reserve_existing-Advances amount now day none =
      reserve_new-Advances amount now day (reserve_reasons s i g risk amount now day)
  reserve_existing-Advances amount now day (some old) =
      Ensures-if (λ _. Advances s) (old.principal_id == i.principal_id) _ _ (λ _. Advances-refl s)
        (λ _. Advances-refl s)

  reserve_amount-Advances :
      (now : ℕ) (o : Option ℕ) → Ensures (λ _ t. Advances s t) (reserve_amount s i g risk now o)
  reserve_amount-Advances now none = Advances-refl s
  reserve_amount-Advances now (some amount) =
      reserve_existing-Advances amount (now / microseconds) (now / (86400 * microseconds))
        (find (at_reservation i.intent_id) s.usage_reservations)

  pub reserve_usage-Advances :
      (now : ℕ) → Ensures (λ _ t. Advances s t) (reserve_usage s i g risk now)
  unfolding reserve_usage
  reserve_usage-Advances now = reserve_amount-Advances now (reservation_amount i)

  claims_changed :
      (claims : List RiskClaim)
      → Advances s (record s { db = record s.db { permit_risk_claims = claims } })
  claims_changed claims = record {
    grants = (Advances-refl s).grants;
    permits = (Advances-refl s).permits;
    intents = (Advances-refl s).intents;
    owners = (Advances-refl s).owners;
    ledger = (Advances-refl s).ledger;
    reservations = (Advances-refl s).reservations;
  }

  Advances-if :
      (b : Bool) (x y : Admission × Store)
      → Advances s x.1
      → Advances s y.1
      → Advances s (if b then x else y).1
  Advances-if true x y h k = h
  Advances-if false x y h k = k

  claim_found-Advances : (o : Option RiskClaim) → Advances s (claim_found s i g risk o).1
  claim_found-Advances none =
      Advances-if (is_not_monotonic s g risk) _ _ (Advances-refl s) (claims_changed _)
  claim_found-Advances (some c) =
      Advances-if (not (c.principal_id == i.principal_id) || not (c.intent_id == i.intent_id)) _ _
        (Advances-refl s) (Advances-refl s)

  pub claim_permit_risk_state-Advances : Advances s (claim_permit_risk_state s i g risk).1
  unfolding claim_permit_risk_state
  claim_permit_risk_state-Advances =
      Advances-if (not (verify_usage_held s i g)) _ _ (Advances-refl s)
        (claim_found-Advances (find (at_risk_claim g risk) s.permit_risk_claims))
