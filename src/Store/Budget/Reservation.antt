-- ===== src/Store/Budget/Reservation.antt =====
-- A reservation that is admitted: the limits of the grant and the caps of the operator hold with it
-- counted.
use faar_runtime.Common.{
  ℕ, ◌+◌, ◌-◌, ◌/◌, ◌*◌, ◌≤◌, ◌<◌, ◌≡◌, refl, Bool, true, false, ◌&&◌, Option, none, some, List, [],
  ◌∷◌, ◌++◌, arith, leb, ltb, if◌then◌else◌,
}
use faar_runtime.Common.Result.{ok}
use faar_runtime.Table.{find, exists, All}
use faar_runtime.Money.Rounding.{add28}
use faar_runtime.Models.Grant.{CapabilityGrant, Intent, RiskSnapshot}
use faar_runtime.Store.Schema.{CapRow, Store}
use faar_runtime.Store.Ensures.{Ensures, Ensures-ok, Ensures-if}
use faar_runtime.Store.Usage.{
  reserve_usage, reserve_new, reserve_reasons, cap_reasons, reason_if, exceeds, caps_regressed,
  applies_to, velocity_exceeded, turnover, scope_turnover, action_velocity_count,
  turnover_window_seconds, microseconds, reservation_amount, at_reservation, is_claimed,
  is_not_monotonic, insert_usage, new_reservation, new_claim, claim_clash, Admission, admitted,
  rejected, UsageReason, exposure_cap_unreadable, exposure_cap_exceeded,
}
use faar_runtime.Store.Budget.Windows.{
  turnover-insert, scope_turnover-insert, action_velocity_count-insert,
}

-- The cap of the scope can be read, and the scope has moved at most as much in its window.
abbrev pub IsWithinCap : Store → ℕ → ℕ → CapRow → Type 0
IsWithinCap t p from c =
    applies_to p c ≡ true
    → (cap : ℕ) × (c.max_turnover_usd ≡ some cap) × (scope_turnover t c.scope p from ≤ cap)

-- The limits, at the second `now` of the day `day`.
pub record IsWithinBudget (s : Store) (i : Intent) (g : CapabilityGrant) (risk : RiskSnapshot)
    (amount now day : ℕ) (t : Store) : Type 0 where
  pub unclaimed : is_claimed s i g risk ≡ false
  pub monotonic : is_not_monotonic s g risk ≡ false
  pub within_turnover :
      (cap : ℕ)
      → g.limits.max_daily_turnover_usd ≡ some cap
      → i.principal_id ≡ g.principal_id
      → turnover t g (now - turnover_window_seconds) day ≤ cap
  pub caps_current : 0 < amount → caps_regressed s ≡ false
  pub within_caps :
      0 < amount
      → All (IsWithinCap t i.principal_id (now - turnover_window_seconds)) t.exposure_caps
  pub within_velocity :
      (cap window : ℕ)
      → g.limits.max_actions_per_window ≡ some cap
      → g.limits.action_window_seconds ≡ some window
      → 0 < window
      → action_velocity_count t g.grant_id g.principal_id (now - window) none ≤ cap
  pub reservations :
      t.usage_reservations ≡ s.usage_reservations ++ new_reservation i g amount now day ∷ []
  pub claims : t.risk_claims ≡ s.risk_claims ++ new_claim i g risk ∷ []

split_reason :
    (b : Bool) (r : UsageReason) (rest : List UsageReason)
    → reason_if b r ++ rest ≡ []
    → (b ≡ false) × (rest ≡ [])
split_reason b r rest h = ground arith

below : (cap total bound : ℕ) → total ≤ bound → ltb cap bound ≡ false → total ≤ cap
below cap total bound le h = ground arith

under_cap :
    (total bound : ℕ) (o : Option ℕ) (cap : ℕ)
    → o ≡ some cap
    → total ≡ bound
    → exceeds bound o ≡ false
    → total ≤ cap
under_cap total bound none cap e le h = cc
under_cap total bound (some m) cap e le h = ground arith

window_start : (now : ℕ) → leb (now - turnover_window_seconds) now ≡ true
window_start now = ground arith

velocity_of :
    (s : Store) (g : CapabilityGrant) (now cap window : ℕ)
    → g.limits.max_actions_per_window ≡ some cap
    → g.limits.action_window_seconds ≡ some window
    → velocity_exceeded s g now ≡ false
    → (ltb 0 window
        && ltb cap (action_velocity_count s g.grant_id g.principal_id (now - window) none + 1))
      ≡ false
velocity_of s g now cap window ec ew h =
    by_limits g.limits.max_actions_per_window g.limits.action_window_seconds ec ew h
  where
    count_at : ℕ → ℕ
    count_at w = action_velocity_count s g.grant_id g.principal_id (now - w) none + 1

    by_limits :
        (o u : Option ℕ)
        → o ≡ some cap
        → u ≡ some window
        → (elim o [
          | none ↦ false
          | some c ↦ elim u [ none ↦ false | some w ↦ ltb 0 w && ltb c (count_at w) ]
        ])
          ≡ false
        → (ltb 0 window && ltb cap (count_at window)) ≡ false
    by_limits o u eo eu h = rw (eo, eu) at h

split_list : {A : Type 0} (xs ys : List A) → xs ++ ys ≡ [] → (xs ≡ []) × (ys ≡ [])
split_list [] ys h = (refl, h)
split_list (x ∷ xs) ys h = cc

module _ (s : Store) (i : Intent) (g : CapabilityGrant) (risk : RiskSnapshot)
    (amount now day : ℕ) where
  caps-within :
      (from : ℕ) (cs : List CapRow)
      → leb from now ≡ true
      → 0 < amount
      → cap_reasons s i.principal_id amount from cs ≡ []
      → All (IsWithinCap (insert_usage s i g risk amount now day) i.principal_id from) cs
  unfolding cap_reasons
  caps-within from [] start le h = tt
  caps-within from (c ∷ cs) start le h =
      let (one, rest) =
        cap_step (applies_to i.principal_id c) c.max_turnover_usd
          (add28 (scope_turnover s c.scope i.principal_id from) amount)
          (scope_turnover (insert_usage s i g risk amount now day) c.scope i.principal_id from)
          (cap_reasons s i.principal_id amount from cs)
          (scope_turnover-insert s i g risk amount now day c from start) h in
      (one, caps-within from cs start le rest)
    where
      cap_step :
          (b : Bool) (o : Option ℕ) (sum new : ℕ) (more : List UsageReason)
          → new ≡ sum
          → (if b
              then elim o [
                | none ↦ exposure_cap_unreadable ∷ []
                | some cap ↦
                    if leb cap 0
                    then exposure_cap_unreadable ∷ []
                    else if leb amount 0
                    then more
                    else if ltb cap sum
                    then exposure_cap_exceeded ∷ []
                    else more
              ]
              else more)
            ≡ []
          → (b ≡ true → (cap : ℕ) × (o ≡ some cap) × (new ≤ cap)) × (more ≡ [])
      cap_step false o old new more grows h = ((λ e. cc), h)
      cap_step true none sum new more grows h = cc
      cap_step true (some cap) sum new more grows h =
          let (fits, rest) = fits_cap cap h in ((λ _. (cap, refl, fits)), rest)
        where
          fits_cap :
              (cap : ℕ)
              → (if leb cap 0
                  then exposure_cap_unreadable ∷ []
                  else if leb amount 0
                  then more
                  else if ltb cap sum
                  then exposure_cap_exceeded ∷ []
                  else more)
                ≡ []
              → (new ≤ cap) × (more ≡ [])
          fits_cap cap h = ground arith

  reasons-IsWithinBudget :
      reserve_reasons s i g risk amount now day ≡ []
      → IsWithinBudget s i g risk amount now day (insert_usage s i g risk amount now day)
  unfolding reserve_reasons
  reasons-IsWithinBudget h =
      let (unclaimed, h₁) = split_reason (is_claimed s i g risk) _ _ h in
      let (monotonic, h₂) = split_reason (is_not_monotonic s g risk) _ _ h₁ in
      let (fits, h₃) =
        split_reason
          (exceeds (add28 (turnover s g (now - turnover_window_seconds) day) amount)
            g.limits.max_daily_turnover_usd)
          _ _ h₂ in
      let (current, h₄) = split_reason (ltb 0 amount && caps_regressed s) _ _ h₃ in
      let (capped, h₅) =
        split_list
          (cap_reasons s i.principal_id amount (now - turnover_window_seconds) s.exposure_caps) _
          h₄ in
      let slow = no_reason (velocity_exceeded s g now) _ h₅ in
      record {
        unclaimed = unclaimed;
        monotonic = monotonic;
        within_turnover = λ cap e own.
            under_cap _ _ g.limits.max_daily_turnover_usd cap e
              (turnover-insert s i g risk amount now day (now - turnover_window_seconds)
                (window_start now) own)
              fits;
        caps_current =
            λ le. second_false (ltb 0 amount) (caps_regressed s) (ltb_of amount le) current;
        within_caps = λ le.
            caps-within (now - turnover_window_seconds) s.exposure_caps (window_start now) le
              capped;
        within_velocity = λ cap window ec ew le.
            below cap _ _
              (action_velocity_count-insert s i g risk amount now day g.grant_id g.principal_id
                (now - window))
              (second_false (ltb 0 window) _ (ltb_of window le)
                (velocity_of s g now cap window ec ew slow));
        reservations = refl;
        claims = refl;
      }
    where
      no_reason : (b : Bool) (r : UsageReason) → reason_if b r ≡ [] → b ≡ false
      no_reason b r h = ground arith

      second_false : (a b : Bool) → a ≡ true → (a && b) ≡ false → b ≡ false
      second_false a b h k = ground arith

      ltb_of : (n : ℕ) → 0 < n → ltb 0 n ≡ true
      ltb_of n h = ground arith

  new-IsWithinBudget :
      (rs : List UsageReason)
      → reserve_reasons s i g risk amount now day ≡ rs
      → Ensures
          (λ (r : Admission) t. r ≡ admitted → IsWithinBudget s i g risk amount now day t)
          (reserve_new s i g risk amount now day rs)
  new-IsWithinBudget [] e =
      Ensures-if (λ (r : Admission) t. r ≡ admitted → IsWithinBudget s i g risk amount now day t)
        (exists (claim_clash i g risk) s.risk_claims) _ _ (λ _. tt)
        (λ _ _. reasons-IsWithinBudget e)
  new-IsWithinBudget (r ∷ rs) e = λ h. absurd (clash h)
    where
      clash : rejected (r ∷ rs) ≡ admitted → ⊥
      clash h = cc

-- A new reservation that is admitted, row by row: the risk state was claimed by no other intent and
-- is not older than the last, and with the reservation counted the grant is within its action
-- velocity and, if the intent is of the grant's principal, within its turnover of the trailing day.
-- For an amount above 0, the table of caps is not behind the anchor, and every cap of the operator
-- that applies to the principal is readable and held. Turnovers are sums in 28 significant digits.
-- The reservation and the claim of the risk state are the only rows written to their tables.
pub reservation-IsWithinBudget :
    (s t : Store) (i : Intent) (g : CapabilityGrant) (risk : RiskSnapshot) (now amount : ℕ)
    → reservation_amount i ≡ some amount
    → find (at_reservation i.intent_id) s.usage_reservations ≡ none
    → reserve_usage s i g risk now ≡ ok (admitted, t)
    → IsWithinBudget s i g risk amount (now / microseconds) (now / (86400 * microseconds)) t
unfolding reserve_usage
reservation-IsWithinBudget s t i g risk now amount known fresh h =
    Ensures-ok
      (λ r t.
        r ≡ admitted
        → IsWithinBudget s i g risk amount (now / microseconds) (now / (86400 * microseconds)) t)
      _ admitted t
      (new-IsWithinBudget s i g risk amount (now / microseconds) (now / (86400 * microseconds)) _
        refl)
      (rw (known, fresh) at h) refl
