-- ===== src/Store/Budget/Windows.antt =====
-- How a new reservation adds to the windows that reserve_usage sums over.
use faar_runtime.Common.{
  ℕ, ◌+◌, ◌≤◌, ◌≡◌, Bool, true, false, ◌&&◌, ◌||◌, leb, ◌==◌, ==_iff, eq_refl, arith, none,
  if◌then◌else◌,
}
use faar_runtime.Table.Sums.{count-append}
use faar_runtime.Money.Rounding.{add28, sum28-append}
use faar_runtime.Models.Grant.{CapabilityGrant, Intent, RiskSnapshot}
use faar_runtime.Store.Schema.{ControlScope, global, principal, CapRow, Store}
use faar_runtime.Store.Usage.{
  turnover, scope_turnover, action_velocity_count, in_turnover, in_scope_turnover,
  legacy_principal_id, in_pending_window, insert_usage, new_reservation,
}

at_most : (b : Bool) (total old n : ℕ) → total ≡ old + (if b then n else 0) → total ≤ old + n
at_most true total old n h = ground arith
at_most false total old n h = ground arith

module _ (s : Store) (i : Intent) (g : CapabilityGrant) (risk : RiskSnapshot)
    (amount now day : ℕ) where
  -- the new row counts from any instant up to `now`
  pub turnover-insert :
      (from : ℕ)
      → leb from now ≡ true
      → i.principal_id ≡ g.principal_id
      → turnover (insert_usage s i g risk amount now day) g from day
        ≡ add28 (turnover s g from day) amount
  unfolding turnover
  turnover-insert from le own =
      sum28-append (in_turnover g.grant_id g.principal_id from day) (λ r. r.amount_usd) 0
        s.usage_reservations (new_reservation i g amount now day)
        (counts (g.grant_id == g.grant_id) (i.principal_id == g.principal_id)
          (i.principal_id == legacy_principal_id) (leb from now) (eq_refl g.grant_id)
          ((==_iff i.principal_id g.principal_id).1 own) le)
    where
      counts :
          (a b c d : Bool)
          → a ≡ true
          → b ≡ true
          → d ≡ true
          → (a && ((b || c) && (true && (d || false)))) ≡ true
      counts a b c d ha hb hd = ground arith

  pub scope_turnover-insert :
      (c : CapRow) (from : ℕ)
      → leb from now ≡ true
      → scope_turnover (insert_usage s i g risk amount now day) c.scope i.principal_id from
        ≡ add28 (scope_turnover s c.scope i.principal_id from) amount
  unfolding scope_turnover
  scope_turnover-insert c from le =
      sum28-append (in_scope_turnover c.scope i.principal_id from) (λ r. r.amount_usd) 0
        s.usage_reservations (new_reservation i g amount now day) (counts c.scope)
    where
      counts :
          (scope : ControlScope)
          → in_scope_turnover scope i.principal_id from (new_reservation i g amount now day) ≡ true
      counts global = le
      counts (principal q) =
          both (i.principal_id == i.principal_id) (leb from now) (eq_refl i.principal_id) le
        where
          both : (a b : Bool) → a ≡ true → b ≡ true → (a && (true && b)) ≡ true
          both a b ha hb = ground arith

  pub action_velocity_count-insert :
      (k p from : ℕ)
      → action_velocity_count (insert_usage s i g risk amount now day) k p from none
        ≤ action_velocity_count s k p from none + 1
  unfolding action_velocity_count
  action_velocity_count-insert k p from =
      let row = new_reservation i g amount now day in
      add_left _ _ _ (
        at_most (in_pending_window k p from none row) _ _ 1
          (count-append (in_pending_window k p from none) s.usage_reservations row))
    where
      add_left : (a b d : ℕ) → b ≤ d + 1 → a + b ≤ a + d + 1
      add_left a b d h = omega arith
