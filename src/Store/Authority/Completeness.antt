-- ===== src/Store/Authority/Completeness.antt =====
-- A permit that meets the conditions of the consumption is consumed.
use faar_runtime.Common.{
  ℕ, ◌+◌, ◌≡◌, refl, ap, ◌∙◌, true, false, Option, none, some, [], is_some, is_none, ==_iff,
}
use faar_runtime.Common.Result.{Result, ok, ◌>>=◌}
use faar_runtime.Anchor.{Anchor}
use faar_runtime.Store.Schema.{StoreError, GrantRow, PermitRow, Store}
use faar_runtime.Store.Access.{Tx, anchor_record}
use faar_runtime.Store.Permits.{
  consume_execution_permit, Presented, Consumption, consumed, control_reasons, consume_controlled,
  consume_granted, consume_found,
}
use faar_runtime.Store.Authority.Consumption.{IsGranted, IsAccepted}

is_none_lem : (o : Option ℕ) → is_none o ≡ true → is_some o ≡ false
is_none_lem none h = refl
is_none_lem (some x) h = cc

granted-nil :
    (s : Store) (q : Presented) (row : GrantRow) → IsGranted s q row → control_reasons s q row ≡ []
granted-nil s q row g =
    rw
      (
        (==_iff row.principal_id q.principal_id).1 g.principal,
        g.active,
        (==_iff row.runtime_epoch q.grant_epoch).1 g.epoch,
        g.not_halted,
        g.anchor_present,
        g.not_regressed,
      )
      refl

abbrev with_mark : Result StoreError (Option Anchor) → (Option Anchor → Store) → Tx Consumption
with_mark m f = m >>= λ x. ok (consumed, f x)

commits_with :
    (m : Result StoreError (Option Anchor)) (b : Option Anchor)
    → m ≡ ok b
    → (f : Option Anchor → Store) → (t : Store) × (with_mark m f ≡ ok (consumed, t))
commits_with m b h f = (f b, ap (λ r. with_mark r f) h)

-- A permit that meets these conditions is consumed, if the anchor takes the mark.
pub consumption_complete :
    (s : Store) (q : Presented) (ts : ℕ) (p : PermitRow) (a : IsAccepted s q p) (b : Option Anchor)
    → anchor_record s.anchor q.grant_id q.grant_version
        (record { epoch = q.grant_epoch; fence = a.row.fence_counter + 1 })
      ≡ ok b
    → (t : Store) × (consume_execution_permit s q ts ≡ ok (consumed, t))
unfolding consume_execution_permit
consumption_complete s q ts p a b h =
    let (t, committed) = commits_with (anchor_record s.anchor q.grant_id q.grant_version _) b h _ in
    (
      t,
      ap (consume_found s q ts) a.recorded
          ∙ (rw
              (
                a.bound,
                is_none_lem p.consumed_at a.unconsumed,
                is_none_lem p.voided_at a.unvoided,
                a.last,
              )
              refl)
          ∙ ap (consume_granted s q ts) a.provisioned
          ∙ ap (consume_controlled s q a.row ts) (granted-nil s q a.row a.granted)
          ∙ committed,
    )
