-- ===== src/Settlement/Quorum.antt =====
-- QuorumSettlementVerifier.verify: the votes of independent sources on one settlement fact. The
-- sources are the caller's: a source answers with a record, or raises (`none`). Evidence is left out.
use faar_runtime.Common.{
  ℕ, ◌+◌, Bool, true, false, not, ◌&&◌, Option, none, some, List, [], ◌∷◌, ltb, ◌==◌, if◌then◌else◌,
}
use faar_runtime.Money.Rounding.{Decimal, same_decimal, normalize}
use faar_runtime.Models.Enums.{SettlementStatus}

-- `none` is SettlementStatus.NONE
pub record SettlementRecord : Type 0 where
  pub status : SettlementStatus
  pub effect_id : Option ℕ
  pub amount_usd : Option Decimal
  pub authoritative : Bool
  pub verified_request_hash : Option ℕ

-- What the sources vote on. An amount is a number in units of 10^-100, so its textual scale does not
-- matter.
pub record Fact : Type 0 where
  pub status : SettlementStatus
  pub effect_id : Option ℕ
  pub amount : Option Decimal

-- The number of a status, by which statuses are compared.
abbrev pub status_code : SettlementStatus → ℕ
status_code SettlementStatus.none = 0
status_code SettlementStatus.unknown = 1
status_code SettlementStatus.confirmed = 2
status_code SettlementStatus.partially_filled = 3
status_code SettlementStatus.finalized = 4
status_code SettlementStatus.cancelled = 5
status_code SettlementStatus.contradictory = 6

abbrev pub same_text : Option ℕ → Option ℕ → Bool
same_text none none = true
same_text (some a) (some b) = a == b
same_text _ _ = false

abbrev pub same_amount : Option Decimal → Option Decimal → Bool
same_amount none none = true
same_amount (some a) (some b) = same_decimal a b
same_amount _ _ = false

-- k[1], k[2]: the effect and the amount
abbrev pub same_effect : Fact → Fact → Bool
same_effect f g = same_text f.effect_id g.effect_id && same_amount f.amount g.amount

abbrev pub same_fact : Fact → Fact → Bool
same_fact f g = status_code f.status == status_code g.status && same_effect f g

abbrev pub normalized : Option Decimal → Option Decimal
normalized none = none
normalized (some z) = some (normalize z)

-- _fact: the amount is rounded to 28 digits, as `normalize` of a decimal does.
unfoldable pub fact_of : SettlementRecord → Fact
unfolding normalize
fact_of r = record { status = r.status; effect_id = r.effect_id; amount = normalized r.amount_usd }

-- A source that raises counts as one that does not know.
abbrev pub observed : Option SettlementRecord → SettlementRecord
observed (some r) = r
observed none = record {
  status = SettlementStatus.unknown;
  effect_id = none;
  amount_usd = none;
  authoritative = false;
  verified_request_hash = none;
}

pub record Count : Type 0 where
  pub fact : Fact
  pub votes : ℕ

-- counts[fact] = counts.get(fact, 0) + 1
unfoldable pub vote : Fact → List Count → List Count
vote f [] = record { fact = f; votes = 1 } ∷ []
vote f (c ∷ cs) =
    if same_fact f c.fact then record c { votes = c.votes + 1 } ∷ cs else c ∷ vote f cs

abbrev pub is_bound : ℕ → SettlementRecord → Bool
is_bound expected r = same_text r.verified_request_hash (some expected)

-- The loop over the sources: the counts, and the records bound to another request.
unfoldable pub tally : ℕ → List Count → ℕ → List (Option SettlementRecord) → List Count × ℕ
unfolding vote fact_of
tally expected cs mismatches [] = (cs, mismatches)
tally expected cs mismatches (a ∷ as_) =
    let r = observed a in
    let skipped = tally expected cs mismatches as_ in
    let mismatched = tally expected cs (mismatches + 1) as_ in
    let voted = tally expected (vote (fact_of r) cs) mismatches as_ in
    if not r.authoritative then skipped else if not (is_bound expected r) then mismatched else voted

abbrev pub is_confirmed : Fact → Bool
is_confirmed f = status_code f.status == 2

abbrev pub is_finalized : Fact → Bool
is_finalized f = status_code f.status == 4

-- CONFIRMED and FINALIZED of the same effect and amount are no contest: finality is kept if it has
-- the quorum by itself, and the weaker status carries all votes otherwise.
abbrev pub merged : ℕ → Count → Count → List Count
merged quorum final confirmed =
    if ltb final.votes quorum
    then record confirmed { votes = final.votes + confirmed.votes } ∷ []
    else final ∷ []

abbrev pub merge_two : ℕ → Count → Count → List Count
merge_two quorum a b =
    if same_effect a.fact b.fact && (is_confirmed a.fact && is_finalized b.fact)
    then merged quorum b a
    else if same_effect a.fact b.fact && (is_finalized a.fact && is_confirmed b.fact)
    then merged quorum a b
    else a ∷ b ∷ []

unfoldable pub reconcile_finality : ℕ → List Count → List Count
reconcile_finality quorum (a ∷ b ∷ []) = merge_two quorum a b
reconcile_finality quorum cs = cs

pub data Settlement : Type 0 where
  contested : Settlement
  no_facts : Settlement
  quorum_not_reached : Fact → ℕ → Settlement
  settled : Fact → ℕ → Settlement

abbrev pub decided : ℕ → List Count → Settlement
decided quorum [] = no_facts
decided quorum (c ∷ []) =
    if ltb c.votes quorum then quorum_not_reached c.fact c.votes else settled c.fact c.votes
decided quorum (a ∷ b ∷ cs) = contested

-- With a record bound to another request nothing is reconciled, and the answer is contested.
unfoldable pub verify : ℕ → ℕ → List (Option SettlementRecord) → Settlement
unfolding tally reconcile_finality
verify quorum expected answers =
    let (cs, mismatches) = tally expected [] 0 answers in
    if not (mismatches == 0) then contested else decided quorum (reconcile_finality quorum cs)
