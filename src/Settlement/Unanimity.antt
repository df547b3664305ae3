-- ===== src/Settlement/Unanimity.antt =====
-- Sources that are silent, or raise, do not keep an agreed fact from being settled.
use faar_runtime.Common.{ℕ, ◌+◌, ◌≡◌, true, false, Option, List, [], ◌∷◌}
use faar_runtime.Settlement.Quorum.{SettlementRecord, Fact, observed, Count, is_bound}
use faar_runtime.Settlement.Votes.{reported}

-- `n` sources vote for the fact, and the others give no authoritative answer.
pub data IsUnanimous (expected : ℕ) (f : Fact) : List (Option SettlementRecord) → ℕ → Type 0 where
  nobody : IsUnanimous expected f [] 0
  silent :
      {a : Option SettlementRecord} {as_ : List (Option SettlementRecord)} {n : ℕ}
      → (observed a).authoritative ≡ false
      → IsUnanimous expected f as_ n
      → IsUnanimous expected f (a ∷ as_) n
  voter :
      {a : Option SettlementRecord} {as_ : List (Option SettlementRecord)} {n : ℕ}
      → (observed a).authoritative ≡ true
      → is_bound expected (observed a) ≡ true
      → reported (observed a) ≡ f
      → IsUnanimous expected f as_ n
      → IsUnanimous expected f (a ∷ as_) (n + 1)

abbrev votes_of : Fact → ℕ → Count
votes_of f k = record { fact = f; votes = k }
