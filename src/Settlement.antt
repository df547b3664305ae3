-- ===== src/Settlement.antt =====
-- The quorum of settlement verifiers (`QuorumSettlementVerifier` of `faar/settlement.py`).
pub mod Quorum
pub mod Votes
pub mod Finality
pub mod Agreement
pub mod Unanimity
mod Tests
