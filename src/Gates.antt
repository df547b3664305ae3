-- ===== src/Gates.antt =====
-- The gates of `faar/gates.py` that judge an intent before it is reserved: the decision of the
-- authority and the risk snapshot.
pub mod Decisions
pub mod Capability
pub mod Authority
pub mod Risk
pub mod RiskBounds
pub mod CapabilityBounds
pub mod Unreasoned
pub mod Assets
pub mod Slippage
pub mod Completeness
mod Tests
