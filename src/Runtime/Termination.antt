-- ===== src/Runtime/Termination.antt =====
-- The nested reconciliations are bounded by the attempts that a grant allows.
pub mod Keeps
pub mod Begin
pub mod Absence
pub mod Judgement
pub mod Rows
pub mod Reconciliation
pub mod Processing
