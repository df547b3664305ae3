-- ===== src/Runtime/Effects.antt =====
-- What a call of the runtime relates, and that its effect on the datastore is a run of the store's
-- operations.
pub mod Calls
pub mod Submission
pub mod Absence
pub mod Outcomes
pub mod Reconciliation
pub mod Processing
