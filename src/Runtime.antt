-- ===== src/Runtime.antt =====
-- FAARRuntime of `faar/runtime.py`: process and reconcile over the transactions of the store.
pub mod Calls
pub mod Stops
pub mod Integrity
pub mod Submission
pub mod Outcomes
pub mod Absence
pub mod Judging
pub mod Reconciliation
pub mod Processing
pub mod Effects
pub mod History
pub mod Resubmission
pub mod Consumed
pub mod Attempts
pub mod Amounts
pub mod Authorization
pub mod Termination
mod Tests
