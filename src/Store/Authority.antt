-- ===== src/Store/Authority.antt =====
-- What holds of the authority that the store hands out, in every run.
pub mod Consumption
pub mod Completeness
pub mod Death
pub mod Fencing
pub mod Revocation
pub mod Supersession
pub mod Stops
pub mod Reported
