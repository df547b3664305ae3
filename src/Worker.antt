-- ===== src/Worker.antt =====
-- A worker process of FAAR beside others: `FAARRuntime` and `ConstrainedPermitAuthority` reach the
-- datastore by single transactions, and between two of them other workers may commit.
pub mod Defs
pub mod Reasons
pub mod Judgement
pub mod Effects
pub mod Gives
