-- ===== src/Permits.antt =====
-- The permits of `faar/permits.py`: their issuance by ConstrainedPermitAuthority.
pub mod Issue
pub mod Effects
pub mod Justified
