-- ===== src/Store/Chain.antt =====
-- What holds of the evidence chains.
pub mod Rows
pub mod Binding
pub mod Heads
pub mod Growth
