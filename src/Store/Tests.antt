-- ===== src/Store/Tests.antt =====
-- Runs of the store on concrete data.
mod Fixtures
mod Authority
mod Controls
mod Life
mod Records
