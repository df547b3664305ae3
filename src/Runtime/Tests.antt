-- ===== src/Runtime/Tests.antt =====
-- A worker on concrete data.
mod Fixtures
mod Worker
mod Theorems
mod Permits
mod Gates
