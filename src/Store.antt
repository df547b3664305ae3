-- ===== src/Store.antt =====
-- The datastore (`faar/store.py`).
pub mod Schema
pub mod Access
pub mod Grants
pub mod Fences
pub mod Controls
pub mod Permits
pub mod Usage
pub mod Evidence
pub mod Lifecycle
pub mod Ensures
pub mod Progress
pub mod Steps
pub mod Authority
pub mod Intents
pub mod Budget
pub mod Restore
pub mod Chain
pub mod Tests
