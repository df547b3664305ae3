-- ===== src/Store/Progress.antt =====
-- How the rows of the datastore develop: what no operation of the store takes back.
pub mod Owners
pub mod Rows
pub mod Grants
pub mod Controls
pub mod Permits
pub mod Usage
pub mod Lifecycle
pub mod Registration
