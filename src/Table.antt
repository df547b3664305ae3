-- ===== src/Table.antt =====
-- A table of the datastore (`faar/store.py`) is the list of its rows, oldest first, which is the
-- order of SQLite's rowid. The functions are the statements that the store runs: SELECT of one row
-- or of all, UPDATE, DELETE, COUNT, SUM and MAX.
mod Defs
pub mod Find
pub mod Rows
pub mod Sums
pub mod Kept
unfoldable pub use Defs.{find, exists, update, select, count, sum, max_of, All}
