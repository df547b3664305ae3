-- ===== src/Store/Restore.antt =====
-- What the anchor tells of a datastore that was restored from an older copy.
pub mod Marks
pub mod Raised
pub mod RaisedByStops
pub mod Untouched
pub mod Runs
pub mod Detection
