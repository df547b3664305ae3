-- ===== src/Anchor.antt =====
-- The external authority anchor (`faar/anchor.py`): the highest (runtime_epoch, fence_counter) ever
-- committed for each grant version, kept outside the datastore. The state is that of
-- InMemoryAuthorityAnchor; FileAuthorityAnchor keeps the same marks in a file that may fail to be
-- read or written, which the environment decides for each key.
mod Defs
pub mod Order
pub use Defs.{Mark, AnchorKey, grant_key, exposure_caps, Anchor, AnchorError, unavailable, mismatch}
unfoldable pub use Defs.{
  same_key, lt_mark, max_mark, regressed, high_water, record_mark, reset_mark, bind_identity,
}
