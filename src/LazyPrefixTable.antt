-- ===== src/LazyPrefixTable.antt =====
-- dualmap/scheduler/utils/lazy_prefix_table.py: how deep a prefix is hashed, and when that grows.
pub mod Bucket
pub mod Table
pub mod Detector
pub mod Controller
mod Tests
