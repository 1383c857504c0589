-- ===== src/Common.antt =====
-- knight/src/common, and the ordered map of the standard library.
pub mod Config
pub mod Queue
pub mod SortedMap
pub mod Worker
mod Tests
