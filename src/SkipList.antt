-- ===== src/SkipList.antt =====
-- skipList/include/skipList.h: the skip list behind the key-value server.
pub mod State
pub mod Operations
pub mod Dumps
pub mod Shape
pub mod Walks
pub mod Descents
pub mod Relinks
pub mod Splices
pub mod Invariant
pub mod Entries
pub mod Linking
pub mod Levels
pub mod Insert
pub mod Unlinking
pub mod Delete
pub mod Refines
pub mod Traces
pub mod Tests
