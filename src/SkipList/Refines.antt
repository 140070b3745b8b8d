-- ===== src/SkipList/Refines.antt =====
-- skipList/include/skipList.h: the operations of SkipList implement a sorted list of entries.
mod Splits
mod Search
mod Insert
mod Delete
mod Replace
mod Dump
mod Load
mod Destroy
pub use Search.*
pub use Insert.*
pub use Delete.*
pub use Replace.*
pub use Dump.*
pub use Load.*
pub use Destroy.*
