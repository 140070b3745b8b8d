-- ===== src/Raft.antt =====
-- raftCore/raft.cpp: one Raft node, handler by handler.
pub mod Tests
pub mod State
pub mod Log
pub mod Persist
pub mod Peers
pub mod Vote
pub mod Append
pub mod Leader
pub mod Snapshot
pub mod Apply
pub mod Tickers
pub mod Node
