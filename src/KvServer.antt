-- ===== src/KvServer.antt =====
-- raftCore/kvServer.cpp: the server between its clients and its Raft node.
pub mod State
pub mod Execute
pub mod Handlers
pub mod View
pub mod Keys
pub mod CallLog
pub mod Returns
pub mod Replays
pub mod CallMap
pub mod Commands
pub mod Requests
pub mod Tests
