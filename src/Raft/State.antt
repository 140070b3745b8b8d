-- ===== src/Raft/State.antt =====
-- raftCore/include/raft.h, ApplyMsg.h and the messages of raftRpcPro/raftRPC.proto: the state of a
-- node and what it sends. Terms, indexes and node numbers are never negative and are natural
-- numbers; `voted_for`, `next_index` and the hint of a reply, which can be, are integers. Times are
-- numbers that the clock hands in.
use kv_my.Common.{ℕ, Bool, true, false, List}
use kv_my.Common.Int.{ℤ}
use kv_my.Common.Bytes.{Bytes}
use kv_my.Persister.{Persister}

pub record LogEntry : Type 0 where
  pub command : Bytes
  pub log_term : ℕ
  pub log_index : ℕ

pub data Status : Type 0 where
  follower candidate leader : Status

pub record ApplyMsg : Type 0 where
  pub command_valid : Bool
  pub command : Bytes
  pub command_index : ℤ
  pub snapshot_valid : Bool
  pub snapshot : Bytes
  pub snapshot_term : ℤ
  pub snapshot_index : ℤ

-- `peers` is the length of `m_peers`, the stubs of the nodes; `apply_chan` is the shared queue.
pub record Raft : Type 0 where
  pub peers : ℕ
  pub persister : Persister
  pub me : ℕ
  pub current_term : ℕ
  pub voted_for : ℤ
  pub logs : List LogEntry
  pub commit_index : ℕ
  pub last_applied : ℕ
  pub next_index : List ℤ
  pub match_index : List ℕ
  pub status : Status
  pub apply_chan : List ApplyMsg
  pub last_reset_election_time : ℕ
  pub last_reset_hear_beat_time : ℕ
  pub last_snapshot_include_index : ℕ
  pub last_snapshot_include_term : ℕ

pub data AppState : Type 0 where
  disconnected app_normal : AppState

pub data VoteState : Type 0 where
  killed voted expire normal : VoteState

pub record AppendEntriesArgs : Type 0 where
  pub term : ℕ
  pub leader_id : ℕ
  pub prev_log_index : ℕ
  pub prev_log_term : ℕ
  pub entries : List LogEntry
  pub leader_commit : ℕ

pub record AppendEntriesReply : Type 0 where
  pub term : ℕ
  pub success : Bool
  pub update_next_index : ℤ
  pub app_state : AppState

pub record RequestVoteArgs : Type 0 where
  pub term : ℕ
  pub candidate_id : ℕ
  pub last_log_index : ℕ
  pub last_log_term : ℕ

pub record RequestVoteReply : Type 0 where
  pub term : ℕ
  pub vote_granted : Bool
  pub vote_state : VoteState

pub record InstallSnapshotRequest : Type 0 where
  pub leader_id : ℕ
  pub term : ℕ
  pub last_snapshot_include_index : ℕ
  pub last_snapshot_include_term : ℕ
  pub snapshot : Bytes

pub record InstallSnapshotResponse : Type 0 where
  pub term : ℕ

-- `m_status == Leader`.
abbrev pub is_leader : Status → Bool
is_leader leader = true
is_leader follower = false
is_leader candidate = false
