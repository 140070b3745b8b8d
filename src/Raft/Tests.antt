-- ===== src/Raft/Tests.antt =====
-- A concrete codec, a concrete node, and the theorems at it.
pub mod Codec
pub mod Timing
mod Elections
mod Replication
mod Snapshots
pub mod Calls
use kv_my.Common.{ℕ, List, [], ◌∷◌, true, false}
use kv_my.Common.Int.{pos, minus_one}
use kv_my.Persister.{Persister}
use kv_my.Raft.State.{
  Raft, LogEntry, follower, leader, RequestVoteArgs, RequestVoteReply, normal, killed,
  AppendEntriesArgs, AppendEntriesReply, disconnected, app_normal, InstallSnapshotRequest,
}

abbrev pub entry : ℕ → ℕ → LogEntry
entry index term = record { command = 100 ∷ []; log_term = term; log_index = index }

abbrev pub files : Persister
files = record {
  raft_state_file = [];
  snapshot_file = [];
  raft_state_buffer = [];
  snapshot_buffer = [];
  raft_state_out_stream = true;
  snapshot_out_stream = true;
  raft_state_size = 0;
}

-- Three nodes; entries 1 to 3 of terms 1, 1 and 2, of which the first is committed.
abbrev pub node : Raft
node = record {
  peers = 3;
  persister = files;
  me = 0;
  current_term = 2;
  voted_for = minus_one;
  logs = entry 1 1 ∷ entry 2 1 ∷ entry 3 2 ∷ [];
  commit_index = 2;
  last_applied = 0;
  next_index = pos 4 ∷ pos 4 ∷ pos 4 ∷ [];
  match_index = 0 ∷ 3 ∷ 0 ∷ [];
  status = follower;
  apply_chan = [];
  last_reset_election_time = 0;
  last_reset_hear_beat_time = 0;
  last_snapshot_include_index = 0;
  last_snapshot_include_term = 0;
}

abbrev pub chief : Raft
chief = record node { status = leader; voted_for = pos 0 }

abbrev pub vote_args : RequestVoteArgs
vote_args = record { term = 3; candidate_id = 1; last_log_index = 3; last_log_term = 2 }

abbrev pub vote_reply_of : ℕ → RequestVoteReply
vote_reply_of t = record { term = t; vote_granted = true; vote_state = killed }

abbrev pub entries_args : AppendEntriesArgs
entries_args = record {
  term = 3;
  leader_id = 1;
  prev_log_index = 3;
  prev_log_term = 2;
  entries = entry 4 3 ∷ [];
  leader_commit = 3;
}

abbrev pub entries_reply : ℕ → AppendEntriesReply
entries_reply t = record {
  term = t;
  success = false;
  update_next_index = pos 0;
  app_state = app_normal;
}

abbrev pub snapshot_args : InstallSnapshotRequest
snapshot_args = record {
  leader_id = 1;
  term = 3;
  last_snapshot_include_index = 3;
  last_snapshot_include_term = 2;
  snapshot = 77 ∷ [];
}
