-- ===== src/Raft/Node/Form.antt =====
-- The invariant of a node: its log follows its snapshot, and its indexes lie within the log.
pub mod Steps
pub mod Leaders
pub mod Snapshots
pub mod Followers
use kv_my.Common.{ℕ, ◌+◌, ◌-◌, ◌≤◌, ◌<◌, ◌≡◌, ◌⊎◌, length}
use kv_my.Raft.State.{Raft}
use kv_my.Raft.Log.Indexing.{Contiguous, IsContiguous}
use kv_my.Raft.Append.Merge.{Agrees}
use kv_my.Raft.Node.{
  Call, append_entries_rpc, request_vote_rpc, install_snapshot_rpc, election_timeout,
  heart_beat_timeout, vote_reply, append_reply, send_snapshot, snapshot_reply, start_command,
  apply_committed, take_snapshot, cond_install, update_commit,
}

pub record WellFormed (r : Raft) : Type 0 where
  pub contiguous : IsContiguous r
  pub committed : r.commit_index ≤ r.last_snapshot_include_index + length r.logs
  pub applied : r.last_applied ≤ r.last_snapshot_include_index + length r.logs
  pub snapshot_applied : r.last_snapshot_include_index ≤ r.last_applied
  pub nexts : length r.next_index ≡ r.peers
  pub matches : length r.match_index ≡ r.peers

-- What a call brings: entries that follow their previous index and agree with the log (Raft's log
-- matching), and a snapshot that CondInstallSnapshot refuses or that covers the log.
abbrev pub Legit : Raft → Call → Type 0
Legit r (append_entries_rpc args reply now) =
    Contiguous args.prev_log_index args.entries
    × Agrees r.logs (args.prev_log_index - r.last_snapshot_include_index) args.entries
Legit r (cond_install term index bytes) =
    (index ≤ r.commit_index) ⊎ (r.last_snapshot_include_index + length r.logs < index)
Legit r call = Unit
