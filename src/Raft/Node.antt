-- ===== src/Raft/Node.antt =====
-- A Raft node as a state machine: each entry point of raftCore/raft.cpp that runs under the lock,
-- with what the network, the clock and the caller hand in.
pub mod Form
pub mod Saved
pub mod Terms
pub mod Votes
pub mod Rounds
pub mod Majorities
pub mod Elections
use kv_my.Common.{ℕ, ◌≡◌, Bool, Outcome, ok, ◌>>=◌}
use kv_my.Common.Bytes.{Bytes}
use kv_my.Raft.State.{
  Raft, AppendEntriesArgs, AppendEntriesReply, RequestVoteArgs, RequestVoteReply,
  InstallSnapshotRequest, InstallSnapshotResponse,
}
use kv_my.Raft.Persist.{RaftCodec}
use kv_my.Raft.Vote.{do_election, request_vote, send_request_vote}
use kv_my.Raft.Append.{append_entries}
use kv_my.Raft.Leader.{start, do_heart_beat, send_append_entries, leader_update_commit_index}
use kv_my.Raft.Snapshot.{
  snapshot, install_snapshot, cond_install_snapshot, snapshot_request, leader_send_snap_shot,
}
use kv_my.Raft.Apply.{applier_tick}

pub data Call : Type 0 where
  append_entries_rpc : AppendEntriesArgs → AppendEntriesReply → ℕ → Call
  request_vote_rpc : RequestVoteArgs → RequestVoteReply → ℕ → Call
  install_snapshot_rpc : InstallSnapshotRequest → InstallSnapshotResponse → ℕ → Call
  election_timeout : ℕ → Call
  heart_beat_timeout : ℕ → Call
  vote_reply : Bool → RequestVoteReply → ℕ → Call
  append_reply : ℕ → AppendEntriesArgs → Bool → AppendEntriesReply → ℕ → Call
  send_snapshot : Call
  snapshot_reply : ℕ → InstallSnapshotRequest → Bool → InstallSnapshotResponse → ℕ → Call
  start_command : Bytes → Call
  apply_committed : Call
  take_snapshot : ℕ → Bytes → Call
  cond_install : ℕ → ℕ → Bytes → Call
  update_commit : Call

module _ ⦃codec : RaftCodec⦄ where
  unfoldable pub step : Raft → Call → Outcome Raft
  step r (append_entries_rpc args reply now) = do (r', _) ← append_entries r args reply now; ok r'
  step r (request_vote_rpc args reply now) = do (r', _) ← request_vote r args reply now; ok r'
  step r (install_snapshot_rpc args reply now) = do
    done ← install_snapshot r args reply now
    ok done.0
  step r (election_timeout now) = ok (do_election r now).0
  step r (heart_beat_timeout now) = do (r', _) ← do_heart_beat r now; ok r'
  step r (vote_reply sent reply voted_num) = do
    done ← send_request_vote r sent reply voted_num
    ok done.0
  step r (append_reply server args sent reply append_nums) = do
    (r', _) ← send_append_entries r server args sent reply append_nums
    ok r'
  step r send_snapshot = ok (snapshot_request r).0
  step r (snapshot_reply server args sent reply now) =
      ok (leader_send_snap_shot r server args sent reply now)
  step r (start_command command) = ok (start r command).0
  step r apply_committed = applier_tick r
  step r (take_snapshot index bytes) = snapshot r index bytes
  step r (cond_install term index bytes) = do
    (r', _) ← cond_install_snapshot r term index bytes
    ok r'
  step r update_commit = leader_update_commit_index r

  -- The states that calls lead to.
  pub data Reach (r : Raft) : Raft → Type 0 where
    here : Reach r r
    next : {s t : Raft} (call : Call) → Reach r s → step s call ≡ ok t → Reach r t
