-- ===== src/Raft/Node/Form/Steps.antt =====
-- Every call keeps the invariant of the log.
use kv_my.Common.{◌≡◌, arith, ok, >>=-eq-ok}
use kv_my.Raft.State.{Raft}
use kv_my.Raft.Persist.{RaftCodec}
use kv_my.Raft.Vote.{request_vote, send_request_vote}
use kv_my.Raft.Append.{append_entries}
use kv_my.Raft.Leader.{do_heart_beat, send_append_entries}
use kv_my.Raft.Snapshot.{snapshot_request, install_snapshot, cond_install_snapshot}
use kv_my.Raft.Node.{
  Call, append_entries_rpc, request_vote_rpc, install_snapshot_rpc, election_timeout,
  heart_beat_timeout, vote_reply, append_reply, send_snapshot, snapshot_reply, start_command,
  apply_committed, take_snapshot, cond_install, update_commit, step,
}
use kv_my.Raft.Node.Form.{WellFormed, Legit}
use kv_my.Raft.Node.Form.Followers.{append_entries-WellFormed}
use kv_my.Raft.Node.Form.Snapshots.{
  snapshot-WellFormed, install_snapshot-WellFormed, cond_install_snapshot-WellFormed,
}
use kv_my.Raft.Node.Form.Leaders.{
  request_vote-WellFormed, do_election-WellFormed, send_request_vote-WellFormed,
  send_append_entries-WellFormed, leader_send_snap_shot-WellFormed, start-WellFormed,
  applier_tick-WellFormed, leader_update_commit_index-WellFormed,
}

module _ ⦃codec : RaftCodec⦄ where
  -- Every call that ends without a failed check keeps the log contiguous behind its snapshot, the
  -- commit index and the last applied index within the log, the latter not before the snapshot, and
  -- an index pair for each node; for AppendEntries the entries must follow their previous index and
  -- agree with the log, and CondInstallSnapshot must refuse the snapshot or be given one that covers
  -- the log.
  pub step-WellFormed :
      (r r' : Raft) (call : Call)
      → step r call ≡ ok r'
      → Legit r call
      → WellFormed r
      → WellFormed r'
  unfolding step
  step-WellFormed r r' (append_entries_rpc args reply now) h l w =
      let (q, done, e) = >>=-eq-ok (append_entries r args reply now) _ h in
      ground (arith, append_entries-WellFormed r q.0 args reply q.1 now done l.0 l.1 w)
  step-WellFormed r r' (request_vote_rpc args reply now) h l w =
      let (q, done, e) = >>=-eq-ok (request_vote r args reply now) _ h in
      ground (arith, request_vote-WellFormed r q.0 args reply q.1 now done w)
  step-WellFormed r r' (install_snapshot_rpc args reply now) h l w =
      let (q, done, e) = >>=-eq-ok (install_snapshot r args reply now) _ h in
      ground (arith, install_snapshot-WellFormed r q args reply now done w)
  step-WellFormed r r' (election_timeout now) h l w = ground (arith, do_election-WellFormed r now w)
  step-WellFormed r r' (heart_beat_timeout now) h l w = unfold do_heart_beat in (ground arith)
  step-WellFormed r r' (vote_reply sent reply n) h l w =
      let (q, done, e) = >>=-eq-ok (send_request_vote r sent reply n) _ h in
      ground (arith, send_request_vote-WellFormed r q.0 sent reply n q.1 q.2 done w)
  step-WellFormed r r' (append_reply server args sent reply n) h l w =
      let (q, done, e) = >>=-eq-ok (send_append_entries r server args sent reply n) _ h in
      ground (arith, send_append_entries-WellFormed r q.0 server args sent reply n q.1 done w)
  step-WellFormed r r' send_snapshot h l w = unfold snapshot_request in (ground arith)
  step-WellFormed r r' (snapshot_reply server args sent reply now) h l w =
      ground (arith, leader_send_snap_shot-WellFormed r server args sent reply now w)
  step-WellFormed r r' (start_command command) h l w = ground (arith, start-WellFormed r command w)
  step-WellFormed r r' apply_committed h l w = applier_tick-WellFormed r r' h w
  step-WellFormed r r' (take_snapshot index bytes) h l w = snapshot-WellFormed r r' index bytes h w
  step-WellFormed r r' (cond_install term index bytes) h l w =
      let (q, done, e) = >>=-eq-ok (cond_install_snapshot r term index bytes) _ h in
      ground (arith, cond_install_snapshot-WellFormed r q term index bytes done l w)
  step-WellFormed r r' update_commit h l w = leader_update_commit_index-WellFormed r r' h w
