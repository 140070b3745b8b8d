-- ===== src/Raft/Node/Votes.antt =====
-- Terms and votes: a node's term never falls, and a vote that is cast stays while the term does.
use kv_my.Common.{
  ℕ, ◌≡◌, ltb, my_assert, Option, Bool, Bool-cases, leb, ◌-◌, inl, inr, arith, ok, >>=-eq-ok,
}
use kv_my.Common.Bytes.{Bytes}
use kv_my.Common.Int.{pos}
use kv_my.Raft.State.{
  Raft, app_normal, ApplyMsg, RequestVoteArgs, RequestVoteReply, AppendEntriesArgs,
  AppendEntriesReply, InstallSnapshotRequest, InstallSnapshotResponse,
}
use kv_my.Raft.Log.{get_last_log_index}
use kv_my.Raft.Persist.{RaftCodec, persist}
use kv_my.Raft.Vote.{
  step_down, cast_vote, request_vote_body, request_vote, do_election, become_leader,
  send_request_vote,
}
use kv_my.Raft.Append.{append_entries_body, append_entries}
use kv_my.Raft.Leader.{
  start, do_heart_beat, count_success, send_append_entries, leader_update_commit_index,
}
use kv_my.Raft.Snapshot.{
  save_with, snapshot, heard_request, installed, install_snapshot, cond_install_snapshot,
  snapshot_request, leader_send_snap_shot,
}
use kv_my.Raft.Apply.{get_apply_logs, applier_tick}
use kv_my.Raft.Node.{
  Call, append_entries_rpc, request_vote_rpc, install_snapshot_rpc, election_timeout,
  heart_beat_timeout, vote_reply, append_reply, send_snapshot, snapshot_reply, start_command,
  apply_committed, take_snapshot, cond_install, update_commit, step, Reach, here, next,
}
use kv_my.Raft.Node.Terms.{Keeps, Same, append_entries_body-Keeps, apply_loop-Same, push_all-Same}

module _ ⦃codec : RaftCodec⦄ where
  request_vote-Keeps :
      (r r' : Raft) (args : RequestVoteArgs) (reply reply' : RequestVoteReply) (now : ℕ)
      → request_vote r args reply now ≡ ok (r', reply')
      → Keeps r r'
  unfolding request_vote request_vote_body cast_vote step_down persist
  request_vote-Keeps r r' args reply reply' now done = ground arith

  do_election-Keeps : (r : Raft) (now : ℕ) → Keeps r (do_election r now).0
  unfolding do_election persist
  do_election-Keeps r now = ground arith

  become_leader-Same : (r r' : Raft) → become_leader r ≡ ok r' → Same r r'
  unfolding become_leader persist
  become_leader-Same r r' done = ground arith

  send_request_vote-Keeps :
      (r r' : Raft) (sent : Bool) (reply : RequestVoteReply) (n n' : ℕ) (beat : Bool)
      → send_request_vote r sent reply n ≡ ok (r', n', beat)
      → Keeps r r'
  unfolding send_request_vote step_down persist
  send_request_vote-Keeps r r' sent reply n n' beat done = ground (arith, become_leader-Same r r')

  send_append_entries-Keeps :
      (r r' : Raft) (server : ℕ) (args : AppendEntriesArgs) (sent : Bool)
      (reply : AppendEntriesReply) (n n' : ℕ)
      → send_append_entries r server args sent reply n ≡ ok (r', n')
      → Keeps r r'
  unfolding send_append_entries step_down count_success
  send_append_entries-Keeps r r' server args sent reply n n' done = ground arith

  leader_send_snap_shot-Keeps :
      (r : Raft) (server : ℕ) (args : InstallSnapshotRequest) (sent : Bool)
      (reply : InstallSnapshotResponse) (now : ℕ)
      → Keeps r (leader_send_snap_shot r server args sent reply now)
  unfolding leader_send_snap_shot step_down persist
  leader_send_snap_shot-Keeps r server args sent reply now = ground arith

  install_snapshot-Keeps :
      (r : Raft) (done : Raft × InstallSnapshotResponse × Option ApplyMsg)
      (args : InstallSnapshotRequest) (reply : InstallSnapshotResponse) (now : ℕ)
      → install_snapshot r args reply now ≡ ok done
      → Keeps r done.0
  unfolding install_snapshot heard_request installed save_with step_down persist
  install_snapshot-Keeps r done args reply now h = ground arith

  append_entries-Keeps :
      (r r' : Raft) (args : AppendEntriesArgs) (reply reply' : AppendEntriesReply) (now : ℕ)
      → append_entries r args reply now ≡ ok (r', reply')
      → Keeps r r'
  unfolding append_entries persist
  append_entries-Keeps r r' args reply reply' now done =
      elim (Bool-cases (ltb args.term r.current_term)) [
        | inl stale ↦ ground arith
        | inr current ↦
            let (p, body, rest) =
              >>=-eq-ok (append_entries_body r args (record reply { app_state = app_normal }) now) _
                (rw current at done) in
            ground (
              arith,
              append_entries_body-Keeps r p.0 args (record reply { app_state = app_normal }) p.1 now
                  body,
            )
      ]

  applier_tick-Keeps : (r r' : Raft) → applier_tick r ≡ ok r' → Keeps r r'
  unfolding applier_tick get_apply_logs
  applier_tick-Keeps r r' done =
      let (p, looped, pushed) = >>=-eq-ok (get_apply_logs r) _ done in
      let (u, checked, loop) =
        >>=-eq-ok (my_assert (leb r.commit_index (get_last_log_index r))) _ looped in
      ground (
        arith,
        apply_loop-Same r p.0 (r.commit_index - r.last_applied) p.1 loop,
        push_all-Same p.0 p.1,
      )

  snapshot-Keeps :
      (r r' : Raft) (index : ℕ) (bytes : Bytes) → snapshot r index bytes ≡ ok r' → Keeps r r'
  unfolding snapshot save_with
  snapshot-Keeps r r' index bytes done = ground arith

  -- No call that ends without a failed check lowers a node's term, and none changes a vote that the
  -- node has cast in the term.
  pub step-Keeps : (r r' : Raft) (call : Call) → step r call ≡ ok r' → Keeps r r'
  unfolding step
  step-Keeps r r' (append_entries_rpc args reply now) h =
      let (p, done, e) = >>=-eq-ok (append_entries r args reply now) _ h in
      ground (arith, append_entries-Keeps r p.0 args reply p.1 now done)
  step-Keeps r r' (request_vote_rpc args reply now) h =
      let (p, done, e) = >>=-eq-ok (request_vote r args reply now) _ h in
      ground (arith, request_vote-Keeps r p.0 args reply p.1 now done)
  step-Keeps r r' (install_snapshot_rpc args reply now) h =
      let (p, done, e) = >>=-eq-ok (install_snapshot r args reply now) _ h in
      ground (arith, install_snapshot-Keeps r p args reply now done)
  step-Keeps r r' (election_timeout now) h = ground (arith, do_election-Keeps r now)
  step-Keeps r r' (heart_beat_timeout now) h = unfold do_heart_beat in (ground arith)
  step-Keeps r r' (vote_reply sent reply n) h =
      let (p, done, e) = >>=-eq-ok (send_request_vote r sent reply n) _ h in
      ground (arith, send_request_vote-Keeps r p.0 sent reply n p.1 p.2 done)
  step-Keeps r r' (append_reply server args sent reply n) h =
      let (p, done, e) = >>=-eq-ok (send_append_entries r server args sent reply n) _ h in
      ground (arith, send_append_entries-Keeps r p.0 server args sent reply n p.1 done)
  step-Keeps r r' send_snapshot h = unfold snapshot_request in (ground arith)
  step-Keeps r r' (snapshot_reply server args sent reply now) h =
      ground (arith, leader_send_snap_shot-Keeps r server args sent reply now)
  step-Keeps r r' (start_command command) h = unfold start persist in (ground arith)
  step-Keeps r r' apply_committed h = applier_tick-Keeps r r' h
  step-Keeps r r' (take_snapshot index bytes) h = snapshot-Keeps r r' index bytes h
  step-Keeps r r' (cond_install term index bytes) h =
      unfold cond_install_snapshot save_with in (ground arith)
  step-Keeps r r' update_commit h = unfold leader_update_commit_index in (ground arith)

  Keeps-trans : (r s t : Raft) → Keeps r s → Keeps s t → Keeps r t
  Keeps-trans r s t a b = ground arith

  Reach-Keeps : (r r' : Raft) → Reach r r' → Keeps r r'
  Reach-Keeps r r' here = ground arith
  Reach-Keeps r r' (next {s} call reach done) =
      Keeps-trans r s r' (Reach-Keeps r s reach) (step-Keeps s r' call done)

  -- Over any sequence of calls without a failed check a node never votes for two candidates in one
  -- term: votes of two states of the same term, one reached from the other, are for the same one.
  pub Reach-one_vote :
      (r r' : Raft) (a b : ℕ)
      → Reach r r'
      → r'.current_term ≡ r.current_term
      → r.voted_for ≡ pos a
      → r'.voted_for ≡ pos b
      → a ≡ b
  Reach-one_vote r r' a b reach term va vb = ground (arith, (Reach-Keeps r r' reach).vote_kept)
