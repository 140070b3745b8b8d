-- ===== src/Raft/Node/Saved/Steps.antt =====
-- The saved state after any call: where it follows the node's state, and where it does not.
use kv_my.Common.{ℕ, ◌<◌, ◌≡◌, refl, sym, ◌∙◌, true, arith, ok, >>=-eq-ok, lt→ltb}
use kv_my.Persister.{read_snapshot}
use kv_my.Raft.State.{Raft, app_normal, AppendEntriesArgs, AppendEntriesReply}
use kv_my.Raft.Persist.{RaftCodec, IsLawful}
use kv_my.Raft.Vote.{step_down, request_vote, send_request_vote}
use kv_my.Raft.Append.{append_entries}
use kv_my.Raft.Leader.{do_heart_beat, send_append_entries, leader_update_commit_index}
use kv_my.Raft.Snapshot.{install_snapshot, cond_install_snapshot, snapshot_request}
use kv_my.Raft.Node.{
  Call, append_entries_rpc, request_vote_rpc, install_snapshot_rpc, election_timeout,
  heart_beat_timeout, vote_reply, append_reply, send_snapshot, snapshot_reply, start_command,
  apply_committed, take_snapshot, cond_install, update_commit, step,
}
use kv_my.Raft.Node.Saved.{IsSaved, Persists, persist_data-term, Untouched-IsSaved}
use kv_my.Raft.Node.Saved.Handlers.{
  append_entries-IsSaved, request_vote-IsSaved, do_election-IsSaved, send_request_vote-IsSaved,
  send_append_entries-IsSaved, applier_tick-IsSaved, start-IsSaved,
}
use kv_my.Raft.Node.Saved.Snapshots.{
  snapshot-IsSaved, install_snapshot-IsSaved, leader_send_snap_shot-IsSaved,
  cond_install_snapshot-IsSaved,
}

module _ ⦃codec : RaftCodec⦄ where
  -- Under a lawful codec, a reply to AppendEntries with a higher term is taken over in memory
  -- alone: where the file and its stream held the node's state, they no longer do.
  pub send_append_entries-unsaved :
      IsLawful codec
      → (r : Raft) (server : ℕ) (args : AppendEntriesArgs) (reply : AppendEntriesReply) (n : ℕ)
      → reply.app_state ≡ app_normal
      → r.current_term < reply.term
      → IsSaved r
      → (r' : Raft) × (send_append_entries r server args true reply n ≡ ok (r', n))
        × (r'.current_term ≡ reply.term)
        × (¬ IsSaved r')
  unfolding send_append_entries step_down
  send_append_entries-unsaved law r server args reply n normal higher s = (
    step_down r reply.term,
    rw (normal, lt→ltb r.current_term reply.term higher),
    unfold step_down in refl,
    λ saved.
        absurd (omega (arith, persist_data-term law r (step_down r reply.term) (sym s ∙ saved))),
  )

  -- After every call but a reply to AppendEntries with a higher term, what the stream of the state
  -- file was given since the file was emptied, in the file or still in the stream's buffer, is the
  -- node's term, vote, snapshot's place and log, if it was before and no check fails.
  pub step-IsSaved :
      (r r' : Raft) (call : Call) → step r call ≡ ok r' → Persists r call → IsSaved r → IsSaved r'
  unfolding step
  step-IsSaved r r' (append_entries_rpc args reply now) h p s =
      let (q, done, e) = >>=-eq-ok (append_entries r args reply now) _ h in
      ground (arith, append_entries-IsSaved r q.0 args reply q.1 now done s)
  step-IsSaved r r' (request_vote_rpc args reply now) h p s =
      let (q, done, e) = >>=-eq-ok (request_vote r args reply now) _ h in
      ground (arith, request_vote-IsSaved r q.0 args reply q.1 now done)
  step-IsSaved r r' (install_snapshot_rpc args reply now) h p s =
      let (q, done, e) = >>=-eq-ok (install_snapshot r args reply now) _ h in
      ground (arith, install_snapshot-IsSaved r q args reply now done s)
  step-IsSaved r r' (election_timeout now) h p s = ground (arith, do_election-IsSaved r now s)
  step-IsSaved r r' (heart_beat_timeout now) h p s =
      Untouched-IsSaved r r' (unfold do_heart_beat in (ground arith)) s
  step-IsSaved r r' (vote_reply sent reply n) h p s =
      let (q, done, e) = >>=-eq-ok (send_request_vote r sent reply n) _ h in
      ground (arith, send_request_vote-IsSaved r q.0 sent reply n q.1 q.2 done s)
  step-IsSaved r r' (append_reply server args sent reply n) h p s =
      let (q, done, e) = >>=-eq-ok (send_append_entries r server args sent reply n) _ h in
      ground (arith, send_append_entries-IsSaved r q.0 server args sent reply n q.1 done p s)
  step-IsSaved r r' send_snapshot h p s =
      Untouched-IsSaved r r' (unfold snapshot_request read_snapshot in (ground arith)) s
  step-IsSaved r r' (snapshot_reply server args sent reply now) h p s =
      ground (arith, leader_send_snap_shot-IsSaved r server args sent reply now s)
  step-IsSaved r r' (start_command command) h p s = ground (arith, start-IsSaved r command s)
  step-IsSaved r r' apply_committed h p s = applier_tick-IsSaved r r' h s
  step-IsSaved r r' (take_snapshot index bytes) h p s = snapshot-IsSaved r r' index bytes h s
  step-IsSaved r r' (cond_install term index bytes) h p s =
      let (q, done, e) = >>=-eq-ok (cond_install_snapshot r term index bytes) _ h in
      ground (arith, cond_install_snapshot-IsSaved r q.0 term index bytes q.1 done s)
  step-IsSaved r r' update_commit h p s =
      Untouched-IsSaved r r' (unfold leader_update_commit_index in (ground arith)) s
