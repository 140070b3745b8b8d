-- ===== src/Raft/Node/Saved.antt =====
-- What is on disk, and the calls that leave it equal to the node's state.
pub mod Handlers
pub mod Snapshots
pub mod Steps
use mathlib.Core.List.{append_assoc}
use kv_my.Common.{
  take, drop, ℕ, zero, suc, ◌+◌, ◌-◌, ◌≤◌, ◌<◌, ◌≡◌, refl, ap, sym, ◌∙◌, Bool, true, Option, List,
  [], ◌∷◌, ◌++◌, inl, inr, arith, ok, >>=-eq-ok, my_assert, ltb, leb, lt→ltb, Bool-cases, not, max,
  ◌||◌, set, ◌==◌,
}
use kv_my.Common.Bytes.{Bytes}
use kv_my.Common.Int.{pos}
use kv_my.Persister
use kv_my.Persister.{
  clear_raft_state, write_raft_state, save_raft_state, save, clear_raft_state_and_snapshot,
  write_snapshot, clear_snapshot, read_snapshot,
}
use kv_my.Raft.State.{
  Raft, follower, app_normal, is_leader, candidate, leader, ApplyMsg, RequestVoteArgs,
  RequestVoteReply, AppendEntriesArgs, AppendEntriesReply, InstallSnapshotRequest,
  InstallSnapshotResponse,
}
use kv_my.Raft.Log.{entry_at, get_last_log_index}
use kv_my.Raft.Persist.{RaftCodec, IsLawful, boost_node, persist_data, persist}
use kv_my.Raft.Vote.{
  step_down, request_vote, request_vote_body, reset_indexes, do_election, become_leader,
  send_request_vote,
}
use kv_my.Raft.Append.{append_entries, append_entries_body}
use kv_my.Raft.Leader.{
  start, do_heart_beat, count_success, send_append_entries, leader_update_commit_index,
}
use kv_my.Raft.Snapshot.{
  save_with, entries_from, logs_behind, cond_logs, snapshot, heard_request, installed,
  install_snapshot, cond_install_snapshot, snapshot_request, leader_send_snap_shot,
}
use kv_my.Raft.Apply.{apply_loop, get_apply_logs, push_msg, push_all, applier_tick}
use kv_my.Raft.Node.{
  Call, append_entries_rpc, request_vote_rpc, install_snapshot_rpc, election_timeout,
  heart_beat_timeout, vote_reply, append_reply, send_snapshot, snapshot_reply, start_command,
  apply_committed, take_snapshot, cond_install, update_commit, step,
}

take-drop : {A : Type 0} (n : ℕ) (xs : List A) → take n xs ++ drop n xs ≡ xs
take-drop zero xs = refl
take-drop (suc n) [] = refl
take-drop (suc n) (x ∷ xs) = ap (λ ys. x ∷ ys) (take-drop n xs)

module _ ⦃codec : RaftCodec⦄ where
  -- What the stream of the state file was given since the file was emptied, in the file or on the way
  -- there, is the term, the vote, the snapshot's place and the log that the node has.
  abbrev pub IsSaved : Raft → Type 0
  IsSaved r = r.persister.raft_state_file ++ r.persister.raft_state_buffer ≡ persist_data r

  -- All calls but a reply to AppendEntries with a higher term.
  abbrev pub Persists : Raft → Call → Type 0
  Persists r (append_reply server args sent reply append_nums) = reply.term ≤ r.current_term
  Persists r call = Unit

  pub persist-IsSaved : (r : Raft) → IsSaved (persist r)
  unfolding persist persist_data save_raft_state clear_raft_state write_raft_state
  persist-IsSaved r = refl

  pub save_with-IsSaved : (r : Raft) (bytes : Bytes) → IsSaved (save_with r bytes)
  unfolding save_with persist_data save clear_raft_state_and_snapshot clear_raft_state
      clear_snapshot write_raft_state write_snapshot
  save_with-IsSaved r bytes = refl

  -- Whatever of its buffer the stream moves to the file, and when.
  flush_raft_state-IsSaved :
      (r : Raft) (n : ℕ)
      → IsSaved r
      → IsSaved (record r { persister = Persister.flush_raft_state n r.persister })
  unfolding Persister.flush_raft_state persist_data
  flush_raft_state-IsSaved r n s =
      let p = r.persister in
      append_assoc p.raft_state_file (take n p.raft_state_buffer) (drop n p.raft_state_buffer)
      ∙ ap (◌++◌ p.raft_state_file) (take-drop n p.raft_state_buffer)
      ∙ s

  -- Where the stream is open, the file holds the state once the destructor has closed it.
  destroy-IsSaved :
      (r : Raft)
      → IsSaved r
      → r.persister.raft_state_out_stream ≡ true
      → (Persister.destroy r.persister).raft_state_file ≡ persist_data r
  unfolding Persister.destroy persist_data
  destroy-IsSaved r s open_stream = rw open_stream s

  -- What the saved state is made of.
  pub record Untouched (r r' : Raft) : Type 0 where
    pub file : r'.persister.raft_state_file ≡ r.persister.raft_state_file
    pub buffer : r'.persister.raft_state_buffer ≡ r.persister.raft_state_buffer
    pub term : r'.current_term ≡ r.current_term
    pub vote : r'.voted_for ≡ r.voted_for
    pub index : r'.last_snapshot_include_index ≡ r.last_snapshot_include_index
    pub index_term : r'.last_snapshot_include_term ≡ r.last_snapshot_include_term
    pub log : r'.logs ≡ r.logs

  pub apply_loop-Untouched :
      (r r' : Raft) (n : ℕ) (msgs : List ApplyMsg) → apply_loop r n ≡ ok (r', msgs) → Untouched r r'
  unfolding apply_loop
  apply_loop-Untouched r r' zero msgs done = ground arith
  apply_loop-Untouched r r' (suc n) msgs done =
      let r1 : Raft = record r { last_applied = r.last_applied + 1 } in
      let (e, read, rest) = >>=-eq-ok (entry_at r1 r1.last_applied) _ done in
      let (u, checked, loop) = >>=-eq-ok (my_assert (e.log_index == r1.last_applied)) _ rest in
      let (p, more, end) = >>=-eq-ok (apply_loop r1 n) _ loop in
      ground (arith, apply_loop-Untouched r1 p.0 n p.1 more)

  pub push_all-Untouched : (r : Raft) (msgs : List ApplyMsg) → Untouched r (push_all r msgs)
  unfolding push_all push_msg
  push_all-Untouched r [] = ground arith
  push_all-Untouched r (m ∷ ms) = ground (arith, push_all-Untouched (push_msg r m) ms)

  pub persist_data-term :
      IsLawful codec
      → (r r' : Raft) → persist_data r ≡ persist_data r'
      → r.current_term ≡ r'.current_term
  unfolding persist_data
  persist_data-term law r r' e =
      ap (λ n. n.current_term)
        (sym (law.load-save (boost_node r)) ∙ ap codec.load_node e ∙ law.load-save (boost_node r'))

  Untouched-IsSaved : (r r' : Raft) → Untouched r r' → IsSaved r → IsSaved r'
  unfolding persist_data
  Untouched-IsSaved r r' u s = ground arith
