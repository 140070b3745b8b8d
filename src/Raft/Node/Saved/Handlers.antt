-- ===== src/Raft/Node/Saved/Handlers.antt =====
-- The saved state after each handler.
use kv_my.Common.{
  ℕ, ◌+◌, ◌-◌, ◌≤◌, ◌≡◌, Bool, inl, inr, arith, ok, >>=-eq-ok, my_assert, ltb, leb, Bool-cases, not,
}
use kv_my.Common.Bytes.{Bytes}
use kv_my.Common.Int.{pos}
use kv_my.Raft.State.{
  Raft, app_normal, is_leader, candidate, leader, RequestVoteArgs, RequestVoteReply,
  AppendEntriesArgs, AppendEntriesReply,
}
use kv_my.Raft.Log.{get_last_log_index}
use kv_my.Raft.Persist.{RaftCodec, persist}
use kv_my.Raft.Vote.{
  step_down, request_vote, request_vote_body, reset_indexes, do_election, become_leader,
  send_request_vote,
}
use kv_my.Raft.Append.{append_entries, append_entries_body}
use kv_my.Raft.Leader.{start, count_success, send_append_entries}
use kv_my.Raft.Apply.{get_apply_logs, applier_tick}
use kv_my.Raft.Node.Saved.{
  IsSaved, persist-IsSaved, apply_loop-Untouched, push_all-Untouched, Untouched-IsSaved,
}

module _ ⦃codec : RaftCodec⦄ where
  pub append_entries-IsSaved :
      (r r' : Raft) (args : AppendEntriesArgs) (reply reply' : AppendEntriesReply) (now : ℕ)
      → append_entries r args reply now ≡ ok (r', reply')
      → IsSaved r
      → IsSaved r'
  unfolding append_entries
  append_entries-IsSaved r r' args reply reply' now done s =
      elim (Bool-cases (ltb args.term r.current_term)) [
        | inl stale ↦ ground arith
        | inr current ↦
            let heard = record reply { app_state = app_normal } in
            let (p, body, rest) =
              >>=-eq-ok (append_entries_body r args heard now) _ (rw current at done) in
            ground (arith, persist-IsSaved p.0)
      ]

  pub request_vote-IsSaved :
      (r r' : Raft) (args : RequestVoteArgs) (reply reply' : RequestVoteReply) (now : ℕ)
      → request_vote r args reply now ≡ ok (r', reply')
      → IsSaved r'
  unfolding request_vote
  request_vote-IsSaved r r' args reply reply' now done =
      let (p, body, rest) = >>=-eq-ok (request_vote_body r args reply now) _ done in
      ground (arith, persist-IsSaved p.0)

  pub do_election-IsSaved : (r : Raft) (now : ℕ) → IsSaved r → IsSaved (do_election r now).0
  unfolding do_election
  do_election-IsSaved r now s = elim (Bool-cases (is_leader r.status)) [
    | inl leads ↦ rw leads s
    | inr not_leader ↦
        let started : Raft = record r {
          status = candidate;
          current_term = r.current_term + 1;
          voted_for = pos r.me;
        } in
        rw not_leader (
          Untouched-IsSaved (persist started)
            (record (persist started) { last_reset_election_time = now }) (ground arith)
            (persist-IsSaved started))
  ]

  pub become_leader-IsSaved : (r r' : Raft) → become_leader r ≡ ok r' → IsSaved r'
  unfolding become_leader
  become_leader-IsSaved r r' done =
      let (u, checked, rest) = >>=-eq-ok (my_assert (not (is_leader r.status))) _ done in
      let (p, reset, end) =
        >>=-eq-ok (reset_indexes (get_last_log_index r) r.next_index r.match_index) _ rest in
      ground
        (arith, persist-IsSaved (record r { status = leader; next_index = p.0; match_index = p.1 }))

  pub send_request_vote-IsSaved :
      (r r' : Raft) (sent : Bool) (reply : RequestVoteReply) (n n' : ℕ) (beat : Bool)
      → send_request_vote r sent reply n ≡ ok (r', n', beat)
      → IsSaved r
      → IsSaved r'
  unfolding send_request_vote
  send_request_vote-IsSaved r r' sent reply n n' beat done s =
      ground (arith, become_leader-IsSaved r r', persist-IsSaved (step_down r reply.term))

  pub send_append_entries-IsSaved :
      (r r' : Raft) (server : ℕ) (args : AppendEntriesArgs) (sent : Bool)
      (reply : AppendEntriesReply) (n n' : ℕ)
      → send_append_entries r server args sent reply n ≡ ok (r', n')
      → reply.term ≤ r.current_term
      → IsSaved r
      → IsSaved r'
  unfolding send_append_entries count_success
  send_append_entries-IsSaved r r' server args sent reply n n' done le s =
      Untouched-IsSaved r r' (ground arith) s

  pub applier_tick-IsSaved : (r r' : Raft) → applier_tick r ≡ ok r' → IsSaved r → IsSaved r'
  unfolding applier_tick get_apply_logs
  applier_tick-IsSaved r r' done s =
      let (p, looped, pushed) = >>=-eq-ok (get_apply_logs r) _ done in
      let (u, checked, loop) =
        >>=-eq-ok (my_assert (leb r.commit_index (get_last_log_index r))) _ looped in
      Untouched-IsSaved r r'
        (ground (
          arith,
          apply_loop-Untouched r p.0 (r.commit_index - r.last_applied) p.1 loop,
          push_all-Untouched p.0 p.1,
        ))
        s

  pub start-IsSaved : (r : Raft) (command : Bytes) → IsSaved r → IsSaved (start r command).0
  unfolding start
  start-IsSaved r command s = elim (Bool-cases (is_leader r.status)) [
    | inl leads ↦ rw leads (persist-IsSaved _)
    | inr not_leader ↦ rw not_leader s
  ]
