-- ===== src/Raft/Vote.antt =====
-- raftCore/raft.cpp, elections: doElection, the handler RequestVote, and what sendRequestVote does
-- with a reply. A spawned thread is part of the result.
pub mod Wins
pub mod Grants
use kv_my.Common.{
  ℕ, ◌+◌, ◌/◌, Bool, true, false, not, ◌&&◌, List, [], ◌∷◌, map, Outcome, ok, out_of_range, ◌>>=◌,
  ◌>>◌, my_assert, ltb, leb, ◌==◌, if◌then◌else◌,
}
use kv_my.Common.Int.{ℤ, pos, minus_one, ◌==ℤ◌}
use kv_my.Raft.State.{
  Raft, follower, candidate, leader, is_leader, RequestVoteArgs, RequestVoteReply, expire, voted,
  normal,
}
use kv_my.Raft.Log.{get_last_log_index_and_term, get_last_log_index, up_to_date}
use kv_my.Raft.Persist.{RaftCodec, persist}
use kv_my.Raft.Peers.{other_peers}

-- The change of a node that meets a higher term.
unfoldable pub step_down : Raft → ℕ → Raft
step_down r term = record r { status = follower; current_term = term; voted_for = minus_one }

-- `requestVoteArgs` of the candidate.
unfoldable pub request_vote_args : Raft → RequestVoteArgs
request_vote_args r =
    let last = get_last_log_index_and_term r in
    record {
      term = r.current_term;
      candidate_id = r.me;
      last_log_index = last.0;
      last_log_term = last.1;
    }

-- The last part of RequestVote: the log's check, and the vote.
unfoldable pub cast_vote : Raft → RequestVoteArgs → RequestVoteReply → ℕ → Raft × RequestVoteReply
cast_vote r args reply now =
    let refused : Raft × RequestVoteReply =
      (r, record reply { term = r.current_term; vote_state = voted; vote_granted = false }) in
    if not (up_to_date r args.last_log_index args.last_log_term)
    then refused
    else if not (r.voted_for ==ℤ minus_one) && not (r.voted_for ==ℤ pos args.candidate_id)
    then refused
    else (
      record r { voted_for = pos args.candidate_id; last_reset_election_time = now },
      record reply { term = r.current_term; vote_state = normal; vote_granted = true },
    )

unfoldable pub request_vote_body :
    Raft → RequestVoteArgs → RequestVoteReply → ℕ → Outcome (Raft × RequestVoteReply)
request_vote_body r args reply now =
    if ltb args.term r.current_term
    then ok (r, record reply { term = r.current_term; vote_state = expire; vote_granted = false })
    else do
      let r' = if ltb r.current_term args.term then step_down r args.term else r
      my_assert (args.term == r'.current_term)
      ok (cast_vote r' args reply now)

-- The loop that resets `m_nextIndex[i]` and `m_matchIndex[i]` for each `i` of the first.
unfoldable pub reset_indexes : ℕ → List ℤ → List ℕ → Outcome (List ℤ × List ℕ)
reset_indexes last [] matches = ok ([], matches)
reset_indexes last (n ∷ next) [] = out_of_range
reset_indexes last (n ∷ next) (m ∷ matches) = do
  (next', matches') ← reset_indexes last next matches
  ok (pos (last + 1) ∷ next', 0 ∷ matches')

module _ ⦃codec : RaftCodec⦄ where
  -- The requests go to the other nodes; `votedNum`, shared by the threads, starts at 1.
  unfoldable pub do_election : Raft → ℕ → Raft × List (ℕ × RequestVoteArgs)
  do_election r now =
      if is_leader r.status
      then (r, [])
      else let started = persist (record r {
        status = candidate;
        current_term = r.current_term + 1;
        voted_for = pos r.me;
      }) in
        let r' = record started { last_reset_election_time = now } in
        (r', map (λ i. (i, request_vote_args r')) (other_peers r'))

  -- The deferred `persist()` runs on every return.
  unfoldable pub request_vote :
      Raft → RequestVoteArgs → RequestVoteReply → ℕ → Outcome (Raft × RequestVoteReply)
  request_vote r args reply now = do
    (r', reply') ← request_vote_body r args reply now
    ok (persist r', reply')

  unfoldable pub become_leader : Raft → Outcome Raft
  become_leader r = do
    my_assert (not (is_leader r.status))
    (next, matches) ← reset_indexes (get_last_log_index r) r.next_index r.match_index
    ok (persist (record r { status = leader; next_index = next; match_index = matches }))

  -- The node, `votedNum`, and whether the thread of a first heartbeat is started.
  unfoldable pub send_request_vote : Raft → Bool → RequestVoteReply → ℕ → Outcome (Raft × ℕ × Bool)
  send_request_vote r sent reply voted_num =
      if not sent
      then ok (r, voted_num, false)
      else if ltb r.current_term reply.term
      then ok (persist (step_down r reply.term), voted_num, false)
      else if ltb reply.term r.current_term
      then ok (r, voted_num, false)
      else do
        my_assert (reply.term == r.current_term)
        if not reply.vote_granted
            then ok (r, voted_num, false)
            else if leb (r.peers / 2 + 1) (voted_num + 1)
            then (do r' ← become_leader r; ok (r', 0, true))
            else ok (r, voted_num + 1, false)
