-- ===== src/Raft/Vote/Wins.antt =====
-- When a candidate becomes leader: what sendRequestVote does with the vote that makes a majority.
use kv_my.Common.{
  ℕ, zero, suc, ◌+◌, ◌/◌, ◌≡◌, refl, true, false, List, [], ◌∷◌, arith, ok, leb, le→ltb-false,
  ==_iff, length, replicate, if◌then◌else◌,
}
use kv_my.Common.Int.{ℤ, pos}
use kv_my.Raft.State.{Raft, leader, is_leader, RequestVoteReply}
use kv_my.Raft.Log.Indexing.{get_last_log_index-length}
use kv_my.Raft.Persist.{RaftCodec, persist}
use kv_my.Raft.Vote.{reset_indexes, become_leader, send_request_vote}
use kv_my.Raft.Node.Form.{WellFormed}

reset_indexes-replicate :
    (last n : ℕ) (next : List ℤ) (matches : List ℕ)
    → length next ≡ n
    → length matches ≡ n
    → reset_indexes last next matches ≡ ok (replicate n (pos (last + 1)), replicate n 0)
unfolding reset_indexes
reset_indexes-replicate last zero [] [] h k = refl
reset_indexes-replicate last zero [] (m ∷ matches) h k = absurd (omega arith)
reset_indexes-replicate last zero (x ∷ next) matches h k = absurd (omega arith)
reset_indexes-replicate last (suc n) [] matches h k = absurd (omega arith)
reset_indexes-replicate last (suc n) (x ∷ next) [] h k = absurd (omega arith)
reset_indexes-replicate last (suc n) (x ∷ next) (m ∷ matches) h k =
    rw (reset_indexes-replicate last n next matches (omega arith) (omega arith))

-- The leader's first state: every node is to be sent what is behind the log, and none is known to
-- hold any of it.
abbrev pub elected : Raft → Raft
elected r = record r {
  status = leader;
  next_index = replicate r.peers (pos (r.last_snapshot_include_index + length r.logs + 1));
  match_index = replicate r.peers 0;
}

module _ ⦃codec : RaftCodec⦄ (r : Raft) (w : WellFormed r) (reply : RequestVoteReply) (n : ℕ)
    (not_leader : is_leader r.status ≡ false) (same : reply.term ≡ r.current_term) where
  -- In a node that is not the leader, and whose log and indexes are well-formed, a reply in its
  -- term adds a vote if it grants one, and changes nothing else, until the votes are a majority of
  -- the nodes: then the node is leader, its indexes start anew, the state is persisted and a first
  -- heartbeat is started. No check fails.
  pub send_request_vote-counts : send_request_vote r true reply n ≡ (
      if reply.vote_granted
      then (if leb (r.peers / 2 + 1) (n + 1)
          then ok (persist (elected r), 0, true)
          else ok (r, n + 1, false))
      else ok (r, n, false))
  unfolding send_request_vote become_leader
  send_request_vote-counts =
      rw
        (
          same,
          le→ltb-false r.current_term r.current_term (omega arith),
          (==_iff r.current_term r.current_term).1 refl,
          not_leader,
          get_last_log_index-length r w.contiguous,
          reset_indexes-replicate (r.last_snapshot_include_index + length r.logs) r.peers
              r.next_index r.match_index w.nexts w.matches,
        )
        (ground arith)
