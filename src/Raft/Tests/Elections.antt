-- ===== src/Raft/Tests/Elections.antt =====
-- Elections at a concrete node.
use kv_my.Common.{List, [], ◌∷◌, ℕ, ◌≡◌, ◌↔◌, refl, true, false, ok, arith, if◌then◌else◌, leb}
use kv_my.Common.Int.{pos}
use kv_my.Raft.State.{Raft, RequestVoteReply, candidate}
use kv_my.Raft.Persist.{persist}
use kv_my.Raft.Log.{up_to_date}
use kv_my.Raft.Vote.{request_vote_body, cast_vote, request_vote, send_request_vote, do_election}
use kv_my.Raft.Vote.Grants.{IsLast, IsUpToDate, IsFree, Granted, request_vote-grants}
use kv_my.Raft.Vote.Wins.{elected, send_request_vote-counts}
use kv_my.Raft.Node.{step, election_timeout, request_vote_rpc, here, next}
use kv_my.Raft.Node.Majorities.{mem, Distinct}
use kv_my.Raft.Node.Elections.{HasVoted, majorities-agree}
use kv_my.Raft.Node.Form.{WellFormed}
use kv_my.Raft.Node.Votes.{Reach-one_vote}
use kv_my.Raft.Tests.{node, vote_args, vote_reply_of}
use kv_my.Raft.Tests.Codec.{texts}

request_vote-grants_example :
    (index : ℕ) × (term : ℕ) × IsLast node index term
    × (r' : Raft) × (reply' : RequestVoteReply) × (request_vote node vote_args (vote_reply_of 0) 7
        ≡ ok (r', reply'))
    × ((reply'.vote_granted ≡ true) ↔ (IsUpToDate index term vote_args × IsFree node vote_args))
    × (reply'.vote_granted ≡ true → Granted vote_args r' reply')
request_vote-grants_example = request_vote-grants node vote_args (vote_reply_of 0) 7

abbrev candidate_node : Raft
candidate_node = record node { status = candidate; voted_for = pos 0 }

candidate_node-WellFormed : WellFormed candidate_node
candidate_node-WellFormed = record {
  contiguous = (refl, (refl, (refl, tt)));
  committed = omega arith;
  applied = omega arith;
  snapshot_applied = omega arith;
  nexts = refl;
  matches = refl;
}

send_request_vote-counts_example : send_request_vote candidate_node true (vote_reply_of 2) 1 ≡ (
    if true
    then (if leb 2 2
        then ok (persist (elected candidate_node), 0, true)
        else ok (candidate_node, 2, false))
    else ok (candidate_node, 1, false))
send_request_vote-counts_example =
    send_request_vote-counts candidate_node candidate_node-WellFormed (vote_reply_of 2) 1 refl refl

abbrev voter : Raft
unfolding do_election persist
voter = (do_election node 5).0

election : step node (election_timeout 5) ≡ ok voter
unfolding step do_election persist
election = refl

-- The node has voted for itself in term 3, and another candidate of that term asks.
abbrev asked : Raft
asked = persist voter

request : step voter (request_vote_rpc vote_args (vote_reply_of 0) 6) ≡ ok asked
unfolding step request_vote request_vote_body cast_vote voter up_to_date
    kv_my.Persister.save_raft_state
request = refl

Reach-one_vote_example : ◌≡◌ {A = ℕ} 0 0
unfolding do_election persist
Reach-one_vote_example =
    Reach-one_vote voter asked 0 0
      (next (request_vote_rpc vote_args (vote_reply_of 0) 6) here request) refl refl refl

-- Three nodes that all vote for 0 in term 3, and stay so.
abbrev settled : ℕ → ℕ → Raft
settled v k = voter

abbrev two_of_three : List ℕ
two_of_three = 0 ∷ 2 ∷ []

two-Distinct : Distinct two_of_three
unfolding mem
two-Distinct = (refl, (refl, tt))

all_voted : (v : ℕ) → mem v two_of_three ≡ true → HasVoted settled 3 0 v
unfolding do_election persist
all_voted v m = (0, refl, refl)

majorities-agree_example : ◌≡◌ {A = ℕ} 0 0
majorities-agree_example =
    majorities-agree settled (λ v k. here) 3 3 0 0 two_of_three two_of_three two-Distinct
      two-Distinct (omega arith, (omega arith, tt)) (omega arith, (omega arith, tt)) (omega arith)
      (omega arith) all_voted all_voted
