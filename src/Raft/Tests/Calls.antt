-- ===== src/Raft/Tests/Calls.antt =====
-- The theorems on all calls, at a concrete node.
use kv_my.Common.{◌≡◌, refl, ok, arith}
use kv_my.Persister.{save_raft_state, clear_raft_state, write_raft_state}
use kv_my.Raft.State.{Raft}
use kv_my.Raft.Persist.{persist}
use kv_my.Raft.Vote.{do_election}
use kv_my.Raft.Node.{step, election_timeout}
use kv_my.Raft.Node.Saved.{IsSaved}
use kv_my.Raft.Node.Saved.Steps.{step-IsSaved}
use kv_my.Raft.Node.Form.{WellFormed}
use kv_my.Raft.Node.Form.Steps.{step-WellFormed}
use kv_my.Raft.Tests.{node, chief}
use kv_my.Raft.Tests.Codec.{texts}

node-WellFormed : WellFormed node
node-WellFormed = record {
  contiguous = (refl, (refl, (refl, tt)));
  committed = omega arith;
  applied = omega arith;
  snapshot_applied = omega arith;
  nexts = refl;
  matches = refl;
}

pub chief-WellFormed : WellFormed chief
chief-WellFormed = record {
  contiguous = (refl, (refl, (refl, tt)));
  committed = omega arith;
  applied = omega arith;
  snapshot_applied = omega arith;
  nexts = refl;
  matches = refl;
}

abbrev saved_node : Raft
saved_node = persist node

saved_node-IsSaved : IsSaved saved_node
unfolding persist save_raft_state clear_raft_state write_raft_state kv_my.Raft.Persist.persist_data
saved_node-IsSaved = refl

abbrev voter : Raft
voter = (do_election node 5).0

election : step node (election_timeout 5) ≡ ok voter
unfolding step
election = refl

step-WellFormed_example : WellFormed voter
step-WellFormed_example =
    step-WellFormed node voter (election_timeout 5) election tt node-WellFormed

abbrev saved_voter : Raft
saved_voter = (do_election saved_node 5).0

saved_election : step saved_node (election_timeout 5) ≡ ok saved_voter
unfolding step
saved_election = refl

step-IsSaved_example : IsSaved saved_voter
step-IsSaved_example =
    step-IsSaved saved_node saved_voter (election_timeout 5) saved_election tt saved_node-IsSaved
