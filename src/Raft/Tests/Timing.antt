-- ===== src/Raft/Tests/Timing.antt =====
-- The election ticker at a follower.
use kv_my.Common.{◌+◌, ◌*◌, ◌≤◌, ◌≡◌, refl, some, arith}
use kv_my.Raft.State.{candidate}
use kv_my.Raft.Tickers.{ms, sleep_for, election_begin, election_end, election_end-due}
use kv_my.Raft.Tests.{node}
use kv_my.Raft.Tests.Codec.{texts}

begun : election_begin node 300 5 ≡ some 299999
unfolding election_begin sleep_for
begun = refl

election_end-due_example :
    ((election_end 5 299999005 node).0.current_term ≡ node.current_term + 1)
    × ((election_end 5 299999005 node).0.status ≡ candidate)
    × (node.last_reset_election_time + 300 * ms ≤ 299999005 + ms)
election_end-due_example =
    election_end-due node node 300 5 299999005 299999 begun (omega arith) refl (omega arith) refl
