-- ===== src/Raft/Tests/Replication.antt =====
-- Replication, commitment and application at a concrete node.
use kv_my.Common.{
  ◌++◌, All, List, ◌≤◌, ◌<◌, ℕ, ◌≡◌, ◌≢◌, refl, true, false, ok, arith, [], ◌∷◌, map,
}
use kv_my.Common.Int.{pos}
use kv_my.Raft.State.{Raft, app_normal, AppendEntriesArgs, AppendEntriesReply}
use kv_my.Raft.Log.{
  get_log_term_from_log_index, get_last_log_index, entry_at, get_slices_index_from_log_index,
}
use kv_my.Raft.Log.Indexing.{IsContiguous}
use kv_my.Raft.Persist.{persist}
use kv_my.Raft.Append.{append_entries}
use kv_my.Raft.Append.Branches.{heard, accepted, Fits, append_entries-accepts}
use kv_my.Raft.Append.Hint.{IsHint, append_entries-rejects}
use kv_my.Raft.Leader.{leader_update_commit_index}
use kv_my.Raft.Leader.Commit.{Found, leader_update_commit_index-Found}
use kv_my.Raft.Peers.{numbers}
use kv_my.Raft.Leader.{Send, send_entries, do_heart_beat}
use kv_my.Raft.Leader.Beats.{IsRight, IsNext, others, target, do_heart_beat-IsRight}
use kv_my.Raft.Node.Rounds.{append_entries-replicates}
use kv_my.Raft.Apply.{get_apply_logs}
use kv_my.Raft.Apply.Order.{msg_of, pending, get_apply_logs-pending}
use kv_my.Raft.Tests.{node, chief, entry, entries_args, entries_reply}
use kv_my.Raft.Tests.Codec.{texts}

node-IsContiguous : IsContiguous node
node-IsContiguous = (refl, (refl, (refl, tt)))

entries_args-Fits : Fits node entries_args
unfolding get_log_term_from_log_index get_last_log_index entry_at get_slices_index_from_log_index
entries_args-Fits = record {
  snapshot_le = omega arith;
  prev_le = omega arith;
  prev_term = refl;
  follows = (refl, tt);
  agrees = (λ old h. cc, tt);
}

append_entries-accepts_example :
    append_entries node entries_args (entries_reply 0) 7
    ≡ ok (
      persist (accepted node entries_args 7),
      record (entries_reply 0) { app_state = app_normal; success = true; term = 3 },
    )
append_entries-accepts_example =
    append_entries-accepts node entries_args (entries_reply 0) 7 node-IsContiguous (omega arith)
      entries_args-Fits (omega arith)

abbrev wrong_term : AppendEntriesArgs
wrong_term = record entries_args { prev_log_index = 2; prev_log_term = 2 }

term_at_2 : get_log_term_from_log_index node 2 ≡ ok 1
unfolding get_log_term_from_log_index get_last_log_index entry_at get_slices_index_from_log_index
term_at_2 = refl

one_ne_two : ◌≢◌ {A = ℕ} 1 2
one_ne_two h = absurd (omega arith)

append_entries-rejects_example :
    (h : ℕ) × (append_entries node wrong_term (entries_reply 0) 7
      ≡ ok (
        persist (heard node wrong_term 7),
        record (entries_reply 0) {
          app_state = app_normal;
          success = false;
          term = 3;
          update_next_index = pos h;
        },
      ))
    × IsHint (heard node wrong_term 7) 2 1 h
append_entries-rejects_example =
    append_entries-rejects node wrong_term (entries_reply 0) 7 node-IsContiguous (omega arith) 1
      (omega arith) (omega arith) term_at_2 one_ne_two

-- The node after a snapshot of its first two entries.
abbrev compact_node : Raft
compact_node = record node {
  logs = entry 3 2 ∷ [];
  last_snapshot_include_index = 2;
  last_snapshot_include_term = 1;
  last_applied = 2;
}

compact_node-IsContiguous : IsContiguous compact_node
compact_node-IsContiguous = (refl, tt)

leader_update_commit_index-Found_example :
    (index : ℕ) × (leader_update_commit_index chief ≡ ok (record chief { commit_index = index }))
    × Found chief 3 index
leader_update_commit_index-Found_example =
    leader_update_commit_index-Found chief node-IsContiguous refl

get_apply_logs-pending_example :
    get_apply_logs node ≡ ok (record node { last_applied = 2 }, map msg_of (pending node))
get_apply_logs-pending_example =
    get_apply_logs-pending node node-IsContiguous (omega arith) (omega arith)

chief-nexts : All (IsNext chief node-IsContiguous) (others chief node-IsContiguous)
unfolding numbers
chief-nexts = ((3, refl, omega arith), ((3, refl, omega arith), tt))

do_heart_beat-IsRight_example :
    (sends : List Send) × (do_heart_beat chief 8
      ≡ ok (record chief { last_reset_hear_beat_time = 8 }, sends))
    × All (IsRight chief) sends
    × (map target sends ≡ numbers 0 0 ++ numbers 1 2)
do_heart_beat-IsRight_example =
    do_heart_beat-IsRight chief node-IsContiguous 8 refl (omega arith) chief-nexts

-- A leader with one entry more than the node, in the node's next term.
abbrev sender : Raft
sender = record chief {
  current_term = 3;
  logs = entry 1 1 ∷ entry 2 1 ∷ entry 3 2 ∷ entry 4 3 ∷ [];
  commit_index = 3;
}

sender-IsRight : IsRight sender (send_entries 1 entries_args)
unfolding get_log_term_from_log_index get_last_log_index entry_at get_slices_index_from_log_index
sender-IsRight = (refl, omega arith, refl, refl, refl, refl)

append_entries-replicates_example :
    (f' : Raft) × (reply' : AppendEntriesReply) × (append_entries node entries_args
        (entries_reply 0)
        7
      ≡ ok (f', reply'))
    × (reply'.success ≡ true)
    × ((i : ℕ) → 3 < i → i ≤ 4 → entry_at f' i ≡ entry_at sender i)
append_entries-replicates_example =
    append_entries-replicates sender node (refl, (refl, (refl, (refl, tt)))) node-IsContiguous 1
      entries_args (entries_reply 0) 7 sender-IsRight (omega arith) entries_args-Fits (omega arith)
