-- ===== src/Raft/Append/Refusals.antt =====
-- Which messages AppendEntries1 refuses, and which end the process.
use kv_my.Common.{
  ℕ, ◌+◌, ◌≤◌, ◌<◌, ◌≡◌, false, arith, ok, assert_failed, lt→ltb, le→ltb-false, length,
}
use kv_my.Common.Int.{pos, negsuc}
use kv_my.Raft.State.{Raft, AppendEntriesArgs, AppendEntriesReply, app_normal}
use kv_my.Raft.Log.Indexing.{IsContiguous, get_last_log_index-length, match_log-below}
use kv_my.Raft.Persist.{RaftCodec, persist}
use kv_my.Raft.Append.{match_entries, check_prev, covered_reply, append_entries}
use kv_my.Raft.Append.Branches.{heard, body-heard}

module _ ⦃codec : RaftCodec⦄ (r : Raft) (args : AppendEntriesArgs) (reply : AppendEntriesReply)
    (now : ℕ) (c : IsContiguous r) (le : r.current_term ≤ args.term) where
  abbrev heard_reply : AppendEntriesReply
  heard_reply = record reply { app_state = app_normal }

  -- A message, not of an older term, with a previous index behind the log is refused with the index
  -- behind the last entry as the hint; the node takes over the term, is a follower, and persists.
  pub append_entries-too_far :
      r.last_snapshot_include_index + length r.logs < args.prev_log_index
      → append_entries r args reply now
        ≡ ok (
          persist (heard r args now),
          record reply {
            app_state = app_normal;
            success = false;
            term = args.term;
            update_next_index = pos (r.last_snapshot_include_index + length r.logs + 1);
          },
        )
  unfolding append_entries check_prev covered_reply
  append_entries-too_far far = rw (
    le→ltb-false args.term r.current_term le,
    body-heard r args heard_reply now le,
    get_last_log_index-length (heard r args now) c,
    lt→ltb _ _ far,
  )

  -- A message, not of an older term, with a previous index that the node's snapshot covers ends the
  -- process: for want of a `return` the handler goes on to `matchLog`, whose check fails.
  pub append_entries-covered :
      args.prev_log_index < r.last_snapshot_include_index
      → append_entries r args reply now ≡ assert_failed
  unfolding append_entries check_prev covered_reply match_entries
  append_entries-covered covered = rw (
    le→ltb-false args.term r.current_term le,
    body-heard r args heard_reply now le,
    get_last_log_index-length (heard r args now) c,
    le→ltb-false (r.last_snapshot_include_index + length r.logs) args.prev_log_index (omega arith),
    lt→ltb _ _ covered,
    match_log-below (heard r args now) c args.prev_log_index args.prev_log_term covered,
  )

-- A leader of an older term is told the node's, and changes nothing.
pub append_entries-stale :
    ⦃codec : RaftCodec⦄ (r : Raft) (args : AppendEntriesArgs) (reply : AppendEntriesReply) (now : ℕ)
    → args.term < r.current_term
    → append_entries r args reply now
      ≡ ok (
        r,
        record reply {
          app_state = app_normal;
          success = false;
          term = r.current_term;
          update_next_index = negsuc 99;
        },
      )
unfolding append_entries
append_entries-stale r args reply now stale = rw (lt→ltb args.term r.current_term stale)
