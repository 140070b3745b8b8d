-- ===== src/Raft/Append.antt =====
-- raftCore/raft.cpp, the follower's side of replication: the handler AppendEntries1. The source
-- writes `m_lastSnapshotIncludeIndex()` where it means the member.
pub mod Splice
pub mod Hint
pub mod Branches
pub mod Refusals
pub mod Merge
use kv_my.Common.{
  ℕ, zero, suc, ◌+◌, ◌-◌, min, true, false, not, ◌&&◌, List, [], ◌∷◌, ◌++◌, Outcome, ok, ◌>>=◌,
  ◌>>◌, my_assert, ltb, leb, ◌==◌, if◌then◌else◌, length, set, read_at,
}
use kv_my.Common.Int.{pos, negsuc}
use kv_my.Common.Bytes.{bytes_eq}
use kv_my.Raft.State.{Raft, LogEntry, follower, AppendEntriesArgs, AppendEntriesReply, app_normal}
use kv_my.Raft.Log.{
  get_last_log_index, get_slices_index_from_log_index, get_log_term_from_log_index, match_log,
}
use kv_my.Raft.Persist.{RaftCodec, persist}
use kv_my.Raft.Vote.{step_down}

-- One round of the loop over `args->entries`.
unfoldable pub append_entry : Raft → LogEntry → Outcome Raft
append_entry r log =
    if ltb (get_last_log_index r) log.log_index
    then ok (record r { logs = r.logs ++ log ∷ [] })
    else do
      slice ← get_slices_index_from_log_index r log.log_index
      old ← read_at r.logs slice
      my_assert (not (old.log_term == log.log_term && not (bytes_eq old.command log.command)))
      if not (old.log_term == log.log_term)
          then ok (record r { logs = set r.logs slice log })
          else ok r

unfoldable pub append_all : Raft → List LogEntry → Outcome Raft
append_all r [] = ok r
append_all r (log ∷ rest) = do r' ← append_entry r log; append_all r' rest

-- `for (index = prevlogindex; index >= m_lastSnapshotIncludeIndex; --index)`, with the rounds left:
-- the index is the snapshot's and the rounds that follow this one.
unfoldable pub back_up : Raft → ℕ → ℕ → Outcome ℕ
back_up r prev zero = ok prev
back_up r prev (suc rounds) = do
  t ← get_log_term_from_log_index r (r.last_snapshot_include_index + rounds)
  u ← get_log_term_from_log_index r prev
  let rest = back_up r prev rounds
  if not (t == u) then ok (r.last_snapshot_include_index + rounds + 1) else rest

-- The commit index follows the leader's, up to the last entry.
unfoldable pub follow_commit : Raft → ℕ → Raft
follow_commit r leader_commit = record r {
  commit_index =
      if ltb r.commit_index leader_commit
      then min leader_commit (get_last_log_index r)
      else r.commit_index;
}

-- The branch in which `matchLog` holds.
unfoldable pub accept_entries :
    Raft → AppendEntriesArgs → AppendEntriesReply → Outcome (Raft × AppendEntriesReply)
accept_entries r args reply = do
  r' ← append_all r args.entries
  my_assert (leb (args.prev_log_index + length args.entries) (get_last_log_index r'))
  let r'' = follow_commit r' args.leader_commit
  my_assert (leb r''.commit_index (get_last_log_index r''))
  ok (r'', record reply { success = true; term = r''.current_term })

-- The branch in which it does not.
unfoldable pub reject_entries :
    Raft → AppendEntriesArgs → AppendEntriesReply → Outcome (Raft × AppendEntriesReply)
reject_entries r args reply = do
  hint ← back_up r args.prev_log_index (args.prev_log_index + 1 - r.last_snapshot_include_index)
  ok (r, record reply { update_next_index = pos hint; success = false; term = r.current_term })

unfoldable pub match_entries :
    Raft → AppendEntriesArgs → AppendEntriesReply → Outcome (Raft × AppendEntriesReply)
match_entries r args reply = do
  matched ← match_log r args.prev_log_index args.prev_log_term
  if matched then accept_entries r args reply else reject_entries r args reply

-- A previous index that the snapshot covers sets the reply, and the handler goes on: there is no
-- `return`.
unfoldable pub covered_reply : Raft → AppendEntriesArgs → AppendEntriesReply → AppendEntriesReply
covered_reply r args reply =
    if ltb args.prev_log_index r.last_snapshot_include_index
    then record reply {
      success = false;
      term = r.current_term;
      update_next_index = pos (r.last_snapshot_include_index + 1);
    }
    else reply

unfoldable pub check_prev :
    Raft → AppendEntriesArgs → AppendEntriesReply → Outcome (Raft × AppendEntriesReply)
check_prev r args reply =
    if ltb (get_last_log_index r) args.prev_log_index
    then ok (
      r,
      record reply {
        success = false;
        term = r.current_term;
        update_next_index = pos (get_last_log_index r + 1);
      },
    )
    else match_entries r args (covered_reply r args reply)

-- The part of the handler behind the check of the term.
unfoldable pub append_entries_body :
    Raft → AppendEntriesArgs → AppendEntriesReply → ℕ → Outcome (Raft × AppendEntriesReply)
append_entries_body r args reply now = do
  let r' = if ltb r.current_term args.term then step_down r args.term else r
  my_assert (args.term == r'.current_term)
  check_prev (record r' { status = follower; last_reset_election_time = now }) args reply

module _ ⦃codec : RaftCodec⦄ where
  unfoldable pub append_entries :
      Raft → AppendEntriesArgs → AppendEntriesReply → ℕ → Outcome (Raft × AppendEntriesReply)
  append_entries r args reply now =
      if ltb args.term r.current_term
      then ok (
        r,
        record reply {
          app_state = app_normal;
          success = false;
          term = r.current_term;
          update_next_index = negsuc 99;
        },
      )
      else do
        (r', reply') ← append_entries_body r args (record reply { app_state = app_normal }) now
        ok (persist r', reply')
