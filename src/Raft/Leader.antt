-- ===== src/Raft/Leader.antt =====
-- raftCore/raft.cpp, the leader's side of replication: Start, doHeartBeat with getPrevLogInfo, what
-- sendAppendEntries does with a reply, and leaderUpdateCommitIndex.
pub mod Commit
pub mod Beats
use kv_my.Common.{
  ℕ, zero, suc, ◌+◌, ◌-◌, ◌/◌, max, Bool, true, false, not, List, [], ◌∷◌, ◌++◌, Option, none, some,
  Outcome, ok, assert_failed, ◌>>=◌, ◌>>◌, my_assert, read_at, ltb, leb, ◌==◌, if◌then◌else◌,
  length, set, drop, get_last?,
}
use kv_my.Common.Int.{ℤ, pos, negsuc, minus_one, ◌==ℤ◌}
use kv_my.Common.Bytes.{Bytes}
use kv_my.Raft.State.{
  Raft, LogEntry, is_leader, AppendEntriesArgs, AppendEntriesReply, AppState, disconnected,
  app_normal,
}
use kv_my.Raft.Log.{
  get_last_log_index, get_new_command_index, get_slices_index_from_log_index, entry_at,
  get_log_term_from_log_index,
}
use kv_my.Raft.Persist.{RaftCodec, persist}
use kv_my.Raft.Peers.{other_peers}
use kv_my.Raft.Vote.{step_down}

unfoldable pub get_state : Raft → ℕ × Bool
get_state r = (r.current_term, is_leader r.status)

module _ ⦃codec : RaftCodec⦄ where
  -- `command` is `command.asString()`. The results are the new index, its term and `isLeader`.
  unfoldable pub start : Raft → Bytes → Raft × ℤ × ℤ × Bool
  start r command =
      if not (is_leader r.status)
      then (r, minus_one, minus_one, false)
      else let index = get_new_command_index r in
        let entry : LogEntry = record {
          command = command;
          log_term = r.current_term;
          log_index = index;
        } in
        (persist (record r { logs = r.logs ++ entry ∷ [] }), pos index, pos r.current_term, true)

-- `m_nextIndex[i] >= 1` and `m_nextIndex[i] <= m_lastSnapshotIncludeIndex`.
abbrev is_positive : ℤ → Bool
is_positive (pos n) = leb 1 n
is_positive (negsuc n) = false

abbrev le_int : ℤ → ℕ → Bool
le_int (pos n) m = leb n m
le_int (negsuc n) m = true

-- The entry before `next`; the check of the slice index fails for a negative one.
unfoldable pub prev_entry : Raft → ℤ → Outcome (ℕ × ℕ)
prev_entry r (pos n) = do e ← entry_at r (n - 1); ok (n - 1, e.log_term)
prev_entry r (negsuc n) = assert_failed

unfoldable pub get_prev_log_info : Raft → ℕ → Outcome (ℕ × ℕ)
get_prev_log_info r server = do
  next ← read_at r.next_index server
  if next ==ℤ pos (r.last_snapshot_include_index + 1)
      then ok (r.last_snapshot_include_index, r.last_snapshot_include_term)
      else prev_entry r next

-- The entries behind `prev`, up to the last.
unfoldable pub entries_behind : Raft → ℕ → Outcome (List LogEntry)
entries_behind r prev =
    if not (prev == r.last_snapshot_include_index)
    then (do slice ← get_slices_index_from_log_index r prev; ok (drop (slice + 1) r.logs))
    else ok r.logs

-- A thread that a heartbeat starts for one node.
pub data Send : Type 0 where
  send_snapshot : ℕ → Send
  send_entries : ℕ → AppendEntriesArgs → Send

-- One round of the loop of doHeartBeat.
unfoldable pub heart_beat_for : Raft → ℕ → Outcome Send
heart_beat_for r i = do
  next ← read_at r.next_index i
  my_assert (is_positive next)
  if le_int next r.last_snapshot_include_index then ok (send_snapshot i) else do
    (prev, prev_term) ← get_prev_log_info r i
    entries ← entries_behind r prev
    my_assert (prev + length entries == get_last_log_index r)
    ok (
        send_entries i (record {
          term = r.current_term;
          leader_id = r.me;
          prev_log_index = prev;
          prev_log_term = prev_term;
          entries = entries;
          leader_commit = r.commit_index;
        }))

unfoldable pub heart_beat_all : Raft → List ℕ → Outcome (List Send)
heart_beat_all r [] = ok []
heart_beat_all r (i ∷ is) = do
  send ← heart_beat_for r i
  sends ← heart_beat_all r is
  ok (send ∷ sends)

-- `appendNums`, shared by the threads, starts at 1.
unfoldable pub do_heart_beat : Raft → ℕ → Outcome (Raft × List Send)
do_heart_beat r now =
    if is_leader r.status
    then (do
      sends ← heart_beat_all r (other_peers r)
      ok (record r { last_reset_hear_beat_time = now }, sends))
    else ok (r, [])

abbrev last_term_is : ℕ → Option LogEntry → Bool
last_term_is term none = false
last_term_is term (some e) = e.log_term == term

-- The part of sendAppendEntries for a reply of success, with `appendNums`.
unfoldable pub count_success : Raft → ℕ → AppendEntriesArgs → ℕ → Outcome (Raft × ℕ)
count_success r server args append_nums = do
  old ← read_at r.match_index server
  let matched = max old (args.prev_log_index + length args.entries)
  let r' = record r {
    match_index = set r.match_index server matched;
    next_index = set r.next_index server (pos (matched + 1));
  }
  my_assert (leb (matched + 1) (get_last_log_index r + 1))
  if leb (1 + r.peers / 2) (append_nums + 1)
      then (do
        let r'' =
            if last_term_is r'.current_term (get_last? args.entries)
            then record r' {
              commit_index = max r'.commit_index (args.prev_log_index + length args.entries);
            }
            else r'
        my_assert (leb r''.commit_index (get_last_log_index r))
        ok (r'', 0))
      else ok (r', append_nums + 1)

abbrev is_disconnected : AppState → Bool
is_disconnected disconnected = true
is_disconnected app_normal = false

-- A term above the node's is taken over, and is not persisted.
unfoldable pub send_append_entries :
    Raft → ℕ → AppendEntriesArgs → Bool → AppendEntriesReply → ℕ → Outcome (Raft × ℕ)
send_append_entries r server args sent reply append_nums =
    if not sent
    then ok (r, append_nums)
    else if is_disconnected reply.app_state
    then ok (r, append_nums)
    else if ltb r.current_term reply.term
    then ok (step_down r reply.term, append_nums)
    else if ltb reply.term r.current_term
    then ok (r, append_nums)
    else if not (is_leader r.status)
    then ok (r, append_nums)
    else do
      my_assert (reply.term == r.current_term)
      if not reply.success
          then (if not (reply.update_next_index ==ℤ negsuc 99)
              then ok (
                record r { next_index = set r.next_index server reply.update_next_index },
                append_nums,
              )
              else ok (r, append_nums))
          else count_success r server args append_nums

-- `sum` of leaderUpdateCommitIndex: the nodes from `i` on that hold `index`.
unfoldable pub count_matches : Raft → ℕ → ℕ → ℕ → Outcome ℕ
count_matches r index i zero = ok 0
count_matches r index i (suc rounds) = do
  held ←
      (if i == r.me
        then ok 1
        else do m ← read_at r.match_index i; ok (if leb index m then 1 else 0))
  rest ← count_matches r index (i + 1) rounds
  ok (held + rest)

-- The loop from the last index down to the one behind the snapshot, with the rounds left.
unfoldable pub find_commit : Raft → ℕ → Outcome ℕ
find_commit r zero = ok r.last_snapshot_include_index
find_commit r (suc rounds) = do
  let index = r.last_snapshot_include_index + suc rounds
  sum ← count_matches r index 0 r.peers
  let rest = find_commit r rounds
  if leb (r.peers / 2 + 1) sum
      then (do
        t ← get_log_term_from_log_index r index
        if t == r.current_term then ok index else rest)
      else rest

unfoldable pub leader_update_commit_index : Raft → Outcome Raft
leader_update_commit_index r = do
  index ← find_commit r (get_last_log_index r - r.last_snapshot_include_index)
  ok (record r { commit_index = index })
