-- ===== src/Raft/Log.antt =====
-- raftCore/raft.cpp, the log behind its snapshot: which index stands where in `m_logs`.
pub mod Indexing
use kv_my.Common.{
  ℕ, suc, ◌+◌, ◌-◌, Bool, Option, none, some, List, Outcome, ok, ◌>>=◌, ◌>>◌, my_assert, read_at,
  ltb, leb, ◌==◌, if◌then◌else◌, get_last?, ◌&&◌, ◌||◌,
}
use kv_my.Raft.State.{Raft, LogEntry}

-- `getLastLogIndexAndTerm`: what the last entry says, or the snapshot's if there is none.
abbrev pub index_and_term_of : ℕ × ℕ → Option LogEntry → ℕ × ℕ
index_and_term_of snap none = snap
index_and_term_of snap (some e) = (e.log_index, e.log_term)

unfoldable pub get_last_log_index_and_term : Raft → ℕ × ℕ
get_last_log_index_and_term r =
    index_and_term_of (r.last_snapshot_include_index, r.last_snapshot_include_term)
      (get_last? r.logs)

unfoldable pub get_last_log_index : Raft → ℕ
unfolding get_last_log_index_and_term
get_last_log_index r = (get_last_log_index_and_term r).0

unfoldable pub get_last_log_term : Raft → ℕ
unfolding get_last_log_index_and_term
get_last_log_term r = (get_last_log_index_and_term r).1

unfoldable pub get_new_command_index : Raft → ℕ
get_new_command_index r = get_last_log_index r + 1

unfoldable pub get_slices_index_from_log_index : Raft → ℕ → Outcome ℕ
get_slices_index_from_log_index r log_index = do
  my_assert (ltb r.last_snapshot_include_index log_index)
  my_assert (leb log_index (get_last_log_index r))
  ok (log_index - r.last_snapshot_include_index - 1)

-- `m_logs[getSlicesIndexFromLogIndex(logIndex)]`.
unfoldable pub entry_at : Raft → ℕ → Outcome LogEntry
entry_at r log_index = do slice ← get_slices_index_from_log_index r log_index; read_at r.logs slice

unfoldable pub get_log_term_from_log_index : Raft → ℕ → Outcome ℕ
get_log_term_from_log_index r log_index = do
  my_assert (leb r.last_snapshot_include_index log_index)
  my_assert (leb log_index (get_last_log_index r))
  if log_index == r.last_snapshot_include_index
      then ok r.last_snapshot_include_term
      else do e ← entry_at r log_index; ok e.log_term

unfoldable pub match_log : Raft → ℕ → ℕ → Outcome Bool
match_log r log_index log_term = do
  my_assert (leb r.last_snapshot_include_index log_index && leb log_index (get_last_log_index r))
  t ← get_log_term_from_log_index r log_index
  ok (log_term == t)

unfoldable pub up_to_date : Raft → ℕ → ℕ → Bool
unfolding get_last_log_index_and_term
up_to_date r index term =
    let last = get_last_log_index_and_term r in
    ltb last.1 term || (term == last.1 && leb last.0 index)
