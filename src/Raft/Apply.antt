-- ===== src/Raft/Apply.antt =====
-- raftCore/raft.cpp, getApplyLogs, a round of applierTicker, pushMsgToKvServer, and init.
pub mod Restart
pub mod Order
use kv_my.Common.{
  ℕ, zero, suc, ◌+◌, ◌-◌, true, false, List, [], ◌∷◌, ◌++◌, Outcome, ok, ◌>>=◌, ◌>>◌, my_assert,
  ltb, leb, ◌==◌, if◌then◌else◌, replicate,
}
use kv_my.Common.Int.{pos, negsuc, minus_one}
use kv_my.Common.Bytes.{Bytes}
use kv_my.Persister
use kv_my.Persister.{Persister}
use kv_my.Raft.State.{Raft, ApplyMsg, follower}
use kv_my.Raft.Log.{get_last_log_index, entry_at}
use kv_my.Raft.Persist.{RaftCodec, read_persist}

unfoldable pub command_msg : Bytes → ℕ → ApplyMsg
command_msg command index = record {
  command_valid = true;
  command = command;
  command_index = pos index;
  snapshot_valid = false;
  snapshot = [];
  snapshot_term = negsuc 0;
  snapshot_index = negsuc 0;
}

-- `while (m_lastApplied < m_commitIndex)`, with the rounds that are left.
unfoldable pub apply_loop : Raft → ℕ → Outcome (Raft × List ApplyMsg)
apply_loop r zero = ok (r, [])
apply_loop r (suc rounds) = do
  let r' = record r { last_applied = r.last_applied + 1 }
  e ← entry_at r' r'.last_applied
  my_assert (e.log_index == r'.last_applied)
  (r'', msgs) ← apply_loop r' rounds
  ok (r'', command_msg e.command r'.last_applied ∷ msgs)

unfoldable pub get_apply_logs : Raft → Outcome (Raft × List ApplyMsg)
get_apply_logs r = do
  my_assert (leb r.commit_index (get_last_log_index r))
  apply_loop r (r.commit_index - r.last_applied)

unfoldable pub push_msg : Raft → ApplyMsg → Raft
push_msg r msg = record r { apply_chan = r.apply_chan ++ msg ∷ [] }

unfoldable pub push_all : Raft → List ApplyMsg → Raft
push_all r [] = r
push_all r (m ∷ ms) = push_all (push_msg r m) ms

-- One round of the loop of applierTicker.
unfoldable pub applier_tick : Raft → Outcome Raft
applier_tick r = do (r', msgs) ← get_apply_logs r; ok (push_all r' msgs)

-- The node before it reads its files.
abbrev pub fresh : ℕ → ℕ → Persister → List ApplyMsg → ℕ → Raft
fresh peers me p apply_ch now = record {
  peers = peers;
  persister = p;
  me = me;
  current_term = 0;
  voted_for = minus_one;
  logs = [];
  commit_index = 0;
  last_applied = 0;
  next_index = replicate peers (pos 0);
  match_index = replicate peers 0;
  status = follower;
  apply_chan = apply_ch;
  last_reset_election_time = now;
  last_reset_hear_beat_time = now;
  last_snapshot_include_index = 0;
  last_snapshot_include_term = 0;
}

module _ ⦃codec : RaftCodec⦄ where
  unfoldable pub init : ℕ → ℕ → Persister → List ApplyMsg → ℕ → Raft
  init peers me p apply_ch now =
      let r = read_persist (fresh peers me p apply_ch now) (Persister.read_raft_state p) in
      if ltb 0 r.last_snapshot_include_index
      then record r { last_applied = r.last_snapshot_include_index }
      else r
