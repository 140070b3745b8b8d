-- ===== src/Raft/Snapshot.antt =====
-- raftCore/raft.cpp, snapshots: Snapshot, InstallSnapshot, CondInstallSnapshot and the two halves of
-- leaderSendSnapShot. `persistStateAndSnapshot`, which nothing declares, is read as the call of
-- `Save` that the other two make.
pub mod Keeps
pub mod Install
use kv_my.Common.{
  ℕ, zero, suc, ◌+◌, ◌-◌, max, Bool, true, false, not, ◌||◌, List, [], ◌∷◌, Option, none, some,
  Outcome, ok, ◌>>=◌, ◌>>◌, my_assert, ltb, leb, ◌==◌, if◌then◌else◌, length, take, drop, set,
}
use kv_my.Common.Int.{pos, negsuc}
use kv_my.Common.Bytes.{Bytes}
use kv_my.Persister
use kv_my.Raft.State.{
  Raft, LogEntry, ApplyMsg, follower, is_leader, InstallSnapshotRequest, InstallSnapshotResponse,
}
use kv_my.Raft.Log.{get_last_log_index, get_slices_index_from_log_index, entry_at}
use kv_my.Raft.Persist.{RaftCodec, persist, persist_data}
use kv_my.Raft.Vote.{step_down}

-- `trunckedLogs`: the entries from `i` on, one for each round.
unfoldable pub entries_from : Raft → ℕ → ℕ → Outcome (List LogEntry)
entries_from r i zero = ok []
entries_from r i (suc rounds) = do
  e ← entry_at r i
  rest ← entries_from r (i + 1) rounds
  ok (e ∷ rest)

-- The message that hands a snapshot to the state machine.
unfoldable pub snapshot_msg : InstallSnapshotRequest → ApplyMsg
snapshot_msg args = record {
  command_valid = false;
  command = [];
  command_index = negsuc 0;
  snapshot_valid = true;
  snapshot = args.snapshot;
  snapshot_term = pos args.last_snapshot_include_term;
  snapshot_index = pos args.last_snapshot_include_index;
}

module _ ⦃codec : RaftCodec⦄ where
  unfoldable pub save_with : Raft → Bytes → Raft
  save_with r snapshot = record r {
    persister = Persister.save r.persister (persist_data r) snapshot;
  }

  unfoldable pub snapshot : Raft → ℕ → Bytes → Outcome Raft
  snapshot r index bytes =
      if leb index r.last_snapshot_include_index || ltb r.commit_index index then ok r else do
        let last = get_last_log_index r
        e ← entry_at r index
        kept ← entries_from r (index + 1) (last - index)
        let r' =
            save_with
              (record r {
                last_snapshot_include_index = index;
                last_snapshot_include_term = e.log_term;
                logs = kept;
                commit_index = max r.commit_index index;
                last_applied = max r.last_applied index;
              })
              bytes
        my_assert (length r'.logs + r'.last_snapshot_include_index == last)
        ok r'

  -- `m_logs` behind the snapshot of the request.
  unfoldable pub logs_behind : Raft → ℕ → Outcome (List LogEntry)
  logs_behind r index =
      if ltb index (get_last_log_index r)
      then (do slice ← get_slices_index_from_log_index r index; ok (drop (slice + 1) r.logs))
      else ok []

  -- The node that has taken over the term of the request, if that is higher.
  unfoldable pub heard_request : Raft → InstallSnapshotRequest → ℕ → Raft
  heard_request r args now =
      let r' = if ltb r.current_term args.term then persist (step_down r args.term) else r in
      record r' { status = follower; last_reset_election_time = now }

  -- The state behind the snapshot of the request.
  unfoldable pub installed : Raft → InstallSnapshotRequest → List LogEntry → Raft
  installed r args kept = record r {
    logs = kept;
    commit_index = max r.commit_index args.last_snapshot_include_index;
    last_applied = max r.last_applied args.last_snapshot_include_index;
    last_snapshot_include_index = args.last_snapshot_include_index;
    last_snapshot_include_term = args.last_snapshot_include_term;
  }

  -- The node, the reply, and the message that a thread pushes.
  unfoldable pub install_snapshot :
      Raft
      → InstallSnapshotRequest
      → InstallSnapshotResponse
      → ℕ
      → Outcome (Raft × InstallSnapshotResponse × Option ApplyMsg)
  install_snapshot r args reply now =
      if ltb args.term r.current_term
      then ok (r, record reply { term = r.current_term }, none)
      else let r' = heard_request r args now in
        if leb args.last_snapshot_include_index r'.last_snapshot_include_index
        then ok (r', reply, none)
        else do
          kept ← logs_behind r' args.last_snapshot_include_index
          let r'' = installed r' args kept
          ok (
            save_with r'' args.snapshot,
            record reply { term = r''.current_term },
            some (snapshot_msg args),
          )

  -- The entries that CondInstallSnapshot keeps: none, or those up to the snapshot's index.
  unfoldable pub cond_logs : Raft → ℕ → Outcome (List LogEntry)
  cond_logs r index =
      if ltb (get_last_log_index r) index
      then ok []
      else do slice ← get_slices_index_from_log_index r (index + 1); ok (take slice r.logs)

  unfoldable pub cond_install_snapshot : Raft → ℕ → ℕ → Bytes → Outcome (Raft × Bool)
  cond_install_snapshot r term index bytes = if leb index r.commit_index then ok (r, false) else do
    kept ← cond_logs r index
    ok (
      save_with
          (record r {
            logs = kept;
            last_snapshot_include_index = index;
            last_snapshot_include_term = term;
            last_applied = index;
            commit_index = index;
          })
          bytes,
      true,
    )

  -- leaderSendSnapShot up to the call; the snapshot is read from its file.
  unfoldable pub snapshot_request : Raft → Raft × InstallSnapshotRequest
  snapshot_request r =
      let (p, bytes) = Persister.read_snapshot r.persister in
      (
        record r { persister = p },
        record {
          leader_id = r.me;
          term = r.current_term;
          last_snapshot_include_index = r.last_snapshot_include_index;
          last_snapshot_include_term = r.last_snapshot_include_term;
          snapshot = bytes;
        },
      )

  -- leaderSendSnapShot from the reply on.
  unfoldable pub leader_send_snap_shot :
      Raft → ℕ → InstallSnapshotRequest → Bool → InstallSnapshotResponse → ℕ → Raft
  leader_send_snap_shot r server args sent reply now =
      if not sent
      then r
      else if not (is_leader r.status) || not (r.current_term == args.term)
      then r
      else if ltb r.current_term reply.term
      then record (persist (step_down r reply.term)) { last_reset_election_time = now }
      else record r {
        match_index = set r.match_index server args.last_snapshot_include_index;
        next_index = set r.next_index server (pos (args.last_snapshot_include_index + 1));
      }
