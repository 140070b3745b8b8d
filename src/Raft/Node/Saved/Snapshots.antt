-- ===== src/Raft/Node/Saved/Snapshots.antt =====
-- The saved state after each handler of snapshots.
use kv_my.Common.{
  ℕ, ◌+◌, ◌-◌, ◌≡◌, Bool, Option, inl, inr, arith, ok, >>=-eq-ok, ltb, leb, Bool-cases, max, ◌||◌,
  set,
}
use kv_my.Common.Bytes.{Bytes}
use kv_my.Common.Int.{pos}
use kv_my.Raft.State.{Raft, follower, ApplyMsg, InstallSnapshotRequest, InstallSnapshotResponse}
use kv_my.Raft.Log.{entry_at, get_last_log_index}
use kv_my.Raft.Persist.{RaftCodec, persist}
use kv_my.Raft.Vote.{step_down}
use kv_my.Raft.Snapshot.{
  entries_from, logs_behind, cond_logs, snapshot, heard_request, installed, install_snapshot,
  cond_install_snapshot, leader_send_snap_shot,
}
use kv_my.Raft.Node.Saved.{IsSaved, persist-IsSaved, save_with-IsSaved, Untouched-IsSaved}

module _ ⦃codec : RaftCodec⦄ where
  pub snapshot-IsSaved :
      (r r' : Raft) (index : ℕ) (bytes : Bytes)
      → snapshot r index bytes ≡ ok r'
      → IsSaved r
      → IsSaved r'
  unfolding snapshot
  snapshot-IsSaved r r' index bytes done s =
      elim (Bool-cases (leb index r.last_snapshot_include_index || ltb r.commit_index index)) [
        | inl refused ↦ ground arith
        | inr taken ↦
            let last = get_last_log_index r in
            let (e, read, rest) = >>=-eq-ok (entry_at r index) _ (rw taken at done) in
            let (kept, all, end) = >>=-eq-ok (entries_from r (index + 1) (last - index)) _ rest in
            let r1 : Raft = record r {
              last_snapshot_include_index = index;
              last_snapshot_include_term = e.log_term;
              logs = kept;
              commit_index = max r.commit_index index;
              last_applied = max r.last_applied index;
            } in
            ground (arith, save_with-IsSaved r1 bytes)
      ]

  pub heard_request-IsSaved :
      (r : Raft) (args : InstallSnapshotRequest) (now : ℕ)
      → IsSaved r
      → IsSaved (heard_request r args now)
  unfolding heard_request
  heard_request-IsSaved r args now s = elim (Bool-cases (ltb r.current_term args.term)) [
    | inl higher ↦
        let r1 = persist (step_down r args.term) in
        rw higher (
          Untouched-IsSaved r1 (record r1 { status = follower; last_reset_election_time = now })
            (ground arith) (persist-IsSaved (step_down r args.term)))
    | inr same ↦ rw same (
        Untouched-IsSaved r (record r { status = follower; last_reset_election_time = now })
          (ground arith) s)
  ]

  pub install_snapshot-IsSaved :
      (r : Raft) (done : Raft × InstallSnapshotResponse × Option ApplyMsg)
      (args : InstallSnapshotRequest) (reply : InstallSnapshotResponse) (now : ℕ)
      → install_snapshot r args reply now ≡ ok done
      → IsSaved r
      → IsSaved done.0
  unfolding install_snapshot
  install_snapshot-IsSaved r done args reply now h s =
      let r1 = heard_request r args now in
      elim (Bool-cases (ltb args.term r.current_term)) [
        | inl stale ↦ ground arith
        | inr current ↦
            elim (Bool-cases
              (leb args.last_snapshot_include_index r1.last_snapshot_include_index)) [
                | inl old ↦ ground (arith, heard_request-IsSaved r args now s)
                | inr newer ↦
                    let (kept, all, end) =
                      >>=-eq-ok (logs_behind r1 args.last_snapshot_include_index) _
                        (rw (current, newer) at h) in
                    ground (arith, save_with-IsSaved (installed r1 args kept) args.snapshot)
              ]
      ]

  pub leader_send_snap_shot-IsSaved :
      (r : Raft) (server : ℕ) (args : InstallSnapshotRequest) (sent : Bool)
      (reply : InstallSnapshotResponse) (now : ℕ)
      → IsSaved r
      → IsSaved (leader_send_snap_shot r server args sent reply now)
  unfolding leader_send_snap_shot
  leader_send_snap_shot-IsSaved r server args sent reply now s =
      let r1 = persist (step_down r reply.term) in
      let r2 : Raft = record r1 { last_reset_election_time = now } in
      let r3 : Raft = record r {
        match_index = set r.match_index server args.last_snapshot_include_index;
        next_index = set r.next_index server (pos (args.last_snapshot_include_index + 1));
      } in
      ground (
        arith,
        Untouched-IsSaved r1 r2 (ground arith) (persist-IsSaved (step_down r reply.term)),
        Untouched-IsSaved r r3 (ground arith) s,
      )

  pub cond_install_snapshot-IsSaved :
      (r r' : Raft) (term index : ℕ) (bytes : Bytes) (b : Bool)
      → cond_install_snapshot r term index bytes ≡ ok (r', b)
      → IsSaved r
      → IsSaved r'
  unfolding cond_install_snapshot
  cond_install_snapshot-IsSaved r r' term index bytes b done s =
      elim (Bool-cases (leb index r.commit_index)) [
        | inl refused ↦ ground arith
        | inr taken ↦
            let (kept, all, end) = >>=-eq-ok (cond_logs r index) _ (rw taken at done) in
            let r1 : Raft = record r {
              logs = kept;
              last_snapshot_include_index = index;
              last_snapshot_include_term = term;
              last_applied = index;
              commit_index = index;
            } in
            ground (arith, save_with-IsSaved r1 bytes)
      ]
