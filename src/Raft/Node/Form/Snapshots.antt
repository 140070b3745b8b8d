-- ===== src/Raft/Node/Form/Snapshots.antt =====
-- The calls that cut the log keep its invariant.
use native.Mathlib.Decide.{dec_lt}
use kv_my.Common.{
  ℕ, ◌+◌, ◌-◌, ◌≤◌, ◌<◌, ◌≡◌, ◌⊎◌, subst, Bool, true, false, ◌||◌, Option, none, some, List, [],
  inl, inr, arith, ok, ok_unique, ltb, leb, lt→ltb, le→leb, lt→leb-false, Bool-cases, length, drop,
  length-drop, drop-eq-nil,
}
use kv_my.Common.Bytes.{Bytes}
use kv_my.Raft.State.{Raft, LogEntry, InstallSnapshotRequest, InstallSnapshotResponse, ApplyMsg}
use kv_my.Raft.Log.Indexing.{Contiguous, Contiguous-drop, get_last_log_index-length}
use kv_my.Raft.Persist.{RaftCodec, persist}
use kv_my.Raft.Vote.{step_down}
use kv_my.Raft.Snapshot.{
  save_with, snapshot_msg, snapshot, heard_request, installed, install_snapshot, cond_logs,
  cond_install_snapshot,
}
use kv_my.Raft.Snapshot.Keeps.{compacted, snapshot-compacted, compacted-IsContiguous}
use kv_my.Raft.Snapshot.Install.{logs_behind-drop}
use kv_my.Raft.Node.Form.{WellFormed}

Contiguous-cut :
    (b b' : ℕ) (es : List LogEntry) → Contiguous b es → b ≤ b' → Contiguous b' (drop (b' - b) es)
Contiguous-cut b b' es c le = elim (dec_lt (length es) (b' - b)) [
  | yes beyond ↦ rw (drop-eq-nil (b' - b) es (omega arith)) tt
  | no within ↦ Contiguous-drop b es (b' - b) b' c (omega arith) (omega arith)
]

module _ ⦃codec : RaftCodec⦄ where
  save_with-WellFormed : (r : Raft) (bytes : Bytes) → WellFormed r → WellFormed (save_with r bytes)
  unfolding save_with
  save_with-WellFormed r bytes w = ground arith

  pub snapshot-WellFormed :
      (r r' : Raft) (index : ℕ) (bytes : Bytes)
      → snapshot r index bytes ≡ ok r'
      → WellFormed r
      → WellFormed r'
  unfolding snapshot
  snapshot-WellFormed r r' index bytes done w =
      elim (Bool-cases (leb index r.last_snapshot_include_index || ltb r.commit_index index)) [
        | inl refused ↦ subst WellFormed (ok_unique (rw refused) done) w
        | inr taken ↦
            let lo : r.last_snapshot_include_index < index = ground arith in
            let hi : index ≤ r.commit_index = ground arith in
            let (e, read, made) = snapshot-compacted r index bytes w.contiguous lo hi w.committed in
            let size = length-drop (index - r.last_snapshot_include_index) r.logs in
            let w' : WellFormed (compacted r index e.log_term) = record {
              contiguous =
                  compacted-IsContiguous r index e.log_term w.contiguous (omega arith)
                    (omega (arith, w.committed));
              committed = omega (arith, size, w.committed);
              applied = omega (arith, size, w.committed, w.applied);
              snapshot_applied = omega arith;
              nexts = w.nexts;
              matches = w.matches;
            } in
            subst WellFormed (ok_unique made done) (save_with-WellFormed _ bytes w')
      ]

  heard_request-WellFormed :
      (r : Raft) (args : InstallSnapshotRequest) (now : ℕ)
      → WellFormed r
      → WellFormed (heard_request r args now)
  unfolding heard_request persist step_down
  heard_request-WellFormed r args now w = ground arith

  installed-WellFormed :
      (r : Raft) (args : InstallSnapshotRequest)
      → r.last_snapshot_include_index < args.last_snapshot_include_index
      → WellFormed r
      → WellFormed (
          installed r args
            (drop (args.last_snapshot_include_index - r.last_snapshot_include_index) r.logs))
  unfolding installed
  installed-WellFormed r args newer w =
      let size =
        length-drop (args.last_snapshot_include_index - r.last_snapshot_include_index) r.logs in
      record {
        contiguous =
            Contiguous-cut r.last_snapshot_include_index args.last_snapshot_include_index r.logs
              w.contiguous (omega arith);
        committed = omega (arith, size, w.committed);
        applied = omega (arith, size, w.applied);
        snapshot_applied = omega arith;
        nexts = w.nexts;
        matches = w.matches;
      }

  pub install_snapshot-WellFormed :
      (r : Raft) (done : Raft × InstallSnapshotResponse × Option ApplyMsg)
      (args : InstallSnapshotRequest) (reply : InstallSnapshotResponse) (now : ℕ)
      → install_snapshot r args reply now ≡ ok done
      → WellFormed r
      → WellFormed done.0
  unfolding install_snapshot
  install_snapshot-WellFormed r done args reply now h w =
      let r1 : Raft = heard_request r args now in
      let w1 : WellFormed r1 = heard_request-WellFormed r args now w in
      let index = args.last_snapshot_include_index in
      elim (Bool-cases (ltb args.term r.current_term)) [
        | inl stale ↦ from r (record reply { term = r.current_term }) none (rw stale) w
        | inr current ↦ elim (Bool-cases (leb index r1.last_snapshot_include_index)) [
          | inl old ↦ from r1 reply none (rw (current, old)) w1
          | inr newer ↦
              let lt : r1.last_snapshot_include_index < index = ground arith in
              let r2 = installed r1 args (drop (index - r1.last_snapshot_include_index) r1.logs) in
              from (save_with r2 args.snapshot) (record reply { term = r2.current_term })
                (some (snapshot_msg args))
                (rw (current, newer, logs_behind-drop r1 index w1.contiguous lt))
                (save_with-WellFormed _ args.snapshot (installed-WellFormed r1 args lt w1))
        ]
      ]
    where
      from :
          (s : Raft) (q : InstallSnapshotResponse) (m : Option ApplyMsg)
          → install_snapshot r args reply now ≡ ok (s, q, m)
          → WellFormed s
          → WellFormed done.0
      from s q m e ws = subst (λ p. WellFormed p.0) (ok_unique e h) ws

  pub cond_install_snapshot-WellFormed :
      (r : Raft) (done : Raft × Bool) (term index : ℕ) (bytes : Bytes)
      → cond_install_snapshot r term index bytes ≡ ok done
      → (index ≤ r.commit_index) ⊎ (r.last_snapshot_include_index + length r.logs < index)
      → WellFormed r
      → WellFormed done.0
  unfolding cond_install_snapshot cond_logs
  cond_install_snapshot-WellFormed r done term index bytes h (inl refused) w =
      let e : cond_install_snapshot r term index bytes ≡ ok (r, false) =
        rw (le→leb index r.commit_index refused) in
      subst (λ p. WellFormed p.0) (ok_unique e h) w
  cond_install_snapshot-WellFormed r done term index bytes h (inr beyond) w =
      let r1 : Raft = record r {
        logs = [];
        last_snapshot_include_index = index;
        last_snapshot_include_term = term;
        last_applied = index;
        commit_index = index;
      } in
      let w1 : WellFormed r1 = record {
        contiguous = tt;
        committed = omega arith;
        applied = omega arith;
        snapshot_applied = omega arith;
        nexts = w.nexts;
        matches = w.matches;
      } in
      let e : cond_install_snapshot r term index bytes ≡ ok (save_with r1 bytes, true) = rw (
        lt→leb-false index r.commit_index (omega (arith, w.committed)),
        get_last_log_index-length r w.contiguous,
        lt→ltb _ _ beyond,
      ) in
      subst (λ p. WellFormed p.0) (ok_unique e h) (save_with-WellFormed r1 bytes w1)
