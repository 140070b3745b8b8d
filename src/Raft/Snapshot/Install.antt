-- ===== src/Raft/Snapshot/Install.antt =====
-- InstallSnapshot, and CondInstallSnapshot, which the state machine calls for the message that the
-- first one pushes.
use kv_my.Common.{
  ap, ◌∙◌, ◌++◌, max, if◌then◌else◌, ℕ, zero, suc, ◌+◌, ◌-◌, ◌≤◌, ◌<◌, ◌≡◌, refl, true, false, inl,
  inr, some, List, [], ◌∷◌, arith, ok, assert_failed, ltb, le→leb, le→ltb-false, ltb-false→le,
  ltb→lt, lt→leb-false, Bool-cases, length, take, drop, drop-eq-nil,
}
use kv_my.Common.Bytes.{Bytes}
use kv_my.Common.Int.{pos, negsuc, minus_one}
use kv_my.Persister
use kv_my.Persister.{Persister}
use kv_my.Raft.State.{
  Raft, LogEntry, ApplyMsg, follower, InstallSnapshotRequest, InstallSnapshotResponse,
}
use kv_my.Raft.Log.Indexing.{
  Contiguous, IsContiguous, get_last_log_index-length, slices_index-ok, slices_index-above,
}
use kv_my.Raft.Persist.{RaftCodec, persist, persist_data}
use kv_my.Raft.Vote.{step_down}
use kv_my.Raft.Snapshot.{
  heard_request, installed, save_with, snapshot_msg, logs_behind, install_snapshot, cond_logs,
  cond_install_snapshot,
}

-- The front of a log does not follow a later index.
take-misplaced :
    (b b' k : ℕ) (es : List LogEntry)
    → Contiguous b es
    → 0 < k
    → 0 < length es
    → b < b'
    → ¬ Contiguous b' (take k es)
take-misplaced b b' k [] c pos_k pos_es lt d = absurd (omega arith)
take-misplaced b b' zero (x ∷ es) c pos_k pos_es lt d = absurd (omega arith)
take-misplaced b b' (suc k) (x ∷ es) c pos_k pos_es lt d = omega arith

module _ ⦃codec : RaftCodec⦄ where
  -- The entries behind the snapshot are what is left.
  pub logs_behind-drop :
      (r : Raft) (index : ℕ)
      → IsContiguous r
      → r.last_snapshot_include_index < index
      → logs_behind r index ≡ ok (drop (index - r.last_snapshot_include_index) r.logs)
  unfolding logs_behind
  logs_behind-drop r index c lo =
      let last = r.last_snapshot_include_index + length r.logs in
      elim (Bool-cases (ltb index last)) [
        | inl inside ↦
            let slice : index - r.last_snapshot_include_index - 1 + 1
                ≡ index - r.last_snapshot_include_index =
              omega arith in
            rw (
              get_last_log_index-length r c,
              inside,
              slices_index-ok r c index lo (omega (arith, ltb→lt index last inside)),
              slice,
            )
        | inr outside ↦ rw (
          get_last_log_index-length r c,
          outside,
          drop-eq-nil (index - r.last_snapshot_include_index) r.logs
              (omega (arith, ltb-false→le index last outside)),
        )
      ]

  install-commit :
      (r r' : Raft) (args : InstallSnapshotRequest) (reply reply' : InstallSnapshotResponse)
      (msg : ApplyMsg) (now : ℕ)
      → install_snapshot r args reply now ≡ ok (r', reply', some msg)
      → args.last_snapshot_include_index ≤ r'.commit_index
  unfolding install_snapshot save_with installed
  install-commit r r' args reply reply' msg now done = ground arith

  -- Once a node has installed a snapshot and made the message for the state machine,
  -- CondInstallSnapshot answers that message with no and changes nothing, in any state whose commit
  -- index is not below the one after the installation.
  pub cond_install-refused :
      (r r' r'' : Raft) (args : InstallSnapshotRequest) (reply reply' : InstallSnapshotResponse)
      (msg : ApplyMsg) (now term : ℕ) (bytes : Bytes)
      → install_snapshot r args reply now ≡ ok (r', reply', some msg)
      → r'.commit_index ≤ r''.commit_index
      → cond_install_snapshot r'' term args.last_snapshot_include_index bytes ≡ ok (r'', false)
  unfolding cond_install_snapshot
  cond_install-refused r r' r'' args reply reply' msg now term bytes done later = rw (
      le→leb args.last_snapshot_include_index r''.commit_index
        (omega (arith, install-commit r r' args reply reply' msg now done)))

  install_snapshot-result :
      (r : Raft) (args : InstallSnapshotRequest) (reply : InstallSnapshotResponse) (now : ℕ)
      → IsContiguous r
      → r.current_term ≤ args.term
      → r.last_snapshot_include_index < args.last_snapshot_include_index
      → let r' = heard_request r args now in
        install_snapshot r args reply now
        ≡ ok (
          save_with
              (installed r' args
                (drop (args.last_snapshot_include_index - r.last_snapshot_include_index) r.logs))
              args.snapshot,
          record reply { term = r'.current_term },
          some (snapshot_msg args),
        )
  unfolding install_snapshot heard_request step_down persist installed
  install_snapshot-result r args reply now c le newer =
      elim (Bool-cases (ltb r.current_term args.term)) [
        | inl higher ↦
            let r' : Raft = record (persist (step_down r args.term)) {
              status = follower;
              last_reset_election_time = now;
            } in
            rw (
              le→ltb-false args.term r.current_term le,
              higher,
              lt→leb-false _ _ newer,
              logs_behind-drop r' args.last_snapshot_include_index c newer,
            )
        | inr same ↦
            let r' : Raft = record r { status = follower; last_reset_election_time = now } in
            rw (
              le→ltb-false args.term r.current_term le,
              same,
              lt→leb-false _ _ newer,
              logs_behind-drop r' args.last_snapshot_include_index c newer,
            )
      ]

  -- The message for the state machine: no command, and the snapshot with its place.
  abbrev pub message_for : InstallSnapshotRequest → ApplyMsg
  message_for args = record {
    command_valid = false;
    command = [];
    command_index = negsuc 0;
    snapshot_valid = true;
    snapshot = args.snapshot;
    snapshot_term = pos args.last_snapshot_include_term;
    snapshot_index = pos args.last_snapshot_include_index;
  }

  -- A follower of the request's term whose log goes on behind the request's snapshot, with these files.
  abbrev pub follows : Raft → InstallSnapshotRequest → ℕ → Persister → Raft
  follows r args now p = record r {
    persister = p;
    current_term = args.term;
    voted_for = if ltb r.current_term args.term then minus_one else r.voted_for;
    status = follower;
    last_reset_election_time = now;
    logs = drop (args.last_snapshot_include_index - r.last_snapshot_include_index) r.logs;
    commit_index = max r.commit_index args.last_snapshot_include_index;
    last_applied = max r.last_applied args.last_snapshot_include_index;
    last_snapshot_include_index = args.last_snapshot_include_index;
    last_snapshot_include_term = args.last_snapshot_include_term;
  }

  installed-follows :
      (r : Raft) (args : InstallSnapshotRequest) (now : ℕ)
      → r.current_term ≤ args.term
      → installed
          (heard_request r args now)
          args
          (drop (args.last_snapshot_include_index - r.last_snapshot_include_index) r.logs)
        ≡ follows r args now (heard_request r args now).persister
  unfolding installed heard_request step_down persist
  installed-follows r args now le = elim (Bool-cases (ltb r.current_term args.term)) [
    | inl higher ↦ rw higher refl
    | inr same ↦
        let e : r.current_term ≡ args.term = ground arith in
        rw same (
          ap
            (λ t.
              record (installed (record r { status = follower; last_reset_election_time = now })
                args
                (drop (args.last_snapshot_include_index - r.last_snapshot_include_index) r.logs)) {
                  current_term = t;
                })
            e)
  ]

  -- A snapshot of a term that is not stale and of more entries than the node's is installed, while
  -- the log follows the old one: the node is a follower of the term of the request, with no vote if
  -- that is new; the entries up to the snapshot's index go, those behind it stay; the commit and the
  -- last applied index reach it; state and snapshot are what the streams of the two files were given
  -- since these were emptied; the reply has the term; and the message for the state machine is made,
  -- with the snapshot alone. Nothing else of the node changes.
  pub install_snapshot-installs :
      (r : Raft) (args : InstallSnapshotRequest) (reply : InstallSnapshotResponse) (now : ℕ)
      → IsContiguous r
      → r.current_term ≤ args.term
      → r.last_snapshot_include_index < args.last_snapshot_include_index
      → (p : Persister) × (install_snapshot r args reply now
          ≡ ok (follows r args now p, record reply { term = args.term }, some (message_for args)))
        × (p.raft_state_file ++ p.raft_state_buffer ≡ persist_data (follows r args now p))
        × (p.snapshot_file ++ p.snapshot_buffer ≡ args.snapshot)
  unfolding installed save_with snapshot_msg persist_data Persister.save
      Persister.clear_raft_state_and_snapshot Persister.clear_raft_state Persister.clear_snapshot
      Persister.write_raft_state Persister.write_snapshot
  install_snapshot-installs r args reply now c le newer =
      let q = (heard_request r args now).persister in
      (
        Persister.save q (persist_data (follows r args now q)) args.snapshot,
        install_snapshot-result r args reply now c le newer
            ∙ ap
                (λ (n : Raft). ok (
                  save_with n args.snapshot,
                  record reply { term = n.current_term },
                  some (snapshot_msg args),
                ))
                (installed-follows r args now le),
        refl,
        refl,
      )

  -- Where CondInstallSnapshot says yes to a snapshot that ends inside the log, above the commit
  -- index, it keeps the wrong side: the entries up to the snapshot's index, which do not follow it.
  pub cond_install-inside :
      (r : Raft) (term index : ℕ) (bytes : Bytes)
      → IsContiguous r
      → r.last_snapshot_include_index < index
      → r.commit_index < index
      → index < r.last_snapshot_include_index + length r.logs
      → (r' : Raft) × (cond_install_snapshot r term index bytes ≡ ok (r', true))
        × (r'.logs ≡ take (index - r.last_snapshot_include_index) r.logs)
        × (¬ IsContiguous r')
  unfolding cond_install_snapshot cond_logs save_with
  cond_install-inside r term index bytes c lo behind inside =
      let k = index - r.last_snapshot_include_index in
      let slice : index + 1 - r.last_snapshot_include_index - 1 ≡ k = omega arith in
      (
        save_with
            (record r {
              logs = take k r.logs;
              last_snapshot_include_index = index;
              last_snapshot_include_term = term;
              last_applied = index;
              commit_index = index;
            })
            bytes,
        rw (
          lt→leb-false index r.commit_index behind,
          get_last_log_index-length r c,
          le→ltb-false (r.last_snapshot_include_index + length r.logs) index (omega arith),
          slices_index-ok r c (index + 1) (omega arith) (omega arith),
          slice,
        ),
        refl,
        take-misplaced r.last_snapshot_include_index index k r.logs c (omega arith) (omega arith)
            lo,
      )

  -- At the log's last index the check of the slice index fails.
  pub cond_install-last :
      (r : Raft) (term index : ℕ) (bytes : Bytes)
      → IsContiguous r
      → r.last_snapshot_include_index < index
      → r.commit_index < index
      → index ≡ r.last_snapshot_include_index + length r.logs
      → cond_install_snapshot r term index bytes ≡ assert_failed
  unfolding cond_install_snapshot cond_logs
  cond_install-last r term index bytes c lo behind last = rw (
    lt→leb-false index r.commit_index behind,
    get_last_log_index-length r c,
    le→ltb-false (r.last_snapshot_include_index + length r.logs) index (omega arith),
    slices_index-above r c (index + 1) (omega arith),
  )
