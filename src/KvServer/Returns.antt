-- ===== src/KvServer/Returns.antt =====
-- raftCore/kvServer.cpp on raftCore/raft.cpp: a server handles the commands of a well-formed node
-- without a failed check, the snapshots that it takes included.
use kv_my.Common.{
  ℕ, ◌≤◌, ◌<◌, ◌≡◌, refl, sym, subst, ◌∙◌, ◌||◌, List, [], ◌∷◌, map, inl, inr, ok, arith,
  Bool-cases, leb, ltb,
}
use kv_my.Common.Int.{ℤ, minus_one, ◌==ℤ◌}
use kv_my.Common.Bytes.{Bytes}
use kv_my.Persister.{get_raft_state_size}
use kv_my.Raft.State.{Raft, ApplyMsg}
use kv_my.Raft.Persist.{RaftCodec}
use kv_my.Raft.Snapshot.{snapshot}
use kv_my.Raft.Snapshot.Keeps.{snapshot-compacted}
use kv_my.Raft.Node.Form.{WellFormed}
use kv_my.Raft.Node.Form.Snapshots.{snapshot-WellFormed}
use kv_my.KvServer.State.{Op, Store, KvCodec, KvServer}
use kv_my.KvServer.Execute.{
  le_int, natural, exceeds_tenth, make_snap_shot, execute_put_op_on_kvdb, execute_append_op_on_kvdb,
  execute_once, send_message_to_wait_chan, if_need_to_send_snap_shot_command, get_command_from_raft,
  handle_message,
}
use kv_my.KvServer.Commands.{message_of, handle_message-command, handle_all}

module _ ⦃raft : RaftCodec⦄ where
  snapshot-total :
      (r : Raft) (index : ℕ) (bytes : Bytes)
      → WellFormed r
      → (r' : Raft) × (snapshot r index bytes ≡ ok r') × WellFormed r'
  snapshot-total r index bytes w =
      let made : (r' : Raft) × (snapshot r index bytes ≡ ok r') =
        elim (Bool-cases (leb index r.last_snapshot_include_index || ltb r.commit_index index)) [
          | inl refused ↦ (r, unfold snapshot in rw refused refl)
          | inr taken ↦
              let lo : r.last_snapshot_include_index < index = ground arith in
              let hi : index ≤ r.commit_index = ground arith in
              let (e, read, done) =
                snapshot-compacted r index bytes w.contiguous lo hi w.committed in
              (_, done)
        ] in
      (made.0, made.1, snapshot-WellFormed r made.0 index bytes made.1 w)

module _ {S : Type 0} ⦃store : Store S⦄ ⦃codec : KvCodec⦄ ⦃raft : RaftCodec⦄ where
  execute_once-raft_node :
      (kv : KvServer S) (op : Op) → (execute_once kv op).raft_node ≡ kv.raft_node
  unfolding execute_once execute_put_op_on_kvdb execute_append_op_on_kvdb
  execute_once-raft_node kv op = ground arith

  if_need-total :
      (kv : KvServer S) (index : ℤ)
      → WellFormed kv.raft_node
      → (kv' : KvServer S) × (if_need_to_send_snap_shot_command kv index ≡ ok kv')
        × WellFormed kv'.raft_node
  unfolding if_need_to_send_snap_shot_command
  if_need-total kv index w =
      elim (Bool-cases
        (exceeds_tenth (get_raft_state_size kv.raft_node.persister) kv.max_raft_state)) [
          | inl large ↦
              let (r, done, w') =
                snapshot-total kv.raft_node (natural index) (make_snap_shot kv) w in
              (record kv { raft_node = r }, rw (large, done) refl, w')
          | inr small ↦ (kv, rw small refl, w)
        ]

  pub get_command-total :
      (kv : KvServer S) (message : ApplyMsg)
      → WellFormed kv.raft_node
      → (kv' : KvServer S) × (get_command_from_raft kv message ≡ ok kv') × WellFormed kv'.raft_node
  unfolding get_command_from_raft send_message_to_wait_chan
  get_command-total kv message w =
      let op = codec.parse_op message.command in
      let kv1 : KvServer S = execute_once kv op in
      let w1 : WellFormed kv1.raft_node = subst WellFormed (sym (execute_once-raft_node kv op)) w in
      elim (Bool-cases (le_int message.command_index kv.last_snap_shot_raft_log_index)) [
        | inl covered ↦ (kv, rw covered refl, w)
        | inr behind ↦ elim (Bool-cases (kv1.max_raft_state ==ℤ minus_one)) [
          | inl none_wanted ↦ (
            send_message_to_wait_chan kv1 op message.command_index,
            rw (behind, none_wanted) refl,
            w1,
          )
          | inr wanted ↦
              let (kv2, done, w2) = if_need-total kv1 message.command_index w1 in
              (
                send_message_to_wait_chan kv2 op message.command_index,
                rw (behind, wanted, done) refl,
                w2,
              )
        ]
      ]

  pub handle_all-total :
      (kv : KvServer S) (ops : List (Op × ℕ))
      → WellFormed kv.raft_node
      → (kv' : KvServer S) × (handle_all kv (map message_of ops) ≡ ok kv')
  unfolding handle_all
  handle_all-total kv [] w = (kv, refl)
  handle_all-total kv (p ∷ ops) w =
      let (kv1, one, w1) = get_command-total kv (message_of p) w in
      let first : handle_message kv (message_of p) ≡ ok kv1 =
        handle_message-command kv (codec.as_string p.0) p.1 ∙ one in
      let (kv2, rest) = handle_all-total kv1 ops w1 in (kv2, rw first rest)
