-- ===== src/KvServer/Execute.antt =====
-- raftCore/kvServer.cpp: the operations on the store, and what the server does with the messages
-- of its Raft node. Printing is left out.
use kv_my.Common.{
  ℕ, ◌*◌, Bool, true, false, not, Option, none, some, List, [], ◌∷◌, ◌++◌, Outcome, ok, ◌>>=◌, ltb,
  leb, if◌then◌else◌,
}
use kv_my.Common.Int.{ℤ, pos, negsuc, minus_one, ◌==ℤ◌}
use kv_my.Common.Bytes.{Bytes, bytes_eq}
use kv_my.Common.Maps.{lookup, insert, bytes_key, int_key}
use kv_my.Persister.{get_raft_state_size}
use kv_my.Raft.State.{ApplyMsg}
use kv_my.Raft.Persist.{RaftCodec}
use kv_my.Raft.Snapshot.{snapshot, cond_install_snapshot}
use kv_my.KvServer.State.{Op, Store, KvCodec, KvServer, put_name, append_name}

-- `<=` on int.
unfoldable pub le_int : ℤ → ℤ → Bool
le_int (pos a) (pos b) = leb a b
le_int (pos a) (negsuc b) = false
le_int (negsuc a) (pos b) = true
le_int (negsuc a) (negsuc b) = leb b a

-- `size > m_maxRaftState / 10.0`.
abbrev pub exceeds_tenth : ℕ → ℤ → Bool
exceeds_tenth size (pos max) = ltb max (10 * size)
exceeds_tenth size (negsuc max) = true

-- An index below 0 is refused by Snapshot and CondInstallSnapshot, as 0 is.
abbrev pub natural : ℤ → ℕ
natural (pos n) = n
natural (negsuc n) = 0

abbrev pub known : Option ℕ → ℕ → Bool
known none request_id = false
known (some last) request_id = leb request_id last

-- The queue behind a key, if there is one, takes the operation.
abbrev pub push_to : List (ℤ × List Op) → ℤ → Op → Option (List Op) → List (ℤ × List Op)
push_to chans index op none = chans
push_to chans index op (some queue) = insert chans index (queue ++ op ∷ [])

module _ {S : Type 0} ⦃store : Store S⦄ where
  unfoldable pub execute_append_op_on_kvdb : KvServer S → Op → KvServer S
  execute_append_op_on_kvdb kv op = record kv {
    skip_list = store.insert_set_element kv.skip_list op.key op.value;
    last_request_id = insert kv.last_request_id op.client_id op.request_id;
  }

  unfoldable pub execute_put_op_on_kvdb : KvServer S → Op → KvServer S
  execute_put_op_on_kvdb kv op = record kv {
    skip_list = store.insert_set_element kv.skip_list op.key op.value;
    last_request_id = insert kv.last_request_id op.client_id op.request_id;
  }

  -- `value` and `exist` are one option.
  unfoldable pub execute_get_op_on_kvdb : KvServer S → Op → KvServer S × Option Bytes
  execute_get_op_on_kvdb kv op = (
    record kv { last_request_id = insert kv.last_request_id op.client_id op.request_id },
    store.search_element kv.skip_list op.key,
  )

  unfoldable pub if_request_duplicate : KvServer S → Bytes → ℕ → Bool
  if_request_duplicate kv client_id request_id =
      known (lookup kv.last_request_id client_id) request_id

  unfoldable pub send_message_to_wait_chan : KvServer S → Op → ℤ → KvServer S
  send_message_to_wait_chan kv op raft_index = record kv {
    wait_apply_ch = push_to kv.wait_apply_ch raft_index op (lookup kv.wait_apply_ch raft_index);
  }

  -- The part of GetCommandFromRaft that changes the store.
  unfoldable pub execute_once : KvServer S → Op → KvServer S
  execute_once kv op =
      if if_request_duplicate kv op.client_id op.request_id
      then kv
      else if bytes_eq op.operation put_name
      then execute_put_op_on_kvdb kv op
      else if bytes_eq op.operation append_name
      then execute_append_op_on_kvdb kv op
      else kv

  module _ ⦃codec : KvCodec⦄ where
    unfoldable pub make_snap_shot : KvServer S → Bytes
    make_snap_shot kv = codec.save_server (record {
      serialized_kv_data = store.dump_file kv.skip_list;
      last_request_id = kv.last_request_id;
    })

    unfoldable pub parse_from_string : KvServer S → Bytes → KvServer S
    parse_from_string kv bytes =
        let archive = codec.load_server bytes in
        record kv {
          skip_list = store.load_file kv.skip_list archive.serialized_kv_data;
          last_request_id = archive.last_request_id;
        }

    unfoldable pub read_snap_shot_to_install : KvServer S → Bytes → KvServer S
    read_snap_shot_to_install kv [] = kv
    read_snap_shot_to_install kv (b ∷ bs) = parse_from_string kv (b ∷ bs)

    module _ ⦃raft : RaftCodec⦄ where
      -- `proportion` is not used.
      unfoldable pub if_need_to_send_snap_shot_command : KvServer S → ℤ → Outcome (KvServer S)
      if_need_to_send_snap_shot_command kv raft_index =
          if exceeds_tenth (get_raft_state_size kv.raft_node.persister) kv.max_raft_state
          then (do
            r ← snapshot kv.raft_node (natural raft_index) (make_snap_shot kv)
            ok (record kv { raft_node = r }))
          else ok kv

      unfoldable pub get_command_from_raft : KvServer S → ApplyMsg → Outcome (KvServer S)
      get_command_from_raft kv message =
          let op = codec.parse_op message.command in
          if le_int message.command_index kv.last_snap_shot_raft_log_index then ok kv else do
            let kv' = execute_once kv op
            kv'' ←
                (if not (kv'.max_raft_state ==ℤ minus_one)
                  then if_need_to_send_snap_shot_command kv' message.command_index
                  else ok kv')
            ok (send_message_to_wait_chan kv'' op message.command_index)

      unfoldable pub get_snap_shot_from_raft : KvServer S → ApplyMsg → Outcome (KvServer S)
      get_snap_shot_from_raft kv message = do
        (r, installed) ←
            cond_install_snapshot kv.raft_node (natural message.snapshot_term)
              (natural message.snapshot_index) message.snapshot
        let kv' : KvServer S = record kv { raft_node = r }
        if installed
            then ok (record (read_snap_shot_to_install kv' message.snapshot) {
              last_snap_shot_raft_log_index = message.snapshot_index;
            })
            else ok kv'

      unfoldable pub handle_message : KvServer S → ApplyMsg → Outcome (KvServer S)
      handle_message kv message = do
        kv' ← (if message.command_valid then get_command_from_raft kv message else ok kv)
        if message.snapshot_valid then get_snap_shot_from_raft kv' message else ok kv'

      abbrev popped : KvServer S → List ApplyMsg → KvServer S
      popped kv rest = record kv { raft_node = record kv.raft_node { apply_chan = rest } }

      abbrev handle_first : KvServer S → List ApplyMsg → Outcome (KvServer S)
      handle_first kv [] = ok kv
      handle_first kv (message ∷ rest) = handle_message (popped kv rest) message

      -- One round of ReadRaftApplyCommandLoop; it waits while the queue is empty.
      unfoldable pub read_raft_apply_command : KvServer S → Outcome (KvServer S)
      read_raft_apply_command kv = handle_first kv kv.raft_node.apply_chan
