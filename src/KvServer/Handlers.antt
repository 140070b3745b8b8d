-- ===== src/KvServer/Handlers.antt =====
-- raftCore/kvServer.cpp, the handlers Get and PutAppend, up to the wait for the node's answer and
-- from it on, and the start of a server.
use kv_my.Common.{
  ℕ, Bool, Option, none, some, List, [], ◌∷◌, Outcome, ok, out_of_range, ◌>>=◌, ◌==◌, ◌&&◌, not,
  if◌then◌else◌,
}
use kv_my.Common.Int.{ℤ, pos}
use kv_my.Common.Bytes.{Bytes, bytes_eq}
use kv_my.Common.Maps.{lookup, insert, erase, int_key}
use kv_my.Persister
use kv_my.Raft.Persist.{RaftCodec}
use kv_my.Raft.Leader.{start, get_state}
use kv_my.Raft.Apply
use kv_my.KvServer.State.{
  Op, Store, KvCodec, KvServer, GetArgs, PutAppendArgs, Err, no_error, err_no_key, err_wrong_leader,
  GetReply, get_name,
}
use kv_my.KvServer.Execute.{if_request_duplicate, execute_get_op_on_kvdb, read_snap_shot_to_install}

unfoldable pub get_op : GetArgs → Op
get_op args = record {
  operation = get_name;
  key = args.key;
  value = [];
  client_id = args.client_id;
  request_id = args.request_id;
}

unfoldable pub put_append_op : PutAppendArgs → Op
put_append_op args = record {
  operation = args.op;
  key = args.key;
  value = args.value;
  client_id = args.client_id;
  request_id = args.request_id;
}

abbrev pub same_request : Op → Op → Bool
same_request a b = bytes_eq a.client_id b.client_id && a.request_id == b.request_id

abbrev pub get_reply_of : Option Bytes → GetReply
get_reply_of (some v) = record { err = no_error; value = v }
get_reply_of none = record { err = err_no_key; value = [] }

-- The queue behind a key, which is made if there is none.
abbrev pub with_queue : List (ℤ × List Op) → ℤ → Option (List Op) → List (ℤ × List Op)
with_queue chans index none = insert chans index []
with_queue chans index (some queue) = chans

module _ {S : Type 0} where
  -- A queue that another handler has deleted is a pointer out of use.
  abbrev pop_from : KvServer S → ℤ → Option (List Op) → Outcome (KvServer S × Option Op)
  pop_from kv index none = out_of_range
  pop_from kv index (some []) = ok (kv, none)
  pop_from kv index (some (op ∷ ops)) =
      ok (record kv { wait_apply_ch = insert kv.wait_apply_ch index ops }, some op)

  -- `timeOutPop` at the moment when the wait ends: the first operation, or none at the time-out.
  unfoldable pub time_out_pop : KvServer S → ℤ → Outcome (KvServer S × Option Op)
  time_out_pop kv index = pop_from kv index (lookup kv.wait_apply_ch index)

  unfoldable pub delete_queue : KvServer S → ℤ → KvServer S
  delete_queue kv index = record kv { wait_apply_ch = erase kv.wait_apply_ch index }

  module _ ⦃codec : KvCodec⦄ ⦃raft : RaftCodec⦄ where
    -- Both handlers up to the wait: the operation is handed to the node, and a leader's server has a
    -- queue for its index. No index is the reply ErrWrongLeader.
    unfoldable pub submit : KvServer S → Op → KvServer S × Option ℤ
    submit kv op =
        let (r, index, _, leads) = start kv.raft_node (codec.as_string op) in
        let kv' : KvServer S = record kv { raft_node = r } in
        if not leads then (kv', none) else (
          record kv' {
            wait_apply_ch = with_queue kv.wait_apply_ch index (lookup kv.wait_apply_ch index);
          },
          some index,
        )

  module _ ⦃store : Store S⦄ where
    unfoldable pub execute_get : KvServer S → Op → KvServer S × GetReply
    execute_get kv op = let (kv', found) = execute_get_op_on_kvdb kv op in (kv', get_reply_of found)

    -- Get from the end of the wait on; the reply of a wrong leader has the value that it had, none.
    unfoldable pub answer_get : KvServer S → Op → Option Op → KvServer S × GetReply
    answer_get kv op none =
        if if_request_duplicate kv op.client_id op.request_id && (get_state kv.raft_node).1
        then execute_get kv op
        else (kv, record { err = err_wrong_leader; value = [] })
    answer_get kv op (some committed) =
        if same_request committed op
        then execute_get kv op
        else (kv, record { err = err_wrong_leader; value = [] })

    unfoldable pub finish_get : KvServer S → Op → ℤ → Outcome (KvServer S × GetReply)
    finish_get kv op index = do
      (kv', committed) ← time_out_pop kv index
      let (kv'', reply) = answer_get kv' op committed
      ok (delete_queue kv'' index, reply)

    unfoldable pub answer_put_append : KvServer S → Op → Option Op → Err
    answer_put_append kv op none =
        if if_request_duplicate kv op.client_id op.request_id then no_error else err_wrong_leader
    answer_put_append kv op (some committed) =
        if same_request committed op then no_error else err_wrong_leader

    unfoldable pub finish_put_append : KvServer S → Op → ℤ → Outcome (KvServer S × Err)
    finish_put_append kv op index = do
      (kv', committed) ← time_out_pop kv index
      ok (delete_queue kv' index, answer_put_append kv' op committed)

    -- The constructor, for `peers` nodes, with the files of a new Persister: the node starts first,
    -- then the server reads the snapshot.
    unfoldable pub start_server :
        ⦃codec : KvCodec⦄ → ⦃raft : RaftCodec⦄ → ℕ → ℤ → ℕ → ℕ → KvServer S
    start_server me max_raft_state peers now =
        let r = Apply.init peers me Persister.init [] now in
        let (p, bytes) = Persister.read_snapshot r.persister in
        let kv : KvServer S = record {
          me = me;
          raft_node = record r { persister = p };
          max_raft_state = max_raft_state;
          skip_list = store.empty;
          wait_apply_ch = [];
          last_request_id = [];
          last_snap_shot_raft_log_index = pos 0;
        } in
        read_snap_shot_to_install kv bytes
