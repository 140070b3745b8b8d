-- ===== src/KvServer/Tests/SkipLists.antt =====
-- A server on a new skip list, and a put.
use kv_my.Common.{◌≡◌, refl, [], ◌∷◌, map, ok}
use kv_my.Common.Int.{pos, negsuc}
use kv_my.Common.Bytes.{Bytes, bytes_eq}
use kv_my.Raft.Apply.{command_msg}
use kv_my.Raft.Tests.{chief}
use kv_my.Raft.Tests.Codec.{texts}
use kv_my.SkipList.State as Memory
use kv_my.SkipList.State.{SkipList}
use kv_my.SkipList.Operations.{init}
use kv_my.SkipList.Traces.{insert_set_call}
use kv_my.KvServer.State.{Op, KvServer, put_name}
use kv_my.KvServer.Execute.{
  le_int, execute_put_op_on_kvdb, if_request_duplicate, execute_once, send_message_to_wait_chan,
  get_command_from_raft, handle_message,
}
use kv_my.KvServer.Keys.{bytes_order}
use kv_my.KvServer.Commands.{message_of, handle_all}
use kv_my.KvServer.CallLog.{Calls, call_log}
use kv_my.KvServer.Tests.Instances.{kv_texts, kv_texts-IsLawful}

abbrev put_op : Op
put_op = record {
  operation = put_name;
  key = 1 ∷ [];
  value = 2 ∷ [];
  client_id = 3 ∷ [];
  request_id = 1;
}

abbrev server : KvServer Calls
server = record {
  me = 0;
  raft_node = chief;
  max_raft_state = negsuc 0;
  skip_list = [];
  wait_apply_ch = [];
  last_request_id = [];
  last_snap_shot_raft_log_index = pos 0;
}

abbrev put_server : KvServer Calls
put_server = send_message_to_wait_chan (execute_once server put_op) put_op (pos 4)

handled : handle_all server (map message_of ((put_op, 4) ∷ [])) ≡ ok put_server
unfolding handle_all handle_message get_command_from_raft execute_once command_msg le_int
    if_request_duplicate execute_put_op_on_kvdb bytes_eq
handled = rw (kv_texts-IsLawful.parse-as_string put_op) refl

made : put_server.skip_list ≡ insert_set_call (1 ∷ []) (2 ∷ []) ∷ []
unfolding execute_once if_request_duplicate execute_put_op_on_kvdb bytes_eq
    send_message_to_wait_chan
made = refl

abbrev new_list : SkipList Bytes Bytes
new_list = init [] [] 6 (4 ∷ [])
