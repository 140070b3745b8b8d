-- ===== src/KvServer/Tests/Examples.antt =====
-- The theorems on the server at a concrete one.
use kv_my.Common.{ℕ, ◌≡◌, refl, none, List, [], ◌∷◌, map, ok}
use kv_my.Common.Int.{pos, negsuc}
use kv_my.Common.Bytes.{bytes_eq}
use kv_my.Common.Maps.{int_key, bytes_key}
use kv_my.Raft.Apply.{command_msg}
use kv_my.Raft.Tests.{chief}
use kv_my.Raft.Tests.Codec.{texts}
use kv_my.KvServer.State.{Op, KvServer, GetArgs, put_name}
use kv_my.KvServer.Execute.{
  le_int, execute_put_op_on_kvdb, if_request_duplicate, execute_once, send_message_to_wait_chan,
  get_command_from_raft, handle_message,
}
use kv_my.KvServer.Handlers.{get_op}
use kv_my.KvServer.View.{Spec}
use kv_my.KvServer.Commands.{message_of, handle_all}
use kv_my.KvServer.CallLog.{Calls, call_log}
use kv_my.KvServer.Tests.Instances.{kv_texts, kv_texts-IsLawful}

abbrev put_op : Op
put_op = record {
  operation = put_name;
  key = 1 ∷ [];
  value = 2 ∷ [];
  client_id = 3 ∷ [];
  request_id = 1;
}

abbrev get_args : GetArgs
get_args = record { key = 1 ∷ []; client_id = 3 ∷ []; request_id = 2 }

-- A leader's server at which a handler waits at index 4.
abbrev server : KvServer Calls
server = record {
  me = 0;
  raft_node = chief;
  max_raft_state = negsuc 0;
  skip_list = [];
  wait_apply_ch = (pos 4, []) ∷ [];
  last_request_id = [];
  last_snap_shot_raft_log_index = pos 0;
}

abbrev start_spec : Spec
start_spec = record { value_of = λ k. none; seen = λ c. none }

abbrev after : KvServer Calls → Op → ℕ → KvServer Calls
after kv op index = send_message_to_wait_chan (execute_once kv op) op (pos index)

handled : get_command_from_raft server (message_of (put_op, 4)) ≡ ok (after server put_op 4)
unfolding get_command_from_raft execute_once command_msg le_int if_request_duplicate
    execute_put_op_on_kvdb bytes_eq
handled = rw (kv_texts-IsLawful.parse-as_string put_op) refl

abbrev put_server : KvServer Calls
put_server = after server put_op 4

handled_again :
    get_command_from_raft put_server (message_of (put_op, 5)) ≡ ok (after put_server put_op 5)
unfolding get_command_from_raft execute_once command_msg le_int if_request_duplicate
    execute_put_op_on_kvdb bytes_eq send_message_to_wait_chan
handled_again = rw (kv_texts-IsLawful.parse-as_string put_op) refl

abbrev two_ops : List (Op × ℕ)
two_ops = (put_op, 4) ∷ (put_op, 5) ∷ []

handled_both : handle_all server (map message_of two_ops) ≡ ok (after put_server put_op 5)
unfolding handle_all handle_message command_msg
handled_both = rw (handled, handled_again) refl

handled_get :
    get_command_from_raft server (message_of (get_op get_args, 4))
    ≡ ok (after server (get_op get_args) 4)
unfolding get_command_from_raft execute_once command_msg le_int if_request_duplicate get_op bytes_eq
handled_get = rw (kv_texts-IsLawful.parse-as_string (get_op get_args)) refl
