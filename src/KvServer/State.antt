-- ===== src/KvServer/State.antt =====
-- raftCore/include/kvServer.h, class Op of common/include/util.h and the messages of
-- raftRpcPro/kvServerRPC.proto: the state of a server and what its clients send. Request ids are
-- natural numbers, since a clerk counts them up from 0.
use kv_my.Common.{ℕ, ◌≡◌, ◌≢◌, List, [], ◌∷◌, Option, none, some}
use kv_my.Common.Int.{ℤ}
use kv_my.Common.Bytes.{Bytes}
use kv_my.Raft.State.{Raft}

pub record Op : Type 0 where
  pub operation : Bytes
  pub key : Bytes
  pub value : Bytes
  pub client_id : Bytes
  pub request_id : ℕ

-- What the server uses of SkipList<std::string, std::string>.
pub record Store (S : Type 0) : Type 0 where
  pub empty : S
  pub insert_set_element : S → Bytes → Bytes → S
  pub search_element : S → Bytes → Option Bytes
  pub dump_file : S → Bytes
  pub load_file : S → Bytes → S

-- A store is a map from keys to values, as far as its insertions and searches go.
pub record IsMap {S : Type 0} (store : Store S) : Type 0 where
  pub search-empty : (k : Bytes) → store.search_element store.empty k ≡ none
  pub search-insert :
      (s : S) (k v : Bytes) → store.search_element (store.insert_set_element s k v) k ≡ some v
  pub search-insert_other :
      (s : S) (k v j : Bytes)
      → k ≢ j
      → store.search_element (store.insert_set_element s k v) j ≡ store.search_element s j

-- What `serialize` of the server archives.
pub record KvArchive : Type 0 where
  pub serialized_kv_data : Bytes
  pub last_request_id : List (Bytes × ℕ)

-- Boost's text archives of an Op and of a server.
pub record KvCodec : Type 0 where
  pub as_string : Op → Bytes
  pub parse_op : Bytes → Op
  pub save_server : KvArchive → Bytes
  pub load_server : Bytes → KvArchive

-- What Boost documents: reading gives back what was written, and an archive has a header.
pub record IsLawful (codec : KvCodec) : Type 0 where
  pub parse-as_string : (op : Op) → codec.parse_op (codec.as_string op) ≡ op
  pub load-save : (a : KvArchive) → codec.load_server (codec.save_server a) ≡ a
  pub save_ne_nil : (a : KvArchive) → codec.save_server a ≢ []

-- A queue of `wait_apply_ch` is the list of what was pushed and not popped. `applyChan` is the
-- node's `apply_chan`; `m_serializedKVData` is empty between the operations and left out.
pub record KvServer (S : Type 0) : Type 0 where
  pub me : ℕ
  pub raft_node : Raft
  pub max_raft_state : ℤ
  pub skip_list : S
  pub wait_apply_ch : List (ℤ × List Op)
  pub last_request_id : List (Bytes × ℕ)
  pub last_snap_shot_raft_log_index : ℤ

pub record GetArgs : Type 0 where
  pub key : Bytes
  pub client_id : Bytes
  pub request_id : ℕ

pub record PutAppendArgs : Type 0 where
  pub key : Bytes
  pub value : Bytes
  pub op : Bytes
  pub client_id : Bytes
  pub request_id : ℕ

-- The strings OK, ErrNoKey and ErrWrongLeader.
pub data Err : Type 0 where
  no_error err_no_key err_wrong_leader : Err

pub record GetReply : Type 0 where
  pub err : Err
  pub value : Bytes

-- "Get", "Put" and "Append".
abbrev pub get_name : Bytes
get_name = 71 ∷ 101 ∷ 116 ∷ []

abbrev pub put_name : Bytes
put_name = 80 ∷ 117 ∷ 116 ∷ []

abbrev pub append_name : Bytes
append_name = 65 ∷ 112 ∷ 112 ∷ 101 ∷ 110 ∷ 100 ∷ []
