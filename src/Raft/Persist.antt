-- ===== src/Raft/Persist.antt =====
-- raftCore/raft.cpp, persistData, persist and readPersist, and the class BoostPersistRaftNode of
-- raftCore/include/raft.h. Boost's archives and protobuf's entries are the codec, a parameter.
use kv_my.Common.{ℕ, ◌≡◌, ◌≢◌, List, [], ◌∷◌, map}
use kv_my.Common.Int.{ℤ}
use kv_my.Common.Bytes.{Bytes}
use kv_my.Persister
use kv_my.Raft.State.{Raft, LogEntry}

pub record BoostPersistRaftNode : Type 0 where
  pub current_term : ℕ
  pub voted_for : ℤ
  pub last_snapshot_include_index : ℕ
  pub last_snapshot_include_term : ℕ
  pub logs : List Bytes

-- `item.SerializeAsString()`, `logEntry.ParseFromString(item)`, `oa << node` and `ia >> node`.
pub record RaftCodec : Type 0 where
  pub serialize_entry : LogEntry → Bytes
  pub parse_entry : Bytes → LogEntry
  pub save_node : BoostPersistRaftNode → Bytes
  pub load_node : Bytes → BoostPersistRaftNode

-- What protobuf and Boost document: reading gives back what was written, and an archive has a
-- header.
pub record IsLawful (codec : RaftCodec) : Type 0 where
  pub parse-serialize : (e : LogEntry) → codec.parse_entry (codec.serialize_entry e) ≡ e
  pub load-save : (n : BoostPersistRaftNode) → codec.load_node (codec.save_node n) ≡ n
  pub save_ne_nil : (n : BoostPersistRaftNode) → codec.save_node n ≢ []

module _ ⦃codec : RaftCodec⦄ where
  -- `boostPersistRaftNode` as persistData fills it.
  unfoldable pub boost_node : Raft → BoostPersistRaftNode
  boost_node r = record {
    current_term = r.current_term;
    voted_for = r.voted_for;
    last_snapshot_include_index = r.last_snapshot_include_index;
    last_snapshot_include_term = r.last_snapshot_include_term;
    logs = map codec.serialize_entry r.logs;
  }

  unfoldable pub persist_data : Raft → Bytes
  unfolding boost_node
  persist_data r = codec.save_node (boost_node r)

  unfoldable pub persist : Raft → Raft
  persist r = record r { persister = Persister.save_raft_state r.persister (persist_data r) }

  abbrev pub restored : Raft → BoostPersistRaftNode → Raft
  restored r n = record r {
    current_term = n.current_term;
    voted_for = n.voted_for;
    last_snapshot_include_index = n.last_snapshot_include_index;
    last_snapshot_include_term = n.last_snapshot_include_term;
    logs = map codec.parse_entry n.logs;
  }

  unfoldable pub read_persist : Raft → Bytes → Raft
  read_persist r [] = r
  read_persist r (b ∷ bs) = restored r (codec.load_node (b ∷ bs))
