-- ===== src/Raft/Tests/Codec.antt =====
-- A codec as the theorems assume it: bytes in a text of their own, each text ended by 0.
use kv_my.Common.{ℕ, zero, suc, ◌≡◌, refl, List, [], ◌∷◌}
use kv_my.Common.Int.{ℤ, pos, negsuc}
use kv_my.Common.Bytes.{Bytes}
use kv_my.Common.Texts.{join, split, split-join}
use kv_my.Raft.State.{LogEntry}
use kv_my.Raft.Persist.{BoostPersistRaftNode, RaftCodec, IsLawful}

parse_entry : Bytes → LogEntry
parse_entry (t ∷ i ∷ c) = record { command = c; log_term = t; log_index = i }
parse_entry (t ∷ []) = record { command = []; log_term = 0; log_index = 0 }
parse_entry [] = record { command = []; log_term = 0; log_index = 0 }

sign : ℤ → Bytes → Bytes
sign (pos n) rest = 0 ∷ n ∷ rest
sign (negsuc n) rest = 1 ∷ n ∷ rest

save_node : BoostPersistRaftNode → Bytes
save_node n =
    n.current_term
    ∷ n.last_snapshot_include_index
    ∷ n.last_snapshot_include_term
    ∷ sign n.voted_for (join n.logs)

abbrev pub no_node : BoostPersistRaftNode
no_node = record {
  current_term = 0;
  voted_for = pos 0;
  last_snapshot_include_index = 0;
  last_snapshot_include_term = 0;
  logs = [];
}

unsign : ℕ → ℕ → ℤ
unsign zero n = pos n
unsign (suc s) n = negsuc n

load_node : Bytes → BoostPersistRaftNode
load_node (t ∷ i ∷ u ∷ s ∷ n ∷ logs) = record {
  current_term = t;
  voted_for = unsign s n;
  last_snapshot_include_index = i;
  last_snapshot_include_term = u;
  logs = split logs;
}
load_node (t ∷ i ∷ u ∷ s ∷ []) = no_node
load_node (t ∷ i ∷ u ∷ []) = no_node
load_node (t ∷ i ∷ []) = no_node
load_node (t ∷ []) = no_node
load_node [] = no_node

load-save :
    (t i u : ℕ) (v : ℤ) (logs : List Bytes)
    → let n : BoostPersistRaftNode = record {
      current_term = t;
      voted_for = v;
      last_snapshot_include_index = i;
      last_snapshot_include_term = u;
      logs = logs;
    } in
      load_node (save_node n) ≡ n
unfolding save_node load_node sign unsign
load-save t i u (pos n) logs = rw (split-join logs)
load-save t i u (negsuc n) logs = rw (split-join logs)

instance abbrev pub texts : RaftCodec
unfolding parse_entry save_node load_node sign unsign
texts = record {
  serialize_entry = λ e. e.log_term ∷ e.log_index ∷ e.command;
  parse_entry = parse_entry;
  save_node = save_node;
  load_node = load_node;
}

pub texts-IsLawful : IsLawful texts
unfolding parse_entry save_node sign texts
texts-IsLawful = record {
  parse-serialize = λ e. refl;
  load-save = λ n.
      load-save n.current_term n.last_snapshot_include_index n.last_snapshot_include_term
        n.voted_for n.logs;
  save_ne_nil = λ n h. cc;
}
