-- ===== src/Persister.antt =====
-- raftCore/Persister.cpp: the two files of a node, and the output stream open on each. What is written
-- to an open stream waits in its buffer until the stream is closed, or flushes itself.
pub mod Reads
use kv_my.Common.{
  ℕ, ◌+◌, ◌==◌, Bool, true, false, ◌||◌, if◌then◌else◌, [], ◌∷◌, ◌++◌, length, take, drop,
}
use kv_my.Common.Bytes.{Bytes}

pub record Persister : Type 0 where
  pub raft_state_file : Bytes
  pub snapshot_file : Bytes
  pub raft_state_buffer : Bytes
  pub snapshot_buffer : Bytes
  pub raft_state_out_stream : Bool
  pub snapshot_out_stream : Bool
  pub raft_state_size : ℕ

-- `m_raftStateOutStream << data`: a stream that is not open takes nothing.
unfoldable pub write_raft_state : Persister → Bytes → Persister
write_raft_state p bytes =
    if p.raft_state_out_stream
    then record p { raft_state_buffer = p.raft_state_buffer ++ bytes }
    else p

unfoldable pub write_snapshot : Persister → Bytes → Persister
write_snapshot p bytes =
    if p.snapshot_out_stream then record p { snapshot_buffer = p.snapshot_buffer ++ bytes } else p

-- What an ofstream may do at any time: so many bytes of its buffer reach the file.
unfoldable pub flush_raft_state : ℕ → Persister → Persister
flush_raft_state n p = record p {
  raft_state_file = p.raft_state_file ++ take n p.raft_state_buffer;
  raft_state_buffer = drop n p.raft_state_buffer;
}

-- Closes the stream if it is open, and opens it with `trunc`, which empties the file.
unfoldable pub clear_raft_state : Persister → Persister
clear_raft_state p = record p {
  raft_state_size = 0;
  raft_state_out_stream = true;
  raft_state_file = [];
  raft_state_buffer = [];
}

unfoldable pub clear_snapshot : Persister → Persister
clear_snapshot p = record p { snapshot_out_stream = true; snapshot_file = []; snapshot_buffer = [] }

unfoldable pub clear_raft_state_and_snapshot : Persister → Persister
unfolding clear_raft_state clear_snapshot
clear_raft_state_and_snapshot p = clear_snapshot (clear_raft_state p)

unfoldable pub save : Persister → Bytes → Bytes → Persister
unfolding clear_raft_state_and_snapshot write_raft_state write_snapshot
save p raftstate snapshot =
    write_snapshot (write_raft_state (clear_raft_state_and_snapshot p) raftstate) snapshot

unfoldable pub save_raft_state : Persister → Bytes → Persister
unfolding clear_raft_state write_raft_state
save_raft_state p bytes =
    let q = write_raft_state (clear_raft_state p) bytes in
    record q { raft_state_size = q.raft_state_size + length bytes }

unfoldable pub get_raft_state_size : Persister → ℕ
get_raft_state_size p = p.raft_state_size

-- `std::isspace` in the classic locale.
abbrev pub is_space : ℕ → Bool
is_space c = c == 32 || (c == 9 || (c == 10 || (c == 11 || (c == 12 || c == 13))))

-- `stream >> str`: leading white space is skipped, and the string ends before the next.
unfoldable pub skip_space : Bytes → Bytes
skip_space [] = []
skip_space (c ∷ cs) = if is_space c then skip_space cs else c ∷ cs

unfoldable pub until_space : Bytes → Bytes
until_space [] = []
until_space (c ∷ cs) = if is_space c then [] else c ∷ until_space cs

unfoldable pub extract : Bytes → Bytes
unfolding skip_space until_space
extract file = until_space (skip_space file)

unfoldable pub read_raft_state : Persister → Bytes
unfolding extract
read_raft_state p = extract p.raft_state_file

-- The stream is closed for the read, so its buffer reaches the file; the deferred `open(name)` of an
-- `ofstream` has the mode `out`, which truncates the file.
unfoldable pub read_snapshot : Persister → Persister × Bytes
unfolding extract
read_snapshot p = (
  record p { snapshot_out_stream = true; snapshot_file = []; snapshot_buffer = [] },
  extract (if p.snapshot_out_stream then p.snapshot_file ++ p.snapshot_buffer else p.snapshot_file),
)

-- The constructor truncates both files and opens the streams.
unfoldable pub init : Persister
init = record {
  raft_state_file = [];
  snapshot_file = [];
  raft_state_buffer = [];
  snapshot_buffer = [];
  raft_state_out_stream = true;
  snapshot_out_stream = true;
  raft_state_size = 0;
}

-- The destructor closes the streams that are open.
unfoldable pub destroy : Persister → Persister
destroy p = record p {
  raft_state_file =
      if p.raft_state_out_stream
      then p.raft_state_file ++ p.raft_state_buffer
      else p.raft_state_file;
  raft_state_buffer = if p.raft_state_out_stream then [] else p.raft_state_buffer;
  raft_state_out_stream = false;
  snapshot_file =
      if p.snapshot_out_stream then p.snapshot_file ++ p.snapshot_buffer else p.snapshot_file;
  snapshot_buffer = if p.snapshot_out_stream then [] else p.snapshot_buffer;
  snapshot_out_stream = false;
}
