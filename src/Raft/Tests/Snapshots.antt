-- ===== src/Raft/Tests/Snapshots.antt =====
-- Snapshots, and what a restart reads back, at a concrete node.
use kv_my.Common.{◌≡◌, ◌++◌, refl, ok, arith, some, [], ◌∷◌}
use kv_my.Persister.{Persister}
use kv_my.Raft.State.{LogEntry, InstallSnapshotResponse}
use kv_my.Raft.Log.{get_last_log_index, entry_at, get_slices_index_from_log_index}
use kv_my.Raft.Log.Indexing.{IsContiguous}
use kv_my.Raft.Persist.{persist_data, read_persist}
use kv_my.Raft.Snapshot.{snapshot, save_with, install_snapshot}
use kv_my.Raft.Snapshot.Keeps.{compacted, snapshot-compacted}
use kv_my.Raft.Snapshot.Install.{follows, message_for, install_snapshot-installs}
use kv_my.Raft.Apply.Restart.{read_persist-persist_data}
use kv_my.Raft.Tests.{node, entry, snapshot_args}
use kv_my.Raft.Tests.Codec.{texts, texts-IsLawful}

node-IsContiguous : IsContiguous node
node-IsContiguous = (refl, (refl, (refl, tt)))

snapshot-compacted_example :
    (e : LogEntry) × (entry_at node 2 ≡ ok e)
    × (snapshot node 2 (77 ∷ []) ≡ ok (save_with (compacted node 2 e.log_term) (77 ∷ [])))
snapshot-compacted_example =
    snapshot-compacted node 2 (77 ∷ []) node-IsContiguous (omega arith) (omega arith) (omega arith)

entry_at_2 : entry_at node 2 ≡ ok (entry 2 1)
unfolding entry_at get_slices_index_from_log_index get_last_log_index
entry_at_2 = refl

abbrev answer : InstallSnapshotResponse
answer = record { term = 0 }

install_snapshot-installs_example :
    (p : Persister) × (install_snapshot node snapshot_args answer 7
      ≡ ok (
        follows node snapshot_args 7 p,
        record answer { term = snapshot_args.term },
        some (message_for snapshot_args),
      ))
    × (p.raft_state_file ++ p.raft_state_buffer ≡ persist_data (follows node snapshot_args 7 p))
    × (p.snapshot_file ++ p.snapshot_buffer ≡ snapshot_args.snapshot)
install_snapshot-installs_example =
    install_snapshot-installs node snapshot_args answer 7 node-IsContiguous (omega arith)
      (omega arith)

read_persist-persist_data_example :
    read_persist (record node { current_term = 0; logs = [] }) (persist_data node)
    ≡ record node { current_term = 2; logs = entry 1 1 ∷ entry 2 1 ∷ entry 3 2 ∷ [] }
read_persist-persist_data_example =
    read_persist-persist_data texts-IsLawful node (record node { current_term = 0; logs = [] })
