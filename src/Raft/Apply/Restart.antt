-- ===== src/Raft/Apply/Restart.antt =====
-- raftCore/raft.cpp: readPersist takes back what persistData made.
use kv_my.Common.{◌≡◌, ◌≢◌, refl, ap, ◌∙◌, List, [], ◌∷◌, map}
use kv_my.Common.Bytes.{Bytes}
use kv_my.Raft.State.{Raft, LogEntry}
use kv_my.Raft.Persist.{RaftCodec, IsLawful, boost_node, persist_data, restored, read_persist}

module _ ⦃codec : RaftCodec⦄ (law : IsLawful codec) where
  parse_all : (es : List LogEntry) → map codec.parse_entry (map codec.serialize_entry es) ≡ es
  parse_all [] = refl
  parse_all (e ∷ es) = rw (law.parse-serialize e, parse_all es)

  read_persist-restored :
      (r : Raft) (bytes : Bytes)
      → bytes ≢ []
      → read_persist r bytes ≡ restored r (codec.load_node bytes)
  unfolding read_persist
  read_persist-restored r [] ne = absurd (ne refl)
  read_persist-restored r (b ∷ bs) ne = refl

  restored-node :
      (r s : Raft)
      → restored s (boost_node r) ≡ record s {
        current_term = r.current_term;
        voted_for = r.voted_for;
        last_snapshot_include_index = r.last_snapshot_include_index;
        last_snapshot_include_term = r.last_snapshot_include_term;
        logs = r.logs;
      }
  unfolding boost_node
  restored-node r s = rw (parse_all r.logs)

  -- Where Boost and protobuf read back what they wrote, and an archive is not empty: readPersist, at
  -- any node, on the bytes that persistData made of another takes over that one's term, vote,
  -- snapshot's place and log, entry by entry, and nothing else of the node changes.
  pub read_persist-persist_data :
      (r s : Raft)
      → read_persist s (persist_data r) ≡ record s {
        current_term = r.current_term;
        voted_for = r.voted_for;
        last_snapshot_include_index = r.last_snapshot_include_index;
        last_snapshot_include_term = r.last_snapshot_include_term;
        logs = r.logs;
      }
  unfolding persist_data
  read_persist-persist_data r s =
      read_persist-restored s (codec.save_node (boost_node r)) (law.save_ne_nil (boost_node r))
      ∙ ap (restored s) (law.load-save (boost_node r))
      ∙ restored-node r s
