-- ===== src/KvServer/CallLog.antt =====
-- raftCore/kvServer.cpp: the calls that a server makes of its store, noted one after the other.
use kv_my.Common.{
  ℕ, ◌≡◌, ap, sym, ◌∙◌, subst, false, Option, List, [], ◌∷◌, ◌++◌, map, All, ok, >>=-eq-ok, inl,
  inr, if◌then◌else◌, Bool-cases,
}
use mathlib.Core.List.{append-nil, append_assoc}
use kv_my.Common.Int.{pos}
use kv_my.Common.Bytes.{Bytes, bytes_eq}
use kv_my.Common.Maps.{lookup, bytes_key}
use kv_my.Raft.Persist.{RaftCodec}
use kv_my.SkipList.Entries.{find_entry}
use kv_my.SkipList.Traces.{Call, insert_set_call, change_all}
use kv_my.KvServer.State.{Op, Store, KvCodec, IsLawful, KvServer, put_name, append_name}
use kv_my.KvServer.Execute.{
  le_int, known, execute_put_op_on_kvdb, execute_append_op_on_kvdb, if_request_duplicate,
  execute_once, handle_message,
}
use kv_my.KvServer.View.{Spec, lookup-updated, updated, is_write, apply_op}
use kv_my.KvServer.Keys.{bytes_order}
use kv_my.KvServer.Commands.{message_of, handle_all, handle_message-parts, execute_once-rest}

abbrev pub Calls : Type 0
Calls = List (Call Bytes Bytes)

-- The store that notes the calls that change it. A search looks them through; a dump is empty.
instance abbrev pub call_log : Store Calls
call_log = record {
  empty = [];
  insert_set_element = λ cs k v. cs ++ insert_set_call k v ∷ [];
  search_element = λ cs k. find_entry k (change_all cs []);
  dump_file = λ cs. [];
  load_file = λ cs bytes. cs;
}

-- The call that an operation makes where its client has sent what `seen` says.
abbrev pub calls_of_op : (Bytes → Option ℕ) → Op → Calls
calls_of_op seen op =
    if known (seen op.client_id) op.request_id
    then []
    else if is_write op
    then insert_set_call op.key op.value ∷ []
    else []

abbrev pub calls_of_ops : Spec → List Op → Calls
calls_of_ops s [] = []
calls_of_ops s (op ∷ ops) = calls_of_op s.seen op ++ calls_of_ops (apply_op s op) ops

-- A server that noted some calls and has the requests of an abstract state.
pub record Logs (kv : KvServer Calls) (calls : Calls) (s : Spec) : Type 0 where
  pub noted : kv.skip_list ≡ calls
  pub requests : (c : Bytes) → lookup kv.last_request_id c ≡ s.seen c

execute_once-Logs :
    (kv : KvServer Calls) (calls : Calls) (s : Spec) (op : Op)
    → Logs kv calls s
    → Logs (execute_once kv op) (calls ++ calls_of_op s.seen op) (apply_op s op)
unfolding execute_once execute_put_op_on_kvdb execute_append_op_on_kvdb
execute_once-Logs kv calls s op logs =
    let dup : if_request_duplicate kv op.client_id op.request_id
        ≡ known (s.seen op.client_id) op.request_id =
      unfold if_request_duplicate in rw (logs.requests op.client_id) in
    let nothing : kv.skip_list ≡ calls ++ [] = logs.noted ∙ sym (append-nil calls) in
    let written : Logs (execute_put_op_on_kvdb kv op)
        (calls ++ insert_set_call op.key op.value ∷ [])
        (record {
          value_of = updated s.value_of op.key op.value;
          seen = updated s.seen op.client_id op.request_id;
        }) =
      record {
        noted = ap (λ cs. cs ++ insert_set_call op.key op.value ∷ []) logs.noted;
        requests = λ c.
            lookup-updated kv.last_request_id s.seen op.client_id c op.request_id logs.requests;
      } in
    rw dup (elim (Bool-cases (known (s.seen op.client_id) op.request_id)) [
      | inl old ↦ rw old (record { noted = nothing; requests = logs.requests })
      | inr new ↦ elim (Bool-cases (bytes_eq op.operation put_name)) [
        | inl put ↦ rw (new, put) written
        | inr not_put ↦ elim (Bool-cases (bytes_eq op.operation append_name)) [
          | inl append ↦ rw (new, not_put, append) written
          | inr read ↦
              rw (new, not_put, read) (record { noted = nothing; requests = logs.requests })
        ]
      ]
    ])

module _ ⦃codec : KvCodec⦄ ⦃raft : RaftCodec⦄ where
  pub handle_all-Logs :
      IsLawful codec
      → (kv kv' : KvServer Calls) (calls : Calls) (s : Spec) (ops : List (Op × ℕ))
      → All (λ p. le_int (pos p.1) kv.last_snap_shot_raft_log_index ≡ false) ops
      → handle_all kv (map message_of ops) ≡ ok kv'
      → Logs kv calls s
      → kv'.skip_list ≡ calls ++ calls_of_ops s (map (λ p. p.0) ops)
  unfolding handle_all
  handle_all-Logs lawful kv kv' calls s [] behind done logs =
      let same : kv.skip_list ≡ kv'.skip_list = cc in sym same ∙ logs.noted ∙ sym (append-nil calls)
  handle_all-Logs lawful kv kv' calls s (p ∷ ops) behind done logs =
      let (kv1, one, rest) =
        >>=-eq-ok (handle_message kv (message_of p)) (λ kv'. handle_all kv' (map message_of ops))
          done in
      let same = handle_message-parts lawful kv kv1 p behind.0 one in
      let index : kv1.last_snap_shot_raft_log_index ≡ kv.last_snap_shot_raft_log_index =
        same.index_kept ∙ (execute_once-rest kv p.0).0 in
      let once = execute_once-Logs kv calls s p.0 logs in
      handle_all-Logs lawful kv1 kv' (calls ++ calls_of_op s.seen p.0) (apply_op s p.0) ops
        (subst (λ i. All (λ q. le_int (pos q.1) i ≡ false) ops) (sym index) behind.1) rest
        (record {
          noted = same.store_kept ∙ once.noted;
          requests = λ c. ap (λ m. lookup m c) same.requests_kept ∙ once.requests c;
        })
      ∙ append_assoc calls (calls_of_op s.seen p.0)
          (calls_of_ops (apply_op s p.0) (map (λ p. p.0) ops))
