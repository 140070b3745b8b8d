-- ===== src/KvServer/Requests.antt =====
-- A client's request from the handler's start to its reply.
use kv_my.Common.{
  ℕ, ◌+◌, ◌≡◌, refl, ap, subst, ◌∙◌, true, false, Option, none, some, List, [], ◌∷◌, ◌++◌, inl, inr,
  ok, Bool-cases, arith, length,
}
use kv_my.Common.Int.{ℤ, pos}
use kv_my.Common.Bytes.{Bytes, bytes_eq, bytes_eq_refl}
use kv_my.Common.Maps.{lookup, insert, int_key, lookup-insert, lookup-erase}
use kv_my.Raft.State.{is_leader}
use kv_my.Raft.Log.{get_new_command_index}
use kv_my.Raft.Log.Indexing.{IsContiguous, get_last_log_index-length}
use kv_my.Raft.Persist.{RaftCodec, persist}
use kv_my.Raft.Leader.{start}
use kv_my.Raft.Apply.{command_msg}
use kv_my.KvServer.State.{Op, Store, IsMap, KvCodec, IsLawful, KvServer, GetArgs}
use kv_my.KvServer.Execute.{
  push_to, le_int, known, execute_once, get_command_from_raft, execute_get_op_on_kvdb,
}
use kv_my.KvServer.Handlers.{
  get_op, same_request, get_reply_of, time_out_pop, delete_queue, submit, execute_get, answer_get,
  finish_get, with_queue,
}
use kv_my.KvServer.View.{Spec, apply_op, Shows, execute_once-Shows}
use kv_my.KvServer.Commands.{message_of, SameStore, SameStore-Shows, get_command-parts}

with_queue-lookup :
    (chans : List (ℤ × List Op)) (index : ℤ) (o : Option (List Op))
    → lookup chans index ≡ o
    → (q : List Op) × (lookup (with_queue chans index o) index ≡ some q)
with_queue-lookup chans index none h = ([], lookup-insert chans index [])
with_queue-lookup chans index (some q) h = (q, h)

same_request_refl : (op : Op) → same_request op op ≡ true
same_request_refl op = ground (arith, bytes_eq_refl op.client_id)

-- A read changes no value.
get_op-values :
    (s : Spec) (args : GetArgs) (k : Bytes) → (apply_op s (get_op args)).value_of k ≡ s.value_of k
unfolding get_op bytes_eq
get_op-values s args k = elim (Bool-cases (known (s.seen args.client_id) args.request_id)) [
  | inl old ↦ rw old
  | inr new ↦ rw new
]

module _ {S : Type 0} where
  delete_queue-gone :
      (kv : KvServer S) (index : ℤ) → lookup (delete_queue kv index).wait_apply_ch index ≡ none
  unfolding delete_queue
  delete_queue-gone kv index = lookup-erase kv.wait_apply_ch index

  -- The server after a handler has taken the only operation of its queue.
  abbrev taken : KvServer S → ℤ → KvServer S
  taken kv index = record kv { wait_apply_ch = insert kv.wait_apply_ch index [] }

  time_out_pop-taken :
      (kv : KvServer S) (index : ℤ) (op : Op)
      → lookup kv.wait_apply_ch index ≡ some (op ∷ [])
      → time_out_pop kv index ≡ ok (taken kv index, some op)
  unfolding time_out_pop
  time_out_pop-taken kv index op here = rw here

module _ {S : Type 0} ⦃store : Store S⦄ ⦃codec : KvCodec⦄ ⦃raft : RaftCodec⦄ where
  -- Where a handler waits at the index of a command, the server's handling of the command puts the
  -- operation into its queue, and shows the abstract state after it.
  delivered :
      IsMap store
      → IsLawful codec
      → (kv kv' : KvServer S) (s : Spec) (committed : Op) (index : ℕ)
      → lookup kv.wait_apply_ch (pos index) ≡ some []
      → le_int (pos index) kv.last_snap_shot_raft_log_index ≡ false
      → get_command_from_raft kv (message_of (committed, index)) ≡ ok kv'
      → Shows kv s
      → (lookup kv'.wait_apply_ch (pos index) ≡ some (committed ∷ []))
        × Shows kv' (apply_op s committed)
  delivered law lawful kv kv' s committed index waits behind done shows =
      let m = message_of (committed, index) in
      let op_eq : codec.parse_op m.command ≡ committed =
        unfold command_msg in (lawful.parse-as_string committed) in
      let (same, queues) = get_command-parts kv kv' m done (unfold command_msg in behind) in
      let filled : kv'.wait_apply_ch ≡ push_to kv.wait_apply_ch (pos index) committed (some []) =
        unfold command_msg in
        (queues
          ∙ ap (λ o. push_to kv.wait_apply_ch (pos index) o (lookup kv.wait_apply_ch (pos index)))
              op_eq
          ∙ ap (push_to kv.wait_apply_ch (pos index) committed) waits) in
      let same' : SameStore (execute_once kv committed) kv' =
        subst (λ o. SameStore (execute_once kv o) kv') op_eq same in
      (
        ap (λ c. lookup c (pos index)) filled
            ∙ lookup-insert kv.wait_apply_ch (pos index) (committed ∷ []),
        SameStore-Shows (execute_once kv committed) kv' (apply_op s committed) same'
            (execute_once-Shows law kv s committed shows),
      )

  -- While a handler of Get waits at an index, and the server, whose store is a map and whose codec is
  -- lawful, handles that Get's command there: the reply is the value of the key in the state that the
  -- server shows, or ErrNoKey if it has none, and the server shows the same values. It deletes its
  -- queue.
  pub finish_get-reads :
      IsMap store
      → IsLawful codec
      → (kv kv' : KvServer S) (s : Spec) (args : GetArgs) (index : ℕ)
      → lookup kv.wait_apply_ch (pos index) ≡ some []
      → le_int (pos index) kv.last_snap_shot_raft_log_index ≡ false
      → get_command_from_raft kv (message_of (get_op args, index)) ≡ ok kv'
      → Shows kv s
      → (kv'' : KvServer S) × (finish_get kv' (get_op args) (pos index)
          ≡ ok (kv'', get_reply_of (s.value_of args.key)))
        × (lookup kv''.wait_apply_ch (pos index) ≡ none)
        × ((k : Bytes) → store.search_element kv''.skip_list k ≡ s.value_of k)
  unfolding finish_get answer_get execute_get execute_get_op_on_kvdb
  finish_get-reads law lawful kv kv' s args index waits behind done shows =
      let op = get_op args in
      let (here, shows') = delivered law lawful kv kv' s op index waits behind done shows in
      let kept : (k : Bytes) → store.search_element kv'.skip_list k ≡ s.value_of k =
        λ k. shows'.values k ∙ get_op-values s args k in
      (
        delete_queue (execute_get (taken kv' (pos index)) op).0 (pos index),
        rw (time_out_pop-taken kv' (pos index) op here, same_request_refl op)
            (unfold get_op in (rw (kept args.key))),
        delete_queue-gone (execute_get (taken kv' (pos index)) op).0 (pos index),
        unfold delete_queue in kept,
      )

  -- What a handler's start does: a leader, whose log follows its snapshot, takes the operation as the
  -- next entry of its log, and its index then has a queue; any other node changes nothing.
  pub submit-waits :
      (kv : KvServer S) (op : Op)
      → IsContiguous kv.raft_node
      → let r = kv.raft_node in
        let index = r.last_snapshot_include_index + length r.logs + 1 in
        (is_leader r.status ≡ false → submit kv op ≡ (kv, none))
        × (is_leader r.status ≡ true
            → (kv' : KvServer S) × (q : List Op) × (submit kv op ≡ (kv', some (pos index)))
              × (lookup kv'.wait_apply_ch (pos index) ≡ some q)
              × (kv'.raft_node.logs
                  ≡ r.logs
                    ++ record {
                      command = codec.as_string op;
                      log_term = r.current_term;
                      log_index = index;
                    }
                      ∷ []))
  unfolding submit start get_new_command_index
  submit-waits kv op c =
      let r = kv.raft_node in
      let index = pos (r.last_snapshot_include_index + length r.logs + 1) in
      let (q, at) = with_queue-lookup kv.wait_apply_ch index (lookup kv.wait_apply_ch index) refl in
      rw (get_last_log_index-length r c)
        (λ follows. rw follows, λ leads. rw leads (_, q, refl, at, unfold persist in refl))
