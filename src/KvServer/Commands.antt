-- ===== src/KvServer/Commands.antt =====
-- The commands that a node hands to its server: GetCommandFromRaft against the abstract state.
use kv_my.Common.{
  ℕ, ◌≡◌, refl, ap, sym, subst, ◌∙◌, false, not, List, [], ◌∷◌, map, inl, inr, Outcome, ok,
  out_of_range, assert_failed, ◌>>=◌, >>=-eq-ok, arith, if◌then◌else◌, Bool-cases, All, le→leb,
}
use kv_my.Common.Int.{ℤ, pos, minus_one, ◌==ℤ◌}
use kv_my.Common.Bytes.{Bytes, bytes_eq}
use kv_my.Common.Maps.{lookup, bytes_key, int_key, lookup-insert}
use kv_my.Raft.State.{ApplyMsg}
use kv_my.Raft.Persist.{RaftCodec}
use kv_my.Raft.Apply.{command_msg}
use kv_my.KvServer.State.{Op, Store, IsMap, KvCodec, IsLawful, KvServer, put_name, append_name}
use kv_my.KvServer.Execute.{
  le_int, known, push_to, execute_put_op_on_kvdb, execute_append_op_on_kvdb, if_request_duplicate,
  execute_once, send_message_to_wait_chan, if_need_to_send_snap_shot_command, get_command_from_raft,
  handle_message,
}
use kv_my.KvServer.View.{Spec, apply_op, apply_ops, Shows, execute_once-Shows}

-- The message of an operation at an index of the log.
abbrev pub message_of : ⦃codec : KvCodec⦄ → Op × ℕ → ApplyMsg
message_of ⦃codec⦄ (op, index) = command_msg (codec.as_string op) index

>>=-ok : {A : Type 0} (m : Outcome A) → (m >>= λ a. ok a) ≡ m
>>=-ok out_of_range = refl
>>=-ok assert_failed = refl
>>=-ok (ok a) = refl

module _ {S : Type 0} ⦃store : Store S⦄ where
  -- Nothing but the queues and the node differ.
  pub record SameStore (kv kv' : KvServer S) : Type 0 where
    pub store_kept : kv'.skip_list ≡ kv.skip_list
    pub requests_kept : kv'.last_request_id ≡ kv.last_request_id
    pub index_kept : kv'.last_snap_shot_raft_log_index ≡ kv.last_snap_shot_raft_log_index

  pub SameStore-Shows :
      (kv kv' : KvServer S) (s : Spec) → SameStore kv kv' → Shows kv s → Shows kv' s
  SameStore-Shows kv kv' s same shows = record {
    values = λ k. ap (λ st. store.search_element st k) same.store_kept ∙ shows.values k;
    requests = λ c. ap (λ m. lookup m c) same.requests_kept ∙ shows.requests c;
  }

  pub execute_once-rest :
      (kv : KvServer S) (op : Op)
      → ((execute_once kv op).last_snap_shot_raft_log_index ≡ kv.last_snap_shot_raft_log_index)
        × ((execute_once kv op).wait_apply_ch ≡ kv.wait_apply_ch)
  unfolding execute_once execute_put_op_on_kvdb execute_append_op_on_kvdb
  execute_once-rest kv op = ground arith

  -- A second time the operation is a repeated one, or it was no write.
  pub execute_once-again :
      (kv : KvServer S) (op : Op) → execute_once (execute_once kv op) op ≡ execute_once kv op
  unfolding execute_once execute_put_op_on_kvdb execute_append_op_on_kvdb if_request_duplicate
  execute_once-again kv op =
      let same = lookup-insert kv.last_request_id op.client_id op.request_id in
      let old = le→leb op.request_id op.request_id (omega arith) in
      elim (Bool-cases (known (lookup kv.last_request_id op.client_id) op.request_id)) [
        | inl dup ↦ rw (dup, dup)
        | inr new ↦ elim (Bool-cases (bytes_eq op.operation put_name)) [
          | inl put ↦ rw (new, put, same, old)
          | inr not_put ↦ elim (Bool-cases (bytes_eq op.operation append_name)) [
            | inl append ↦ rw (new, not_put, append, same, old)
            | inr read ↦ rw (new, not_put, read, new)
          ]
        ]
      ]

  execute_once-SameStore :
      (a b : KvServer S) (op : Op)
      → SameStore a b
      → SameStore (execute_once a op) (execute_once b op)
  unfolding execute_once execute_put_op_on_kvdb execute_append_op_on_kvdb
  execute_once-SameStore a b op same =
      let dup : if_request_duplicate b op.client_id op.request_id
          ≡ if_request_duplicate a op.client_id op.request_id =
        unfold if_request_duplicate in
        (ap (λ m. known (lookup m op.client_id) op.request_id) same.requests_kept) in
      ground (arith, dup, same)

  module _ ⦃codec : KvCodec⦄ ⦃raft : RaftCodec⦄ where
    if_need-kept :
        (kv kv' : KvServer S) (index : ℤ)
        → if_need_to_send_snap_shot_command kv index ≡ ok kv'
        → SameStore kv kv' × (kv'.wait_apply_ch ≡ kv.wait_apply_ch)
    unfolding if_need_to_send_snap_shot_command
    if_need-kept kv kv' index done = ground arith

    -- What the handling of a command behind the last snapshot consists of.
    pub get_command-parts :
        (kv kv' : KvServer S) (message : ApplyMsg)
        → get_command_from_raft kv message ≡ ok kv'
        → le_int message.command_index kv.last_snap_shot_raft_log_index ≡ false
        → let op = codec.parse_op message.command in
          SameStore (execute_once kv op) kv'
          × (kv'.wait_apply_ch
              ≡ push_to kv.wait_apply_ch message.command_index op
                  (lookup kv.wait_apply_ch message.command_index))
    unfolding get_command_from_raft send_message_to_wait_chan
    get_command-parts kv kv' message done behind =
        let op = codec.parse_op message.command in
        let kv1 : KvServer S = execute_once kv op in
        let (kv2, one, rest) =
          >>=-eq-ok
            (if not (kv1.max_raft_state ==ℤ minus_one)
              then if_need_to_send_snap_shot_command kv1 message.command_index
              else ok kv1)
            _ (rw behind at done) in
        let kept : SameStore kv1 kv2 × (kv2.wait_apply_ch ≡ kv1.wait_apply_ch) =
          elim (Bool-cases (kv1.max_raft_state ==ℤ minus_one)) [
            | inl none_wanted ↦ ground arith
            | inr wanted ↦ if_need-kept kv1 kv2 message.command_index (rw wanted at one)
          ] in
        let queues : kv2.wait_apply_ch ≡ kv.wait_apply_ch = kept.1 ∙ (execute_once-rest kv op).1 in
        ground (arith, kept, queues)

    -- Two messages with one command, as of a request that its client sent twice, both behind the
    -- server's last snapshot: the second changes neither the values nor the requests.
    pub get_command_from_raft-once :
        (kv kv1 kv2 : KvServer S) (m n : ApplyMsg)
        → m.command ≡ n.command
        → le_int m.command_index kv.last_snap_shot_raft_log_index ≡ false
        → le_int n.command_index kv.last_snap_shot_raft_log_index ≡ false
        → get_command_from_raft kv m ≡ ok kv1
        → get_command_from_raft kv1 n ≡ ok kv2
        → (kv2.skip_list ≡ kv1.skip_list) × (kv2.last_request_id ≡ kv1.last_request_id)
    get_command_from_raft-once kv kv1 kv2 m n same bm bn first second =
        let op = codec.parse_op m.command in
        let one = (get_command-parts kv kv1 m first bm).0 in
        let index : kv1.last_snap_shot_raft_log_index ≡ kv.last_snap_shot_raft_log_index =
          one.index_kept ∙ (execute_once-rest kv op).0 in
        let two = (get_command-parts kv1 kv2 n second (ap (le_int n.command_index) index ∙ bn)).0 in
        let more = execute_once-SameStore (execute_once kv op) kv1 op one in
        let two' : SameStore (execute_once kv1 op) kv2 =
          subst (λ c. SameStore (execute_once kv1 (codec.parse_op c)) kv2) (sym same) two in
        let more' : SameStore (execute_once kv op) (execute_once kv1 op) =
          subst (λ t. SameStore t (execute_once kv1 op)) (execute_once-again kv op) more in
        (
          two'.store_kept ∙ more'.store_kept ∙ sym one.store_kept,
          two'.requests_kept ∙ more'.requests_kept ∙ sym one.requests_kept,
        )

    pub handle_message-command :
        (kv : KvServer S) (bytes : Bytes) (index : ℕ)
        → handle_message kv (command_msg bytes index)
          ≡ get_command_from_raft kv (command_msg bytes index)
    unfolding handle_message command_msg
    handle_message-command kv bytes index =
        >>=-ok (get_command_from_raft kv (command_msg bytes index))

    -- What the handling of an operation's message consists of.
    pub handle_message-parts :
        IsLawful codec
        → (kv kv' : KvServer S) (p : Op × ℕ)
        → le_int (pos p.1) kv.last_snap_shot_raft_log_index ≡ false
        → handle_message kv (message_of p) ≡ ok kv'
        → SameStore (execute_once kv p.0) kv'
    handle_message-parts lawful kv kv' p behind done =
        let same =
          (get_command-parts kv kv' (message_of p)
            (sym (handle_message-command kv (codec.as_string p.0) p.1) ∙ done)
            (unfold command_msg in behind)).0 in
        let op_eq : codec.parse_op (message_of p).command ≡ p.0 =
          unfold command_msg in (lawful.parse-as_string p.0) in
        subst (λ o. SameStore (execute_once kv o) kv') op_eq same

    -- The rounds of ReadRaftApplyCommandLoop for messages that come one after another.
    unfoldable pub handle_all : KvServer S → List ApplyMsg → Outcome (KvServer S)
    handle_all kv [] = ok kv
    handle_all kv (m ∷ ms) = handle_message kv m >>= λ kv'. handle_all kv' ms

    -- A server whose store is a map and whose codec is lawful, that shows an abstract state and
    -- handles the messages of operations with indexes behind its last snapshot, shows the abstract
    -- state after those operations, in their order, each write carried out once.
    pub handle_all-Shows :
        IsMap store
        → IsLawful codec
        → (kv kv' : KvServer S) (s : Spec) (ops : List (Op × ℕ))
        → All (λ p. le_int (pos p.1) kv.last_snap_shot_raft_log_index ≡ false) ops
        → handle_all kv (map message_of ops) ≡ ok kv'
        → Shows kv s
        → Shows kv' (apply_ops s (map (λ p. p.0) ops))
    unfolding handle_all
    handle_all-Shows law lawful kv kv' s [] behind done shows = ground arith
    handle_all-Shows law lawful kv kv' s (p ∷ ops) behind done shows =
        let (kv1, one, rest) =
          >>=-eq-ok (handle_message kv (message_of p)) (λ kv'. handle_all kv' (map message_of ops))
            done in
        let same' = handle_message-parts lawful kv kv1 p behind.0 one in
        let index : kv1.last_snap_shot_raft_log_index ≡ kv.last_snap_shot_raft_log_index =
          same'.index_kept ∙ (execute_once-rest kv p.0).0 in
        handle_all-Shows law lawful kv1 kv' (apply_op s p.0) ops
          (subst (λ i. All (λ q. le_int (pos q.1) i ≡ false) ops) (sym index) behind.1) rest
          (SameStore-Shows (execute_once kv p.0) kv1 (apply_op s p.0) same'
            (execute_once-Shows law kv s p.0 shows))
