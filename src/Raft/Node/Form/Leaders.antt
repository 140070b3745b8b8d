-- ===== src/Raft/Node/Form/Leaders.antt =====
-- The calls of candidates and leaders keep the invariant of the log.
use kv_my.Common.{
  ℕ, ◌+◌, ◌≡◌, refl, subst, Bool, not, max, List, [], ◌∷◌, inl, inr, arith, ok, ok_unique,
  >>=-eq-ok, my_assert, read_at, Bool-cases, length, length-set, length-append,
}
use kv_my.Common.Bytes.{Bytes}
use kv_my.Common.Int.{ℤ, pos}
use kv_my.Raft.State.{
  Raft, LogEntry, is_leader, RequestVoteArgs, RequestVoteReply, AppendEntriesArgs,
  AppendEntriesReply, InstallSnapshotRequest, InstallSnapshotResponse, ApplyMsg,
}
use kv_my.Raft.Log.{get_last_log_index, get_new_command_index}
use kv_my.Raft.Log.Indexing.{get_last_log_index-length, Contiguous-append_one}
use kv_my.Raft.Persist.{RaftCodec, persist}
use kv_my.Raft.Vote.{
  step_down, cast_vote, request_vote_body, request_vote, do_election, reset_indexes, become_leader,
  send_request_vote,
}
use kv_my.Raft.Leader.{start, count_success, send_append_entries, leader_update_commit_index}
use kv_my.Raft.Leader.Commit.{leader_update_commit_index-Found}
use kv_my.Raft.Snapshot.{leader_send_snap_shot}
use kv_my.Raft.Apply.{push_msg, push_all, get_apply_logs, applier_tick}
use kv_my.Raft.Apply.Order.{get_apply_logs-pending}
use kv_my.Raft.Node.Form.{WellFormed}

reset_indexes-length :
    (last : ℕ) (next : List ℤ) (matches : List ℕ) (next' : List ℤ) (matches' : List ℕ)
    → reset_indexes last next matches ≡ ok (next', matches')
    → (length next' ≡ length next) × (length matches' ≡ length matches)
unfolding reset_indexes
reset_indexes-length last [] matches next' matches' h = ground arith
reset_indexes-length last (n ∷ next) [] next' matches' h = cc
reset_indexes-length last (n ∷ next) (m ∷ matches) next' matches' h =
    let (p, done, e) = >>=-eq-ok (reset_indexes last next matches) _ h in
    ground (arith, reset_indexes-length last next matches p.0 p.1 done)

count_success-WellFormed :
    (r r' : Raft) (server : ℕ) (args : AppendEntriesArgs) (n n' : ℕ)
    → count_success r server args n ≡ ok (r', n')
    → WellFormed r
    → WellFormed r'
unfolding count_success
count_success-WellFormed r r' server args n n' done w =
    let (old, read, rest) = >>=-eq-ok (read_at r.match_index server) _ done in
    let matched = max old (args.prev_log_index + length args.entries) in
    ground (
      arith,
      length-set r.match_index server matched,
      length-set r.next_index server (pos (matched + 1)),
      get_last_log_index-length r w.contiguous,
    )

module _ ⦃codec : RaftCodec⦄ where
  pub request_vote-WellFormed :
      (r r' : Raft) (args : RequestVoteArgs) (reply reply' : RequestVoteReply) (now : ℕ)
      → request_vote r args reply now ≡ ok (r', reply')
      → WellFormed r
      → WellFormed r'
  unfolding request_vote request_vote_body cast_vote step_down persist
  request_vote-WellFormed r r' args reply reply' now done w = ground arith

  pub do_election-WellFormed :
      (r : Raft) (now : ℕ) → WellFormed r → WellFormed (do_election r now).0
  unfolding do_election persist
  do_election-WellFormed r now w = ground arith

  become_leader-WellFormed : (r r' : Raft) → become_leader r ≡ ok r' → WellFormed r → WellFormed r'
  unfolding become_leader persist
  become_leader-WellFormed r r' done w =
      let (u, checked, rest) = >>=-eq-ok (my_assert (not (is_leader r.status))) _ done in
      let (p, reset, end) =
        >>=-eq-ok (reset_indexes (get_last_log_index r) r.next_index r.match_index) _ rest in
      ground (
        arith,
        reset_indexes-length (get_last_log_index r) r.next_index r.match_index p.0 p.1 reset,
      )

  pub send_request_vote-WellFormed :
      (r r' : Raft) (sent : Bool) (reply : RequestVoteReply) (n n' : ℕ) (beat : Bool)
      → send_request_vote r sent reply n ≡ ok (r', n', beat)
      → WellFormed r
      → WellFormed r'
  unfolding send_request_vote step_down persist
  send_request_vote-WellFormed r r' sent reply n n' beat done w =
      ground (arith, become_leader-WellFormed r r')

  pub send_append_entries-WellFormed :
      (r r' : Raft) (server : ℕ) (args : AppendEntriesArgs) (sent : Bool)
      (reply : AppendEntriesReply) (n n' : ℕ)
      → send_append_entries r server args sent reply n ≡ ok (r', n')
      → WellFormed r
      → WellFormed r'
  unfolding send_append_entries step_down
  send_append_entries-WellFormed r r' server args sent reply n n' done w = ground (
    arith,
    count_success-WellFormed r r' server args n n',
    length-set r.next_index server reply.update_next_index,
  )

  pub leader_send_snap_shot-WellFormed :
      (r : Raft) (server : ℕ) (args : InstallSnapshotRequest) (sent : Bool)
      (reply : InstallSnapshotResponse) (now : ℕ)
      → WellFormed r
      → WellFormed (leader_send_snap_shot r server args sent reply now)
  unfolding leader_send_snap_shot step_down persist
  leader_send_snap_shot-WellFormed r server args sent reply now w = ground (
    arith,
    length-set r.match_index server args.last_snapshot_include_index,
    length-set r.next_index server (pos (args.last_snapshot_include_index + 1)),
  )

  pub start-WellFormed :
      (r : Raft) (command : Bytes) → WellFormed r → WellFormed (start r command).0
  unfolding start get_new_command_index persist
  start-WellFormed r command w =
      let entry : LogEntry = record {
        command = command;
        log_term = r.current_term;
        log_index = get_last_log_index r + 1;
      } in
      let size = length-append r.logs (entry ∷ []) in
      let last = get_last_log_index-length r w.contiguous in
      elim (Bool-cases (is_leader r.status)) [
        | inl leads ↦ rw leads (record {
          contiguous =
              Contiguous-append_one r.last_snapshot_include_index r.logs entry w.contiguous
                (omega (arith, last));
          committed = omega (arith, size, w.committed);
          applied = omega (arith, size, w.applied);
          snapshot_applied = w.snapshot_applied;
          nexts = w.nexts;
          matches = w.matches;
        })
        | inr not_leader ↦ rw not_leader w
      ]

push_all-WellFormed :
    (r : Raft) (msgs : List ApplyMsg) → WellFormed r → WellFormed (push_all r msgs)
unfolding push_all push_msg
push_all-WellFormed r [] w = w
push_all-WellFormed r (m ∷ ms) w = push_all-WellFormed (push_msg r m) ms (ground arith)

pub applier_tick-WellFormed : (r r' : Raft) → applier_tick r ≡ ok r' → WellFormed r → WellFormed r'
unfolding applier_tick
applier_tick-WellFormed r r' done w =
    let made = get_apply_logs-pending r w.contiguous w.snapshot_applied w.committed in
    let (p, logs, pushed) = >>=-eq-ok (get_apply_logs r) _ done in
    let w' : WellFormed p.0 =
      subst (λ q. WellFormed q.0) (ok_unique made logs)
        (record {
          contiguous = w.contiguous;
          committed = w.committed;
          applied = omega (arith, w.applied, w.committed);
          snapshot_applied = omega (arith, w.snapshot_applied);
          nexts = w.nexts;
          matches = w.matches;
        }) in
    subst WellFormed (ok_unique refl pushed) (push_all-WellFormed p.0 p.1 w')

pub leader_update_commit_index-WellFormed :
    (r r' : Raft) → leader_update_commit_index r ≡ ok r' → WellFormed r → WellFormed r'
leader_update_commit_index-WellFormed r r' done w =
    let (i, made, found) = leader_update_commit_index-Found r w.contiguous w.matches in
    subst WellFormed (ok_unique made done) (record {
      contiguous = w.contiguous;
      committed = found.le_top;
      applied = w.applied;
      snapshot_applied = w.snapshot_applied;
      nexts = w.nexts;
      matches = w.matches;
    })
