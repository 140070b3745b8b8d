-- ===== src/Raft/Node/Terms.antt =====
-- raftCore/raft.cpp: what of the node keeps its term and its vote.
use kv_my.Common.{
  ℕ, zero, suc, ◌+◌, ◌≤◌, ◌≡◌, refl, ltb, if◌then◌else◌, ◌==◌, my_assert, ◌⊎◌, List, [], ◌∷◌, arith,
  ok, >>=-eq-ok,
}
use kv_my.Common.Int.{minus_one}
use kv_my.Raft.State.{Raft, follower, LogEntry, ApplyMsg, AppendEntriesArgs, AppendEntriesReply}
use kv_my.Raft.Log.{entry_at}
use kv_my.Raft.Vote.{step_down}
use kv_my.Raft.Append.{
  append_entry, append_all, follow_commit, accept_entries, reject_entries, match_entries,
  check_prev, covered_reply, append_entries_body,
}
use kv_my.Raft.Apply.{apply_loop, push_msg, push_all}

pub record Keeps (r r' : Raft) : Type 0 where
  pub term_grows : r.current_term ≤ r'.current_term
  pub vote_kept :
      r'.current_term ≡ r.current_term → (r.voted_for ≡ minus_one) ⊎ (r'.voted_for ≡ r.voted_for)

abbrev pub Same : Raft → Raft → Type 0
Same r r' = (r'.current_term ≡ r.current_term) × (r'.voted_for ≡ r.voted_for)

append_entry-Same : (r r' : Raft) (log : LogEntry) → append_entry r log ≡ ok r' → Same r r'
unfolding append_entry
append_entry-Same r r' log done = ground arith

append_all-Same : (r r' : Raft) (es : List LogEntry) → append_all r es ≡ ok r' → Same r r'
unfolding append_all
append_all-Same r r' [] done = ground arith
append_all-Same r r' (e ∷ es) done =
    let (s, one, rest) = >>=-eq-ok (append_entry r e) (λ s. append_all s es) done in
    ground (arith, append_entry-Same r s e one, append_all-Same s r' es rest)

accept_entries-Same :
    (r r' : Raft) (args : AppendEntriesArgs) (reply reply' : AppendEntriesReply)
    → accept_entries r args reply ≡ ok (r', reply')
    → Same r r'
unfolding accept_entries follow_commit
accept_entries-Same r r' args reply reply' done =
    let (s, one, rest) = >>=-eq-ok (append_all r args.entries) _ done in
    ground (arith, append_all-Same r s args.entries one)

match_entries-Same :
    (r r' : Raft) (args : AppendEntriesArgs) (reply reply' : AppendEntriesReply)
    → match_entries r args reply ≡ ok (r', reply')
    → Same r r'
unfolding match_entries reject_entries
match_entries-Same r r' args reply reply' done =
    ground (arith, accept_entries-Same r r' args reply reply')

check_prev-Same :
    (r r' : Raft) (args : AppendEntriesArgs) (reply reply' : AppendEntriesReply)
    → check_prev r args reply ≡ ok (r', reply')
    → Same r r'
unfolding check_prev
check_prev-Same r r' args reply reply' done =
    ground (arith, match_entries-Same r r' args (covered_reply r args reply) reply')

pub append_entries_body-Keeps :
    (r r' : Raft) (args : AppendEntriesArgs) (reply reply' : AppendEntriesReply) (now : ℕ)
    → append_entries_body r args reply now ≡ ok (r', reply')
    → Keeps r r'
unfolding append_entries_body step_down
append_entries_body-Keeps r r' args reply reply' now done =
    let r1 = if ltb r.current_term args.term then step_down r args.term else r in
    let r2 : Raft = record r1 { status = follower; last_reset_election_time = now } in
    ground (arith, check_prev-Same r2 r' args reply reply')

pub apply_loop-Same :
    (r r' : Raft) (n : ℕ) (msgs : List ApplyMsg) → apply_loop r n ≡ ok (r', msgs) → Same r r'
unfolding apply_loop
apply_loop-Same r r' zero msgs done = ground arith
apply_loop-Same r r' (suc n) msgs done =
    let r1 : Raft = record r { last_applied = r.last_applied + 1 } in
    let (e, read, rest) = >>=-eq-ok (entry_at r1 r1.last_applied) _ done in
    let (u, checked, loop) = >>=-eq-ok (my_assert (e.log_index == r1.last_applied)) _ rest in
    let (p, more, end) = >>=-eq-ok (apply_loop r1 n) _ loop in
    ground (arith, apply_loop-Same r1 p.0 n p.1 more)

pub push_all-Same : (r : Raft) (msgs : List ApplyMsg) → Same r (push_all r msgs)
unfolding push_all push_msg
push_all-Same r [] = (refl, refl)
push_all-Same r (m ∷ ms) = push_all-Same (push_msg r m) ms
