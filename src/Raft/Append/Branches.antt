-- ===== src/Raft/Append/Branches.antt =====
-- What AppendEntries1 does in each of its branches.
use kv_my.Common.{
  ℕ, ◌+◌, ◌-◌, ◌≤◌, ◌≡◌, refl, ◌∙◌, sym, true, inl, inr, min, List, arith, ok, ltb, if◌then◌else◌,
  le→leb, le→ltb-false, ltb-false→le, ==_iff, Bool-cases, length,
}
use kv_my.Common.Int.{minus_one}
use kv_my.Raft.State.{Raft, LogEntry, follower, AppendEntriesArgs, AppendEntriesReply, app_normal}
use kv_my.Raft.Log.{
  get_last_log_index, get_log_term_from_log_index, entry_at, get_slices_index_from_log_index,
}
use kv_my.Raft.Log.Indexing.{Contiguous, IsContiguous, get_last_log_index-length, match_log-ok}
use kv_my.Raft.Persist.{RaftCodec, persist}
use kv_my.Raft.Vote.{step_down}
use kv_my.Raft.Append.{
  follow_commit, accept_entries, match_entries, check_prev, covered_reply, append_entries_body,
  append_entries,
}
use kv_my.Raft.Append.Splice.{splice, length-splice, Contiguous-splice}
use kv_my.Raft.Append.Merge.{Agrees, append_all-splice}

-- A node that has heard from the leader of a term that is not below its own.
abbrev pub heard : Raft → AppendEntriesArgs → ℕ → Raft
heard r args now = record r {
  status = follower;
  current_term = args.term;
  voted_for = if ltb r.current_term args.term then minus_one else r.voted_for;
  last_reset_election_time = now;
}

pub body-heard :
    (r : Raft) (args : AppendEntriesArgs) (reply : AppendEntriesReply) (now : ℕ)
    → r.current_term ≤ args.term
    → append_entries_body r args reply now ≡ check_prev (heard r args now) args reply
unfolding append_entries_body step_down
body-heard r args reply now le = elim (Bool-cases (ltb r.current_term args.term)) [
  | inl higher ↦ rw (higher, (==_iff args.term args.term).1 refl)
  | inr same ↦
      let e : args.term ≡ r.current_term =
        omega (arith, ltb-false→le r.current_term args.term same) in
      rw (same, e, (==_iff r.current_term r.current_term).1 refl)
]

-- The log's questions have the same answers.
pub term-heard :
    (r : Raft) (args : AppendEntriesArgs) (now i : ℕ)
    → get_log_term_from_log_index (heard r args now) i ≡ get_log_term_from_log_index r i
unfolding get_log_term_from_log_index get_last_log_index entry_at get_slices_index_from_log_index
term-heard r args now i = refl

-- The log after the entries of a message, and the commit index that it allows.
abbrev pub merged : Raft → AppendEntriesArgs → List LogEntry
merged r args = splice (args.prev_log_index - r.last_snapshot_include_index) args.entries r.logs

abbrev pub new_commit : Raft → AppendEntriesArgs → ℕ
new_commit r args =
    if ltb r.commit_index args.leader_commit
    then min args.leader_commit (r.last_snapshot_include_index + length (merged r args))
    else r.commit_index

abbrev pub accepted : Raft → AppendEntriesArgs → ℕ → Raft
accepted r args now = record (heard r args now) {
  logs = merged r args;
  commit_index = new_commit r args;
}

-- A message whose previous entry the node has, with entries that follow it and agree with the log.
pub record Fits (r : Raft) (args : AppendEntriesArgs) : Type 0 where
  pub snapshot_le : r.last_snapshot_include_index ≤ args.prev_log_index
  pub prev_le : args.prev_log_index ≤ r.last_snapshot_include_index + length r.logs
  pub prev_term : get_log_term_from_log_index r args.prev_log_index ≡ ok args.prev_log_term
  pub follows : Contiguous args.prev_log_index args.entries
  pub agrees : Agrees r.logs (args.prev_log_index - r.last_snapshot_include_index) args.entries

module _ (r : Raft) (args : AppendEntriesArgs) (c : IsContiguous r) where
  pub merged-Contiguous : Fits r args → Contiguous r.last_snapshot_include_index (merged r args)
  merged-Contiguous f =
      Contiguous-splice r.last_snapshot_include_index
        (args.prev_log_index - r.last_snapshot_include_index) args.entries r.logs
        args.prev_log_index c (omega (arith, f.prev_le, f.snapshot_le))
        (omega (arith, f.snapshot_le)) f.follows

  pub length-merged :
      Fits r args
      → (args.prev_log_index + length args.entries
          ≤ r.last_snapshot_include_index + length (merged r args))
        × (length r.logs ≤ length (merged r args))
  length-merged f = omega (
    arith,
    f.snapshot_le,
    f.prev_le,
    length-splice (args.prev_log_index - r.last_snapshot_include_index) args.entries r.logs
        (omega (arith, f.prev_le, f.snapshot_le)),
  )

  accept_entries-merged :
      (reply : AppendEntriesReply)
      → Fits r args
      → r.commit_index ≤ r.last_snapshot_include_index + length r.logs
      → accept_entries r args reply
        ≡ ok (
          record r { logs = merged r args; commit_index = new_commit r args },
          record reply { success = true; term = r.current_term },
        )
  unfolding accept_entries follow_commit
  accept_entries-merged reply f committed =
      let r' : Raft = record r { logs = merged r args } in
      let c' : IsContiguous r' = merged-Contiguous f in
      let last : get_last_log_index r' ≡ r.last_snapshot_include_index + length (merged r args) =
        get_last_log_index-length r' c' in
      let k = args.prev_log_index - r.last_snapshot_include_index in
      let loop =
        append_all-splice r k args.prev_log_index args.entries c (omega (arith, f.snapshot_le))
          (omega (arith, f.prev_le, f.snapshot_le)) f.follows f.agrees in
      rw (
        loop,
        last,
        get_last_log_index-length (record r' { commit_index = new_commit r args }) c',
        le→leb _ _ (length-merged f).0,
        le→leb (new_commit r args) (r.last_snapshot_include_index + length (merged r args))
            (ground (arith, length-merged f)),
      )

module _ ⦃codec : RaftCodec⦄ (r : Raft) (args : AppendEntriesArgs) (reply : AppendEntriesReply)
    (now : ℕ) (c : IsContiguous r) (le : r.current_term ≤ args.term) where
  abbrev heard_reply : AppendEntriesReply
  heard_reply = record reply { app_state = app_normal }

  -- While the log follows the snapshot and the commit index is within it, a message that is not of
  -- an older term, whose previous entry the node has, and whose entries follow it and agree with
  -- the log, is taken: from the previous index on the log is the message's, what stood behind its
  -- entries stays, the commit index follows the leader's within the log, the new state is
  -- persisted, and no check fails.
  pub append_entries-accepts :
      Fits r args
      → r.commit_index ≤ r.last_snapshot_include_index + length r.logs
      → append_entries r args reply now
        ≡ ok (
          persist (accepted r args now),
          record reply { app_state = app_normal; success = true; term = args.term },
        )
  unfolding append_entries check_prev covered_reply match_entries
  append_entries-accepts f committed =
      let h : Raft = heard r args now in
      let (u, at, matched) =
        match_log-ok h c args.prev_log_index args.prev_log_term f.snapshot_le f.prev_le in
      let same : args.prev_log_term ≡ u =
        ground (arith, f.prev_term, sym (term-heard r args now args.prev_log_index) ∙ at) in
      let fits : Fits h args = record {
        snapshot_le = f.snapshot_le;
        prev_le = f.prev_le;
        prev_term = term-heard r args now args.prev_log_index ∙ f.prev_term;
        follows = f.follows;
        agrees = f.agrees;
      } in
      rw (
        le→ltb-false args.term r.current_term le,
        body-heard r args heard_reply now le,
        get_last_log_index-length h c,
        le→ltb-false _ _ f.prev_le,
        le→ltb-false _ _ f.snapshot_le,
        matched,
        (==_iff _ _).1 same,
        accept_entries-merged h args c heard_reply fits committed,
      )
