-- ===== src/Raft/Node/Rounds.antt =====
-- A round of replication: what a leader's heartbeat sends, in the follower that takes it.
use kv_my.Common.{
  ℕ, ◌+◌, ◌-◌, ◌≤◌, ◌<◌, ◌≡◌, refl, ap, sym, ◌∙◌, true, some, arith, ok, length, get_elem?,
  get_elem?-drop, length-drop,
}
use kv_my.Raft.State.{Raft, AppendEntriesArgs, AppendEntriesReply}
use kv_my.Raft.Log.{entry_at, get_last_log_index, get_slices_index_from_log_index}
use kv_my.Raft.Log.Indexing.{IsContiguous, entry_at-ok}
use kv_my.Raft.Persist.{RaftCodec, persist}
use kv_my.Raft.Append.{append_entries}
use kv_my.Raft.Append.Splice.{get_elem?-splice_new}
use kv_my.Raft.Append.Branches.{
  accepted, merged, Fits, merged-Contiguous, length-merged, append_entries-accepts,
}
use kv_my.Raft.Leader.{send_entries}
use kv_my.Raft.Leader.Beats.{IsRight}

module _ (l f : Raft) (cl : IsContiguous l) (cf : IsContiguous f) (server : ℕ)
    (args : AppendEntriesArgs) (now : ℕ) (sent : IsRight l (send_entries server args))
    (fits : Fits f args) where
  accepted-entry :
      (i : ℕ)
      → args.prev_log_index < i
      → i ≤ l.last_snapshot_include_index + length l.logs
      → entry_at (accepted f args now) i ≡ entry_at l i
  accepted-entry i lo hi =
      let (_, kept, _, es, _, _) = sent in
      let kf = args.prev_log_index - f.last_snapshot_include_index in
      let kl = args.prev_log_index - l.last_snapshot_include_index in
      let j = i - args.prev_log_index - 1 in
      let size : length args.entries ≡ length l.logs - kl = ap length es ∙ length-drop kl l.logs in
      let (e, read, at, _) =
        entry_at-ok (accepted f args now) (merged-Contiguous f args cf fits) i
          (omega (arith, fits.snapshot_le))
          (omega (arith, size, (length-merged f args cf fits).0)) in
      let (e', read', at', _) = entry_at-ok l cl i (omega arith) hi in
      let place : i - f.last_snapshot_include_index - 1 ≡ kf + j =
        omega (arith, fits.snapshot_le) in
      let place' : j + kl ≡ i - l.last_snapshot_include_index - 1 = omega arith in
      let same : some e ≡ some e' =
        sym at
        ∙ ap (get_elem? (merged f args)) place
        ∙ get_elem?-splice_new kf args.entries f.logs j
            (omega (arith, fits.prev_le, fits.snapshot_le)) (omega (arith, size))
        ∙ ap (λ xs. get_elem? xs j) es
        ∙ get_elem?-drop kl l.logs j
        ∙ ap (get_elem? l.logs) place'
        ∙ at' in
      let eq : e ≡ e' = ground arith in read ∙ ap ok eq ∙ sym read'

persist-entry : ⦃codec : RaftCodec⦄ (r : Raft) (i : ℕ) → entry_at (persist r) i ≡ entry_at r i
unfolding persist entry_at get_slices_index_from_log_index get_last_log_index
persist-entry r i = refl

module _ ⦃codec : RaftCodec⦄ (l f : Raft) (cl : IsContiguous l) (cf : IsContiguous f) (server : ℕ)
    (args : AppendEntriesArgs) (reply : AppendEntriesReply) (now : ℕ) where
  -- Where a leader's heartbeat sends a follower the log behind an entry that the follower has, in a
  -- term that is not stale to it, and the sent entries agree with the follower's log, the follower
  -- answers with success, and then holds the leader's entry at every index of the leader's log behind
  -- that entry. Both logs must follow their snapshots, and the follower's commit index be in its log.
  pub append_entries-replicates :
      IsRight l (send_entries server args)
      → f.current_term ≤ args.term
      → Fits f args
      → f.commit_index ≤ f.last_snapshot_include_index + length f.logs
      → (f' : Raft) × (reply' : AppendEntriesReply) × (append_entries f args reply now
          ≡ ok (f', reply'))
        × (reply'.success ≡ true)
        × ((i : ℕ)
            → args.prev_log_index < i
            → i ≤ l.last_snapshot_include_index + length l.logs
            → entry_at f' i ≡ entry_at l i)
  append_entries-replicates sent current fits committed = (
    persist (accepted f args now),
    _,
    append_entries-accepts f args reply now cf current fits committed,
    refl,
    λ i lo hi.
        persist-entry (accepted f args now) i
        ∙ accepted-entry l f cl cf server args now sent fits i lo hi,
  )
