-- ===== src/Raft/Node/Form/Followers.antt =====
-- The calls that a follower answers keep the invariant of the log.
use native.Mathlib.Decide.{dec_lt, ℕ_discrete}
use kv_my.Common.{ℕ, ◌+◌, ◌-◌, ◌≡◌, ap, subst, ok_unique, ◌∙◌, arith, ok, length}
use kv_my.Raft.State.{Raft, AppendEntriesArgs, AppendEntriesReply}
use kv_my.Raft.Log.Indexing.{Contiguous, IsContiguous, get_log_term-ok}
use kv_my.Raft.Persist.{RaftCodec, persist}
use kv_my.Raft.Append.{append_entries}
use kv_my.Raft.Append.Merge.{Agrees}
use kv_my.Raft.Append.Branches.{
  heard, accepted, Fits, merged-Contiguous, length-merged, append_entries-accepts,
}
use kv_my.Raft.Append.Refusals.{
  append_entries-too_far, append_entries-stale, append_entries-covered,
}
use kv_my.Raft.Append.Hint.{append_entries-rejects}
use kv_my.Raft.Node.Form.{WellFormed}

module _ ⦃codec : RaftCodec⦄ where
  persist-WellFormed : (r : Raft) → WellFormed r → WellFormed (persist r)
  unfolding persist
  persist-WellFormed r w = ground arith

  heard-WellFormed :
      (r : Raft) (args : AppendEntriesArgs) (now : ℕ) → WellFormed r → WellFormed (heard r args now)
  heard-WellFormed r args now w = ground arith

  accepted-WellFormed :
      (r : Raft) (args : AppendEntriesArgs) (now : ℕ)
      → Fits r args
      → WellFormed r
      → WellFormed (accepted r args now)
  accepted-WellFormed r args now f w =
      let longer = length-merged r args w.contiguous f in
      record {
        contiguous = merged-Contiguous r args w.contiguous f;
        committed = ground (arith, longer);
        applied = omega (arith, longer.1, w.applied);
        snapshot_applied = w.snapshot_applied;
        nexts = w.nexts;
        matches = w.matches;
      }

  pub append_entries-WellFormed :
      (r r' : Raft) (args : AppendEntriesArgs) (reply reply' : AppendEntriesReply) (now : ℕ)
      → append_entries r args reply now ≡ ok (r', reply')
      → Contiguous args.prev_log_index args.entries
      → Agrees r.logs (args.prev_log_index - r.last_snapshot_include_index) args.entries
      → WellFormed r
      → WellFormed r'
  append_entries-WellFormed r r' args reply reply' now done follows agrees w =
      elim (dec_lt args.term r.current_term) [
        | yes stale ↦ from (append_entries-stale r args reply now stale) w
        | no current ↦ elim (dec_lt last args.prev_log_index) [
          | yes far ↦
              from (append_entries-too_far r args reply now c (omega arith) far)
                (persist-WellFormed _ (heard-WellFormed r args now w))
          | no within ↦ elim (dec_lt args.prev_log_index r.last_snapshot_include_index) [
            | yes covered ↦
                absurd
                  (ground (arith, append_entries-covered r args reply now c (omega arith) covered))
            | no behind ↦
                let (u, at) = get_log_term-ok r c args.prev_log_index (omega arith) (omega arith) in
                elim (ℕ_discrete u args.prev_log_term) [
                  | yes same ↦
                      let fits : Fits r args = record {
                        snapshot_le = omega arith;
                        prev_le = omega arith;
                        prev_term = at ∙ ap ok same;
                        follows = follows;
                        agrees = agrees;
                      } in
                      from
                        (append_entries-accepts r args reply now c (omega arith) fits w.committed)
                        (persist-WellFormed _ (accepted-WellFormed r args now fits w))
                  | no differs ↦
                      from
                        (append_entries-rejects r args reply now c (omega arith) u (omega arith)
                          (omega arith) at differs).1
                        (persist-WellFormed _ (heard-WellFormed r args now w))
                ]
          ]
        ]
      ]
    where
      c : IsContiguous r
      c = w.contiguous

      last : ℕ
      last = r.last_snapshot_include_index + length r.logs

      from :
          {s : Raft} {q : AppendEntriesReply}
          → append_entries r args reply now ≡ ok (s, q)
          → WellFormed s
          → WellFormed r'
      from e ws = subst (λ p. WellFormed p.0) (ok_unique e done) ws
