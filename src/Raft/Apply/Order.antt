-- ===== src/Raft/Apply/Order.antt =====
-- What getApplyLogs hands to the state machine.
use native.Mathlib.Decide.{dec_lt}
use kv_my.Common.{
  ℕ, zero, suc, ◌+◌, ◌-◌, ◌≤◌, ◌≡◌, some, List, arith, ok, le→leb, ==_iff, length, get_elem?, drop,
  drop-eq-cons, map, take, max,
}
use kv_my.Raft.State.{Raft, LogEntry, ApplyMsg}
use kv_my.Raft.Log.Indexing.{IsContiguous, get_last_log_index-length, entry_at-ok}
use kv_my.Raft.Apply.{command_msg, apply_loop, get_apply_logs}

-- The message of an entry.
abbrev pub msg_of : LogEntry → ApplyMsg
msg_of e = command_msg e.command e.log_index

-- The entries behind the last applied one, up to the commit index.
abbrev pub pending : Raft → List LogEntry
pending r =
    take (r.commit_index - r.last_applied)
      (drop (r.last_applied - r.last_snapshot_include_index) r.logs)

apply_loop-pending :
    (r : Raft) (n : ℕ)
    → IsContiguous r
    → r.last_snapshot_include_index ≤ r.last_applied
    → r.last_applied + n ≤ r.last_snapshot_include_index + length r.logs
    → apply_loop r n
      ≡ ok (
        record r { last_applied = r.last_applied + n },
        map msg_of (take n (drop (r.last_applied - r.last_snapshot_include_index) r.logs)),
      )
unfolding apply_loop
apply_loop-pending r zero c lo hi =
    let e : r.last_applied + 0 ≡ r.last_applied = omega arith in rw e
apply_loop-pending r (suc n) c lo hi =
    let r' : Raft = record r { last_applied = r.last_applied + 1 } in
    let k = r.last_applied - r.last_snapshot_include_index in
    let (e, read, at, index) = entry_at-ok r' c (r.last_applied + 1) (omega arith) (omega arith) in
    let slice : r.last_applied + 1 - r.last_snapshot_include_index - 1 ≡ k = omega arith in
    let next : r.last_applied + 1 - r.last_snapshot_include_index ≡ suc k = omega arith in
    let at' : get_elem? r.logs k ≡ some e = rw slice at at in
    let sum : r.last_applied + 1 + n ≡ r.last_applied + suc n = omega arith in
    rw (
      read,
      (==_iff e.log_index (r.last_applied + 1)).1 index,
      apply_loop-pending r' n c (omega arith) (omega arith),
      drop-eq-cons k r.logs e at',
      index,
      next,
      sum,
    )

-- While the log follows the snapshot, the snapshot is applied and the commit index is within the
-- log, the committed entries that are not applied are handed over once, in the order of their
-- indexes, with their commands; the last applied index follows, and no check fails.
pub get_apply_logs-pending :
    (r : Raft)
    → IsContiguous r
    → r.last_snapshot_include_index ≤ r.last_applied
    → r.commit_index ≤ r.last_snapshot_include_index + length r.logs
    → get_apply_logs r
      ≡ ok (record r { last_applied = max r.last_applied r.commit_index }, map msg_of (pending r))
unfolding get_apply_logs apply_loop
get_apply_logs-pending r c lo hi = elim (dec_lt r.last_applied r.commit_index) [
  | yes behind ↦
      let sum : r.last_applied + (r.commit_index - r.last_applied)
          ≡ max r.last_applied r.commit_index =
        omega arith in
      rw (
        get_last_log_index-length r c,
        le→leb _ _ hi,
        apply_loop-pending r (r.commit_index - r.last_applied) c lo (omega arith),
        sum,
      )
  | no done ↦
      let none_left : r.commit_index - r.last_applied ≡ 0 = omega arith in
      let stays : max r.last_applied r.commit_index ≡ r.last_applied = omega arith in
      rw (get_last_log_index-length r c, le→leb _ _ hi, none_left, stays, apply_loop)
]
