-- ===== src/Raft/Snapshot/Keeps.antt =====
-- Raft::Snapshot: the log behind the snapshot stays, index by index.
use native.Mathlib.Decide.{dec_lt}
use kv_my.Common.{
  ℕ, zero, suc, ◌+◌, ◌-◌, ◌≤◌, ◌<◌, ◌≡◌, refl, ap, ◌∙◌, sym, true, some, arith, ok, ◌==◌,
  le→ltb-false, lt→leb-false, ==_iff, length, get_elem?, get_elem?-drop, drop, max, length-drop,
  drop-eq-cons, drop-eq-nil,
}
use kv_my.Common.Bytes.{Bytes}
use kv_my.Raft.State.{Raft, LogEntry}
use kv_my.Raft.Log.{entry_at, get_log_term_from_log_index}
use kv_my.Raft.Log.Indexing.{
  IsContiguous, Contiguous-drop, get_last_log_index-length, entry_at-ok, get_log_term-entry,
  get_log_term-snapshot,
}
use kv_my.Raft.Persist.{RaftCodec}
use kv_my.Raft.Snapshot.{entries_from, snapshot, save_with}

entries_from-drop :
    (r : Raft) (n i : ℕ)
    → IsContiguous r
    → r.last_snapshot_include_index < i
    → i + n ≡ r.last_snapshot_include_index + length r.logs + 1
    → entries_from r i n ≡ ok (drop (i - r.last_snapshot_include_index - 1) r.logs)
unfolding entries_from
entries_from-drop r zero i c lo e =
    rw (drop-eq-nil (i - r.last_snapshot_include_index - 1) r.logs (omega arith))
entries_from-drop r (suc n) i c lo e =
    let k = i - r.last_snapshot_include_index - 1 in
    let (x, read, at, _) = entry_at-ok r c i lo (omega arith) in
    let next : i + 1 - r.last_snapshot_include_index - 1 ≡ suc k = omega arith in
    rw (
      read,
      entries_from-drop r n (i + 1) c (omega arith) (omega arith),
      next,
      drop-eq-cons k r.logs x at,
    )

-- The state that a snapshot at `index`, of term `term`, leaves.
abbrev pub compacted : Raft → ℕ → ℕ → Raft
compacted r index term = record r {
  last_snapshot_include_index = index;
  last_snapshot_include_term = term;
  logs = drop (index - r.last_snapshot_include_index) r.logs;
  last_applied = max r.last_applied index;
}

module _ ⦃codec : RaftCodec⦄ (r : Raft) (index : ℕ) (bytes : Bytes) (c : IsContiguous r)
    (lo : r.last_snapshot_include_index < index) (hi : index ≤ r.commit_index)
    (committed : r.commit_index ≤ r.last_snapshot_include_index + length r.logs) where
  -- While the log follows the old snapshot and the commit index is within it, a snapshot of more
  -- entries, all committed, drops just those, records the term of the last of them, and saves state
  -- and snapshot; no check fails.
  pub snapshot-compacted :
      (e : LogEntry) × (entry_at r index ≡ ok e)
      × (snapshot r index bytes ≡ ok (save_with (compacted r index e.log_term) bytes))
  unfolding snapshot save_with
  snapshot-compacted =
      let (e, read, at, _) = entry_at-ok r c index lo (omega arith) in
      let k : index + 1 - r.last_snapshot_include_index - 1
          ≡ index - r.last_snapshot_include_index =
        omega arith in
      let stays : max r.commit_index index ≡ r.commit_index = omega arith in
      let size : (length (drop (index - r.last_snapshot_include_index) r.logs) + index
            == r.last_snapshot_include_index + length r.logs)
          ≡ true =
        (==_iff _ _).1
          (omega (arith, length-drop (index - r.last_snapshot_include_index) r.logs)) in
      (
        e,
        read,
        rw (
          lt→leb-false index r.last_snapshot_include_index lo,
          le→ltb-false r.commit_index index hi,
          read,
          get_last_log_index-length r c,
          entries_from-drop r (r.last_snapshot_include_index + length r.logs - index) (index + 1) c
              (omega arith) (omega arith),
          k,
          stays,
          size,
        ),
      )

pub compacted-IsContiguous :
    (r : Raft) (index term : ℕ)
    → IsContiguous r
    → r.last_snapshot_include_index ≤ index
    → index ≤ r.last_snapshot_include_index + length r.logs
    → IsContiguous (compacted r index term)
compacted-IsContiguous r index term c lo hi =
    Contiguous-drop r.last_snapshot_include_index r.logs (index - r.last_snapshot_include_index)
      index c (omega arith) (omega arith)

module _ (r : Raft) (index : ℕ) (e : LogEntry) (c : IsContiguous r)
    (lo : r.last_snapshot_include_index < index) (read : entry_at r index ≡ ok e)
    (within : index ≤ r.last_snapshot_include_index + length r.logs) where
  term-behind :
      (i : ℕ)
      → index < i
      → i ≤ r.last_snapshot_include_index + length r.logs
      → get_log_term_from_log_index (compacted r index e.log_term) i
        ≡ get_log_term_from_log_index r i
  term-behind i lt last =
      let k = index - r.last_snapshot_include_index in
      let (x, term, at) = get_log_term-entry r c i (omega arith) last in
      let (y, term', at') =
        get_log_term-entry (compacted r index e.log_term)
          (compacted-IsContiguous r index e.log_term c (omega arith) within) i lt
          (omega (arith, length-drop k r.logs)) in
      let place : i - index - 1 + k ≡ i - r.last_snapshot_include_index - 1 = omega arith in
      let same : some y ≡ some x =
        sym at' ∙ get_elem?-drop k r.logs (i - index - 1) ∙ ap (get_elem? r.logs) place ∙ at in
      let eq : y.log_term ≡ x.log_term = ground arith in term' ∙ ap ok eq ∙ sym term

  term-here :
      get_log_term_from_log_index (compacted r index e.log_term) index
      ≡ get_log_term_from_log_index r index
  term-here =
      let (x, term, at) = get_log_term-entry r c index lo within in
      let (y, read', at', _) = entry_at-ok r c index lo within in
      let eq : e.log_term ≡ x.log_term = ground arith in
      get_log_term-snapshot (compacted r index e.log_term)
        (compacted-IsContiguous r index e.log_term c (omega arith) within) index refl
      ∙ ap ok eq
      ∙ sym term

  -- After a snapshot every index from the snapshot's on to the end of the log has the term that it
  -- had.
  pub compacted-term :
      (i : ℕ)
      → index ≤ i
      → i ≤ r.last_snapshot_include_index + length r.logs
      → get_log_term_from_log_index (compacted r index e.log_term) i
        ≡ get_log_term_from_log_index r i
  compacted-term i le last = elim (dec_lt index i) [
    | yes behind ↦ term-behind i behind last
    | no here ↦ let e' : i ≡ index = omega arith in rw e' term-here
  ]
