-- ===== src/Raft/Leader/Beats.antt =====
-- What a heartbeat sends to the other nodes.
use native.Mathlib.Decide.{dec_lt}
use kv_my.Common.{
  ℕ, ◌+◌, ◌-◌, ◌≤◌, ◌<◌, ◌++◌, ◌≡◌, refl, true, false, some, List, [], ◌∷◌, map, ok, arith, ◌==◌,
  ==_iff, le→leb, lt→leb-false, length, get_elem?, drop, length-drop, All,
}
use kv_my.Common.Int.{pos}
use kv_my.Raft.State.{Raft, is_leader}
use kv_my.Raft.Log.{get_log_term_from_log_index}
use kv_my.Raft.Log.Indexing.{
  IsContiguous, get_last_log_index-length, slices_index-ok, entry_at-ok, get_log_term-entry,
  get_log_term-snapshot,
}
use kv_my.Raft.Peers.{numbers, other_peers-numbers}
use kv_my.Raft.Leader.{
  prev_entry, get_prev_log_info, entries_behind, Send, send_snapshot, send_entries, heart_beat_for,
  heart_beat_all, do_heart_beat,
}

abbrev pub target : Send → ℕ
target (send_snapshot i) = i
target (send_entries i args) = i

-- A node whose next index the snapshot covers is sent the snapshot; any other the whole log from its
-- next index on, with the index and the term of the entry before.
abbrev pub IsRight : Raft → Send → Type 0
IsRight r (send_snapshot i) =
    (n : ℕ) × (get_elem? r.next_index i ≡ some (pos n)) × (n ≤ r.last_snapshot_include_index)
IsRight r (send_entries i args) =
    (get_elem? r.next_index i ≡ some (pos (args.prev_log_index + 1)))
    × (r.last_snapshot_include_index ≤ args.prev_log_index)
    × (get_log_term_from_log_index r args.prev_log_index ≡ ok args.prev_log_term)
    × (args.entries ≡ drop (args.prev_log_index - r.last_snapshot_include_index) r.logs)
    × (args.term ≡ r.current_term)
    × (args.leader_commit ≡ r.commit_index)

module _ (r : Raft) (c : IsContiguous r) where
  module _ (prev : ℕ) (lo : r.last_snapshot_include_index ≤ prev)
      (hi : prev ≤ r.last_snapshot_include_index + length r.logs) where
    entries_behind-drop :
        entries_behind r prev ≡ ok (drop (prev - r.last_snapshot_include_index) r.logs)
    unfolding entries_behind
    entries_behind-drop = elim (dec_lt r.last_snapshot_include_index prev) [
      | yes behind ↦
          let differs : (prev == r.last_snapshot_include_index) ≡ false = ground arith in
          let slice : prev - r.last_snapshot_include_index - 1 + 1
              ≡ prev - r.last_snapshot_include_index =
            omega arith in
          rw (differs, slices_index-ok r c prev behind hi, slice)
      | no here ↦
          let none_behind : prev - r.last_snapshot_include_index ≡ 0 = omega arith in
          rw ((==_iff prev r.last_snapshot_include_index).1 (omega arith), none_behind)
    ]

    prev_log_info-term :
        (i : ℕ)
        → get_elem? r.next_index i ≡ some (pos (prev + 1))
        → (t : ℕ) × (get_log_term_from_log_index r prev ≡ ok t)
          × (get_prev_log_info r i ≡ ok (prev, t))
    unfolding get_prev_log_info prev_entry
    prev_log_info-term i at = elim (dec_lt r.last_snapshot_include_index prev) [
      | yes behind ↦
          let (e, term, here) = get_log_term-entry r c prev behind hi in
          let (e', read, here', _) = entry_at-ok r c prev behind hi in
          let same : e'.log_term ≡ e.log_term = ground arith in
          let differs : (prev + 1 == r.last_snapshot_include_index + 1) ≡ false = ground arith in
          let before : prev + 1 - 1 ≡ prev = omega arith in
          (e.log_term, term, rw (at, differs, before, read, same))
      | no here ↦
          let e : prev ≡ r.last_snapshot_include_index = omega arith in
          let first : (prev + 1 == r.last_snapshot_include_index + 1) ≡ true = ground arith in
          (r.last_snapshot_include_term, get_log_term-snapshot r c prev e, rw (at, first, e))
    ]

  -- A next index from 1 to the one behind the log.
  abbrev pub IsNext : ℕ → Type 0
  IsNext i =
      (prev : ℕ) × (get_elem? r.next_index i ≡ some (pos (prev + 1)))
      × (prev ≤ r.last_snapshot_include_index + length r.logs)

  heart_beat_for-IsRight :
      (i : ℕ)
      → IsNext i
      → (send : Send) × (heart_beat_for r i ≡ ok send) × IsRight r send × (target send ≡ i)
  unfolding heart_beat_for
  heart_beat_for-IsRight i (prev, at, hi) = elim (dec_lt prev r.last_snapshot_include_index) [
    | yes covered ↦ (
      send_snapshot i,
      rw (
        at,
        le→leb 1 (prev + 1) (omega arith),
        le→leb (prev + 1) r.last_snapshot_include_index (omega arith),
      ),
      (prev + 1, at, omega arith),
      refl,
    )
    | no ahead ↦
        let lo : r.last_snapshot_include_index ≤ prev = omega arith in
        let (t, term, info) = prev_log_info-term prev lo hi i at in
        let k = prev - r.last_snapshot_include_index in
        let size : (prev + length (drop k r.logs) == r.last_snapshot_include_index + length r.logs)
            ≡ true =
          (==_iff _ _).1 (omega (arith, length-drop k r.logs)) in
        (
          send_entries i (record {
            term = r.current_term;
            leader_id = r.me;
            prev_log_index = prev;
            prev_log_term = t;
            entries = drop k r.logs;
            leader_commit = r.commit_index;
          }),
          rw (
            at,
            le→leb 1 (prev + 1) (omega arith),
            lt→leb-false (prev + 1) r.last_snapshot_include_index (omega arith),
            info,
            entries_behind-drop prev lo hi,
            get_last_log_index-length r c,
            size,
          ),
          (at, lo, term, refl, refl, refl),
          refl,
        )
  ]

  heart_beat_all-IsRight :
      (is : List ℕ)
      → All IsNext is
      → (sends : List Send) × (heart_beat_all r is ≡ ok sends)
        × All (IsRight r) sends
        × (map target sends ≡ is)
  unfolding heart_beat_all
  heart_beat_all-IsRight [] nexts = ([], refl, tt, refl)
  heart_beat_all-IsRight (i ∷ is) nexts =
      let (send, one, right, at) = heart_beat_for-IsRight i nexts.0 in
      let (sends, more, rights, ats) = heart_beat_all-IsRight is nexts.1 in
      (send ∷ sends, rw (one, more), (right, rights), rw (at, ats))

  -- Every node but this one, in the order of their numbers.
  abbrev pub others : List ℕ
  others = numbers 0 r.me ++ numbers (r.me + 1) (r.peers - r.me - 1)

  -- A leader among its peers, whose log follows its snapshot and whose next indexes are from 1 to the
  -- one behind the log, starts one send for each node but itself, in the order of their numbers, and
  -- no check fails: the snapshot, where that covers the next index, and otherwise the whole log from
  -- there on, with the index and term of the entry before. Nothing but the time of the heartbeat
  -- changes.
  pub do_heart_beat-IsRight :
      (now : ℕ)
      → is_leader r.status ≡ true
      → r.me < r.peers
      → All IsNext others
      → (sends : List Send) × (do_heart_beat r now
          ≡ ok (record r { last_reset_hear_beat_time = now }, sends))
        × All (IsRight r) sends
        × (map target sends ≡ others)
  unfolding do_heart_beat
  do_heart_beat-IsRight now leads inside nexts =
      let listed = other_peers-numbers r inside in
      let (sends, all, right, targets) = heart_beat_all-IsRight others nexts in
      (sends, rw (leads, listed, all), right, targets)
