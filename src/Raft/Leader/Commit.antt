-- ===== src/Raft/Leader/Commit.antt =====
-- leaderUpdateCommitIndex finds the highest index of the node's term that a majority holds.
use native.Mathlib.Decide.{ℕ_discrete}
use kv_my.Common.{
  ℕ, zero, suc, ◌+◌, ◌-◌, ◌/◌, ◌≤◌, ◌<◌, ◌≡◌, ◌⊎◌, refl, ap, subst, ◌∙◌, inl, inr, arith, ok, leb,
  leb→le, ◌==◌, ==_iff, Bool-cases, if◌then◌else◌, length, get_elem?, get_elem?-lt, Option, none,
  some,
}
use kv_my.Raft.State.{Raft}
use kv_my.Raft.Log.{get_log_term_from_log_index}
use kv_my.Raft.Log.Indexing.{IsContiguous, get_last_log_index-length, get_log_term-ok}
use kv_my.Raft.Leader.{count_matches, find_commit, leader_update_commit_index}

abbrev pub reaches : ℕ → Option ℕ → ℕ
reaches index none = 0
reaches index (some m) = if leb index m then 1 else 0

-- The number of nodes, from `i` on, of which the leader knows that they hold the log up to `index`;
-- the leader itself is one.
unfoldable pub holders : Raft → ℕ → ℕ → ℕ → ℕ
holders r index i zero = 0
holders r index i (suc rounds) =
    (if i == r.me then 1 else reaches index (get_elem? r.match_index i))
    + holders r index (i + 1) rounds

-- A majority of the nodes hold the log up to `index`, and its entry is of the leader's term.
abbrev pub Committable : Raft → ℕ → Type 0
Committable r index =
    (r.peers / 2 + 1 ≤ holders r index 0 r.peers)
    × (get_log_term_from_log_index r index ≡ ok r.current_term)

count_matches-holders :
    (r : Raft) (index i rounds : ℕ)
    → i + rounds ≤ length r.match_index
    → count_matches r index i rounds ≡ ok (holders r index i rounds)
unfolding count_matches holders
count_matches-holders r index i zero h = refl
count_matches-holders r index i (suc rounds) h =
    let (m, at) = get_elem?-lt r.match_index i (omega arith) in
    let rest = count_matches-holders r index (i + 1) rounds (omega arith) in
    elim (Bool-cases (i == r.me)) [ inl self ↦ rw (self, rest) | inr other ↦ rw (other, at, rest) ]

pub record Found (r : Raft) (top index : ℕ) : Type 0 where
  pub snapshot_le : r.last_snapshot_include_index ≤ index
  pub le_top : index ≤ top
  pub committable : (index ≡ r.last_snapshot_include_index) ⊎ Committable r index
  pub highest : (j : ℕ) → index < j → j ≤ top → ¬ Committable r j

module _ (r : Raft) (c : IsContiguous r) (known : length r.match_index ≡ r.peers) where
  find_commit-Found :
      (rounds : ℕ)
      → rounds ≤ length r.logs
      → (index : ℕ) × (find_commit r rounds ≡ ok index)
        × Found r (r.last_snapshot_include_index + rounds) index
  unfolding find_commit
  find_commit-Found zero h = (
    r.last_snapshot_include_index,
    refl,
    record {
      snapshot_le = omega arith;
      le_top = omega arith;
      committable = inl refl;
      highest = λ j a b. absurd (omega arith);
    },
  )
  find_commit-Found (suc rounds) h =
      let top = r.last_snapshot_include_index + suc rounds in
      let count = count_matches-holders r top 0 r.peers (omega (arith, known)) in
      let (t, at) = get_log_term-ok r c top (omega arith) (omega arith) in
      let (i, found, is) = find_commit-Found rounds (omega arith) in
      let lower : ¬ Committable r top → Found r top i = λ not_top. record {
        snapshot_le = is.snapshot_le;
        le_top = omega (arith, is.le_top);
        committable = is.committable;
        highest = λ j a b. elim (ℕ_discrete j top) [
          | yes e ↦ λ q. not_top (subst (Committable r) e q)
          | no ne ↦ is.highest j a (omega arith)
        ];
      } in
      elim (Bool-cases (leb (r.peers / 2 + 1) (holders r top 0 r.peers))) [
        | inl many ↦ elim (Bool-cases (t == r.current_term)) [
          | inl mine ↦ (
            top,
            rw (count, many, at, mine),
            record {
              snapshot_le = omega arith;
              le_top = omega arith;
              committable = inr (leb→le _ _ many, at ∙ ap ok ((==_iff t r.current_term).0 mine));
              highest = λ j a b. absurd (omega arith);
            },
          )
          | inr old ↦ (i, rw (count, many, at, old) found, lower (λ q. ground (arith, q.1, at)))
        ]
        | inr few ↦ (i, rw (count, few) found, lower (λ q. ground (arith, q.0)))
      ]

  -- While the log follows the snapshot and there is a match index for each node, the new commit
  -- index is the highest index of the log, of the leader's term, that a majority hold; or the
  -- snapshot's index, if there is none. No check fails.
  pub leader_update_commit_index-Found :
      (index : ℕ) × (leader_update_commit_index r ≡ ok (record r { commit_index = index }))
      × Found r (r.last_snapshot_include_index + length r.logs) index
  unfolding leader_update_commit_index
  leader_update_commit_index-Found =
      let (i, found, is) = find_commit-Found (length r.logs) (omega arith) in
      let rounds : r.last_snapshot_include_index + length r.logs - r.last_snapshot_include_index
          ≡ length r.logs =
        omega arith in
      (i, rw (get_last_log_index-length r c, rounds, found), is)
