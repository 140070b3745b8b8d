-- ===== src/Raft/Append/Hint.antt =====
-- The hint with which AppendEntries1 refuses a previous entry of another term.
use native.Mathlib.Decide.{dec_lt}
use kv_my.Common.{
  ℕ, zero, suc, ◌+◌, ◌-◌, ◌≤◌, ◌<◌, ◌≡◌, ◌≢◌, ◌⊎◌, refl, ap, ◌∙◌, sym, false, inl, inr, arith, ok,
  ◌==◌, le→ltb-false, ==_iff, Bool-cases, length,
}
use kv_my.Common.Int.{pos}
use kv_my.Raft.State.{Raft, AppendEntriesArgs, AppendEntriesReply, app_normal}
use kv_my.Raft.Log.{get_log_term_from_log_index}
use kv_my.Raft.Log.Indexing.{IsContiguous, get_last_log_index-length, get_log_term-ok, match_log-ok}
use kv_my.Raft.Persist.{RaftCodec, persist}
use kv_my.Raft.Append.{
  back_up, reject_entries, match_entries, check_prev, covered_reply, append_entries,
}
use kv_my.Raft.Append.Branches.{heard, body-heard, term-heard}

-- The entries from `hint` to `prev` have one term, `term`, and before them stands another term,
-- unless the whole log up to `prev`, and the snapshot, have that term: then the hint is `prev`.
pub record IsHint (r : Raft) (prev term hint : ℕ) : Type 0 where
  pub snapshot_le : r.last_snapshot_include_index ≤ hint
  pub le_prev : hint ≤ prev
  pub run : (i : ℕ) → hint ≤ i → i ≤ prev → get_log_term_from_log_index r i ≡ ok term
  pub before :
      ((hint ≡ prev)
        × ((i : ℕ)
            → r.last_snapshot_include_index ≤ i
            → i ≤ prev
            → get_log_term_from_log_index r i ≡ ok term))
      ⊎ ((t : ℕ) × (r.last_snapshot_include_index < hint)
          × (get_log_term_from_log_index r (hint - 1) ≡ ok t)
          × (t ≢ term))

module _ (r : Raft) (c : IsContiguous r) (prev u : ℕ)
    (last : prev ≤ r.last_snapshot_include_index + length r.logs)
    (here : get_log_term_from_log_index r prev ≡ ok u) where
  back_up-IsHint :
      (n : ℕ)
      → r.last_snapshot_include_index + n ≤ prev + 1
      → r.last_snapshot_include_index ≤ prev
      → ((i : ℕ)
          → r.last_snapshot_include_index + n ≤ i
          → i ≤ prev
          → get_log_term_from_log_index r i ≡ ok u)
      → (h : ℕ) × (back_up r prev n ≡ ok h) × IsHint r prev u h
  unfolding back_up
  back_up-IsHint zero within lo same = (
    prev,
    refl,
    record {
      snapshot_le = lo;
      le_prev = omega arith;
      run = λ i a b. same i (omega arith) b;
      before = inl (refl, λ i a b. same i (omega arith) b);
    },
  )
  back_up-IsHint (suc n) within lo same =
      let j = r.last_snapshot_include_index + n in
      let (t, at) = get_log_term-ok r c j (omega arith) (omega arith) in
      elim (Bool-cases (t == u)) [
        | inl eq ↦
            let e : t ≡ u = (==_iff t u).0 eq in
            let more : (i : ℕ) → j ≤ i → i ≤ prev → get_log_term_from_log_index r i ≡ ok u =
              λ i a b. elim (dec_lt j i) [
                | yes above ↦ same i (omega arith) b
                | no not_above ↦ let i_eq : i ≡ j = omega arith in rw (i_eq, at) (ap ok e)
              ] in
            let (h, found, hint) = back_up-IsHint n (omega arith) lo more in
            (h, rw (at, here, eq) found, hint)
        | inr ne ↦
            let differs : t ≢ u = ground arith in
            let below : j ≢ prev =
              λ e. differs (ground (arith, sym at ∙ ap (get_log_term_from_log_index r) e ∙ here)) in
            (
              j + 1,
              rw (at, here, ne),
              record {
                snapshot_le = omega arith;
                le_prev = omega (arith, below);
                run = λ i a b. same i (omega arith) b;
                before =
                    let back : j + 1 - 1 ≡ j = omega arith in
                    inr (t, omega arith, rw (back) at, differs);
              },
            )
      ]

module _ ⦃codec : RaftCodec⦄ (r : Raft) (args : AppendEntriesArgs) (reply : AppendEntriesReply)
    (now : ℕ) (c : IsContiguous r) (le : r.current_term ≤ args.term) where
  -- Where the node has the previous index with another term, a message of a term that is not stale
  -- is refused and no check fails. The hint is the first index of the run of that term that ends at
  -- the previous index, or the previous index itself if the run goes back to the snapshot.
  pub append_entries-rejects :
      (u : ℕ)
      → r.last_snapshot_include_index ≤ args.prev_log_index
      → args.prev_log_index ≤ r.last_snapshot_include_index + length r.logs
      → get_log_term_from_log_index r args.prev_log_index ≡ ok u
      → u ≢ args.prev_log_term
      → (h : ℕ) × (append_entries r args reply now
          ≡ ok (
            persist (heard r args now),
            record reply {
              app_state = app_normal;
              success = false;
              term = args.term;
              update_next_index = pos h;
            },
          ))
        × IsHint (heard r args now) args.prev_log_index u h
  unfolding append_entries check_prev covered_reply match_entries reject_entries
  append_entries-rejects u lo hi at ne =
      let g : Raft = heard r args now in
      let (v, at', matched) = match_log-ok g c args.prev_log_index args.prev_log_term lo hi in
      let at'' : get_log_term_from_log_index g args.prev_log_index ≡ ok u =
        term-heard r args now args.prev_log_index ∙ at in
      let eq : u ≡ v = ground (arith, sym at'' ∙ at') in
      let differs : (args.prev_log_term == v) ≡ false = ground arith in
      let (h, found, hint) =
        back_up-IsHint g c args.prev_log_index u hi at''
          (args.prev_log_index + 1 - r.last_snapshot_include_index) (omega arith) lo
          (λ i a b. absurd (omega arith)) in
      (
        h,
        rw (
          le→ltb-false args.term r.current_term le,
          body-heard r args (record reply { app_state = app_normal }) now le,
          get_last_log_index-length g c,
          le→ltb-false _ _ hi,
          le→ltb-false _ _ lo,
          matched,
          differs,
          found,
        ),
        hint,
      )
