-- ===== src/Raft/Node/Elections.antt =====
-- Election safety: the votes of one term, over whole runs of the nodes.
use native.Mathlib.Decide.{dec_lt}
use kv_my.Common.{
  ℕ, zero, suc, ◌+◌, ◌-◌, ◌/◌, ◌≤◌, ◌<◌, ◌≡◌, sym, subst, ◌∙◌, true, List, arith, length, All,
}
use kv_my.Common.Int.{pos}
use kv_my.Raft.State.{Raft}
use kv_my.Raft.Persist.{RaftCodec}
use kv_my.Raft.Node.{Reach, here, next}
use kv_my.Raft.Node.Votes.{Reach-one_vote}
use kv_my.Raft.Node.Majorities.{mem, Distinct, common_node}

module _ ⦃codec : RaftCodec⦄ where
  Reach-trans : {r s t : Raft} → Reach r s → Reach s t → Reach r t
  Reach-trans a here = a
  Reach-trans a (next call b done) = next call (Reach-trans a b) done

  -- The states of each node, one after another, with any calls between two.
  abbrev pub IsRun : (ℕ → ℕ → Raft) → Type 0
  IsRun run = (v k : ℕ) → Reach (run v k) (run v (suc k))

  -- At some time the node has voted for the candidate in the term.
  abbrev pub HasVoted : (ℕ → ℕ → Raft) → ℕ → ℕ → ℕ → Type 0
  HasVoted run term candidate v =
      (k : ℕ) × ((run v k).current_term ≡ term) × ((run v k).voted_for ≡ pos candidate)

  module _ (run : ℕ → ℕ → Raft) (is_run : IsRun run) where
    Reach-after : (v j d : ℕ) → Reach (run v j) (run v (j + d))
    Reach-after v j zero =
        let e : j ≡ j + zero = omega arith in subst (λ k. Reach (run v j) (run v k)) e here
    Reach-after v j (suc d) =
        let e : suc (j + d) ≡ j + suc d = omega arith in
        subst (λ k. Reach (run v j) (run v k)) e
          (Reach-trans (Reach-after v j d) (is_run v (j + d)))

    Reach-later : (v j k : ℕ) → j ≤ k → Reach (run v j) (run v k)
    Reach-later v j k le =
        let e : j + (k - j) ≡ k = omega arith in
        subst (λ i. Reach (run v j) (run v i)) e (Reach-after v j (k - j))

    one_candidate : (v term a b : ℕ) → HasVoted run term a v → HasVoted run term b v → a ≡ b
    one_candidate v term a b (j, tj, vj) (k, tk, vk) = elim (dec_lt j k) [
      | yes before ↦
          Reach-one_vote (run v j) (run v k) a b (Reach-later v j k (omega arith)) (tk ∙ sym tj) vj
            vk
      | no after ↦ sym (
          Reach-one_vote (run v k) (run v j) b a (Reach-later v k j (omega arith)) (tj ∙ sym tk) vk
            vj)
    ]

    -- Over any runs of `n` nodes, two candidates for each of which a majority of the nodes have voted
    -- in the same term, at whatever times, are the same candidate.
    pub majorities-agree :
        (n term a b : ℕ) (xs ys : List ℕ)
        → Distinct xs
        → Distinct ys
        → All (λ v. v < n) xs
        → All (λ v. v < n) ys
        → n / 2 + 1 ≤ length xs
        → n / 2 + 1 ≤ length ys
        → ((v : ℕ) → mem v xs ≡ true → HasVoted run term a v)
        → ((v : ℕ) → mem v ys ≡ true → HasVoted run term b v)
        → a ≡ b
    majorities-agree n term a b xs ys dx dy bx by_ mx my vx vy =
        let more : n < length xs + length ys = omega arith in
        let (v, in_xs, in_ys) = common_node n xs ys dx dy bx by_ more in
        one_candidate v term a b (vx v in_xs) (vy v in_ys)
