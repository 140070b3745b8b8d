-- ===== src/Raft/Peers.antt =====
-- The loops over `m_peers` that leave the node itself out.
use native.Mathlib.Decide.{dec_lt}
use kv_my.Common.{
  ℕ, zero, suc, ◌+◌, ◌-◌, ◌<◌, ◌≤◌, ◌≡◌, refl, ap, false, true, List, [], ◌∷◌, ◌++◌, arith, ◌==◌,
  ==_iff, if◌then◌else◌,
}
use kv_my.Raft.State.{Raft}

-- `for (int i = first; i < first + rounds; i++) { if (i == m_me) continue; ... }`.
pub peers_from : ℕ → ℕ → ℕ → List ℕ
peers_from me first zero = []
peers_from me first (suc rounds) =
    let rest = peers_from me (first + 1) rounds in if first == me then rest else first ∷ rest

unfoldable pub other_peers : Raft → List ℕ
unfolding peers_from
other_peers r = peers_from r.me 0 r.peers

-- The numbers from one on, so many of them.
unfoldable pub numbers : ℕ → ℕ → List ℕ
numbers first zero = []
numbers first (suc n) = first ∷ numbers (first + 1) n

peers_from-above : (me first n : ℕ) → me < first → peers_from me first n ≡ numbers first n
unfolding peers_from numbers
peers_from-above me first zero above = refl
peers_from-above me first (suc n) above =
    let differs : (first == me) ≡ false = ground arith in
    rw (differs, peers_from-above me (first + 1) n (omega arith))

peers_from-around :
    (me first n : ℕ)
    → first ≤ me
    → me < first + n
    → peers_from me first n ≡ numbers first (me - first) ++ numbers (me + 1) (first + n - me - 1)
unfolding peers_from
peers_from-around me first zero lo hi = absurd (omega arith)
peers_from-around me first (suc n) lo hi = elim (dec_lt first me) [
  | yes before ↦
      let differs : (first == me) ≡ false = ground arith in
      let count : me - first ≡ suc (me - (first + 1)) = omega arith in
      let left : first + suc n - me - 1 ≡ first + 1 + n - me - 1 = omega arith in
      rw (differs, peers_from-around me (first + 1) n (omega arith) (omega arith), count, left)
        (unfold numbers in refl)
  | no here ↦
      let same : first ≡ me = omega arith in
      let hit : (first == me) ≡ true = (==_iff first me).1 same in
      let none_before : me - first ≡ 0 = omega arith in
      let left : first + suc n - me - 1 ≡ n = omega arith in
      let next : first + 1 ≡ me + 1 = omega arith in
      rw (hit, none_before, left, peers_from-above me (first + 1) n (omega arith))
        (unfold numbers in (ap (λ k. numbers k n) next))
]

-- The loop visits the nodes below the own number and then those above it, each once.
pub other_peers-numbers :
    (r : Raft)
    → r.me < r.peers
    → other_peers r ≡ numbers 0 r.me ++ numbers (r.me + 1) (r.peers - r.me - 1)
unfolding other_peers
other_peers-numbers r inside =
    let below : r.me - 0 ≡ r.me = omega arith in
    let above : 0 + r.peers - r.me - 1 ≡ r.peers - r.me - 1 = omega arith in
    rw (peers_from-around r.me 0 r.peers (omega arith) (omega (arith, inside)), below, above) refl
