-- ===== src/Raft/Node/Majorities.antt =====
-- Two majorities of the same nodes have a node in common.
use kv_my.Common.{
  ℕ, zero, suc, ◌+◌, ◌<◌, ◌≡◌, refl, ap, sym, ◌∙◌, Bool, true, false, ◌||◌, List, [], ◌∷◌, inl, inr,
  arith, ◌==◌, ==_iff, if◌then◌else◌, Bool-cases, length, All,
}

unfoldable pub mem : ℕ → List ℕ → Bool
mem v [] = false
mem v (x ∷ xs) = x == v || mem v xs

-- No node stands twice.
abbrev pub Distinct : List ℕ → Type 0
Distinct [] = Unit
Distinct (x ∷ xs) = (mem x xs ≡ false) × Distinct xs

without : ℕ → List ℕ → List ℕ
without v [] = []
without v (x ∷ xs) = let rest = without v xs in if x == v then rest else x ∷ rest

mem-without : (v w : ℕ) (xs : List ℕ) → mem w (without v xs) ≡ true → mem w xs ≡ true
unfolding mem without
mem-without v w [] h = h
mem-without v w (x ∷ xs) h = ground (arith, mem-without v w xs)

Distinct-without : (v : ℕ) (xs : List ℕ) → Distinct xs → Distinct (without v xs)
unfolding without
Distinct-without v [] d = tt
Distinct-without v (x ∷ xs) d = elim (Bool-cases (x == v)) [
  | inl same ↦ rw same (Distinct-without v xs d.1)
  | inr differ ↦ rw differ (elim (Bool-cases (mem x (without v xs))) [
    | inl twice ↦ absurd (ground (arith, mem-without v x xs twice))
    | inr once ↦ (once, Distinct-without v xs d.1)
  ])
]

bounded-without : (v : ℕ) (xs : List ℕ) → All (λ x. x < suc v) xs → All (λ x. x < v) (without v xs)
unfolding without
bounded-without v [] h = tt
bounded-without v (x ∷ xs) h = elim (Bool-cases (x == v)) [
  | inl same ↦ rw same (bounded-without v xs h.1)
  | inr differ ↦ rw differ (ground arith, bounded-without v xs h.1)
]

without-absent : (v : ℕ) (xs : List ℕ) → mem v xs ≡ false → without v xs ≡ xs
unfolding mem without
without-absent v [] h = refl
without-absent v (x ∷ xs) h = ground (arith, without-absent v xs)

length-without :
    (v : ℕ) (xs : List ℕ)
    → Distinct xs
    → length xs ≡ (if mem v xs then 1 else 0) + length (without v xs)
unfolding mem without
length-without v [] d = omega arith
length-without v (x ∷ xs) d = elim (Bool-cases (x == v)) [
  | inl same ↦
      let e : x ≡ v = (==_iff x v).0 same in
      let absent : mem v xs ≡ false = ap (λ w. mem w xs) (sym e) ∙ d.0 in
      rw (same, without-absent v xs absent) (omega arith)
  | inr differ ↦ rw differ (omega (arith, length-without v xs d.1))
]

-- Two lists of the nodes below `n` that together are longer than `n`.
pub common_node :
    (n : ℕ) (xs ys : List ℕ)
    → Distinct xs
    → Distinct ys
    → All (λ x. x < n) xs
    → All (λ x. x < n) ys
    → n < length xs + length ys
    → (v : ℕ) × (mem v xs ≡ true) × (mem v ys ≡ true)
common_node zero [] [] da db ba bb h = absurd (omega arith)
common_node zero (x ∷ xs) ys da db ba bb h = absurd (omega arith)
common_node zero [] (y ∷ ys) da db ba bb h = absurd (omega arith)
common_node (suc n) xs ys da db ba bb h =
    let la = length-without n xs da in
    let lb = length-without n ys db in
    let smaller : n < length (without n xs) + length (without n ys)
        → (v : ℕ) × (mem v xs ≡ true) × (mem v ys ≡ true) =
      λ more.
        let (v, in_xs, in_ys) =
          common_node n (without n xs) (without n ys) (Distinct-without n xs da)
            (Distinct-without n ys db) (bounded-without n xs ba) (bounded-without n ys bb) more in
        (v, mem-without n v xs in_xs, mem-without n v ys in_ys) in
    elim (Bool-cases (mem n xs)) [
      | inl in_xs ↦ elim (Bool-cases (mem n ys)) [
        | inl in_ys ↦ (n, in_xs, in_ys)
        | inr not_ys ↦ smaller (omega (arith, rw in_xs at la, rw not_ys at lb))
      ]
      | inr not_xs ↦ smaller (ground (arith, rw not_xs at la, lb))
    ]
