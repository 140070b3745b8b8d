-- ===== src/SkipList/Levels.antt =====
-- skipList/include/skipList.h, lines 368 to 377: the random level of a new node.
use kv_my.Common.{
  ℕ, suc, ◌+◌, ◌%◌, ◌≤◌, ◌<◌, ◌≡◌, ◌⊎◌, refl, List, [], ◌∷◌, inl, inr, arith, ◌==◌, min,
  if◌then◌else◌, Bool-cases,
}
use kv_my.SkipList.State.{Run, ok, fault, deadlock, out_of_fuel, ◌>>=◌}
use kv_my.SkipList.Operations.{flips, get_random_level}

flips_le : (k : ℕ) (rs : List ℕ) {l : ℕ} {rest : List ℕ} → flips k rs ≡ ok (l, rest) → k ≤ l
unfolding flips
flips_le k [] h = absurd (cc)
flips_le k (r ∷ rs) h = elim (Bool-cases (r % 2 == 0)) [
  | inl stop ↦ ground (arith, stop)
  | inr more ↦ let le = flips_le (k + 1) rs (rw more at h) in omega arith
]

bounds_of :
    (m : ℕ) (o : Run (ℕ × List ℕ)) {l : ℕ} {rest : List ℕ}
    → ((k : ℕ) (r : List ℕ) → o ≡ ok (k, r) → 1 ≤ k)
    → ◌>>=◌ {B = ℕ × List ℕ} o (λ (k, r). ok (min k m, r)) ≡ ok (l, rest)
    → (l ≤ m) × (0 < m → 0 < l)
bounds_of m (ok (k, r)) pos h = let p = pos k r refl in ground arith
bounds_of m fault pos h = absurd (cc)
bounds_of m deadlock pos h = absurd (cc)
bounds_of m out_of_fuel pos h = absurd (cc)

-- A random level is at most the highest one, and not 0 where that is not.
pub get_random_level_bounds :
    (m : ℕ) (rs : List ℕ) {l : ℕ} {rest : List ℕ}
    → get_random_level m rs ≡ ok (l, rest)
    → (l ≤ m) × (0 < m → 0 < l)
unfolding get_random_level
get_random_level_bounds m rs h = bounds_of m (flips 1 rs) (λ k r e. flips_le 1 rs e) h

-- `rand()` gives an even number some time.
abbrev pub HasEven : List ℕ → Type 0
HasEven [] = ⊥
HasEven (r ∷ rs) = (r % 2 ≡ 0) ⊎ HasEven rs

flips_total :
    (k : ℕ) (rs : List ℕ) → HasEven rs → (l : ℕ) × (rest : List ℕ) × (flips k rs ≡ ok (l, rest))
unfolding flips
flips_total k [] h = elim h [ ]
flips_total k (r ∷ rs) (inl even) = (k, rs, rw even)
flips_total k (r ∷ rs) (inr later) = elim (Bool-cases (r % 2 == 0)) [
  | inl even ↦ (k, rs, rw even)
  | inr odd ↦ let (l, rest, e) = flips_total (k + 1) rs later in (l, rest, rw odd e)
]

-- How many levels the numbers are enough for.
abbrev pub evens : List ℕ → ℕ
evens [] = 0
evens (r ∷ rs) = (if r % 2 == 0 then 1 else 0) + evens rs

pub HasEven-evens : (rs : List ℕ) → 0 < evens rs → HasEven rs
HasEven-evens [] h = elim h [ ]
HasEven-evens (r ∷ rs) h = elim (Bool-cases (r % 2 == 0)) [
  | inl even ↦ inl (ground (arith, even))
  | inr odd ↦ inr (HasEven-evens rs (let more = rw odd at h in omega arith))
]

-- A level takes one even number.
flips-evens :
    (k : ℕ) (rs : List ℕ) {l : ℕ} {rest : List ℕ}
    → flips k rs ≡ ok (l, rest)
    → evens rs ≡ suc (evens rest)
unfolding flips
flips-evens k [] h = absurd (cc)
flips-evens k (r ∷ rs) {l} {rest} h = elim (Bool-cases (r % 2 == 0)) [
  | inl even ↦ let same : rs ≡ rest = let e = rw even at h in cc in rw (even, same) (omega arith)
  | inr odd ↦ rw odd (omega (arith, flips-evens (k + 1) rs (rw odd at h)))
]

level-evens :
    (m : ℕ) (o : Run (ℕ × List ℕ)) (n : ℕ) {l : ℕ} {rest : List ℕ}
    → ((k : ℕ) (r : List ℕ) → o ≡ ok (k, r) → n ≡ suc (evens r))
    → ◌>>=◌ {B = ℕ × List ℕ} o (λ (k, r). ok (min k m, r)) ≡ ok (l, rest)
    → n ≡ suc (evens rest)
level-evens m (ok (k, r)) n {l} {rest} p h = let same : r ≡ rest = cc in rw (← same) (p k r refl)
level-evens m fault n p h = absurd (cc)
level-evens m deadlock n p h = absurd (cc)
level-evens m out_of_fuel n p h = absurd (cc)

pub get_random_level-evens :
    (m : ℕ) (rs : List ℕ) {l : ℕ} {rest : List ℕ}
    → get_random_level m rs ≡ ok (l, rest)
    → evens rs ≡ suc (evens rest)
unfolding get_random_level
get_random_level-evens m rs h =
    level-evens m (flips 1 rs) (evens rs) (λ k r e. flips-evens 1 rs e) h

-- Once rand() gives an even number, get_random_level returns a level: at most the highest one, and
-- at least 1 where the highest one is.
pub get_random_level-total :
    (m : ℕ) (rs : List ℕ)
    → HasEven rs
    → (l : ℕ) × (rest : List ℕ) × (get_random_level m rs ≡ ok (l, rest)) × (l ≤ m) × (min 1 m ≤ l)
get_random_level-total m rs h =
    let (k, rest, e) = flips_total 1 rs h in
    let le = flips_le 1 rs e in
    (min k m, rest, unfold get_random_level in rw e, ground arith, ground arith)
