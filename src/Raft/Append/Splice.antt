-- ===== src/Raft/Append/Splice.antt =====
-- The log that a run of entries leaves, in closed form: they replace what stands from a slice index
-- on, and what stands behind them stays.
use kv_my.Common.{
  ℕ, zero, suc, ◌+◌, ◌≤◌, ◌-◌, get_elem?-drop, ◌∙◌, ◌<◌, ◌≡◌, refl, ap, some, List, [], ◌∷◌, ◌++◌,
  arith, length, get_elem?, set, drop, length-append, length-drop,
}
use kv_my.Raft.State.{LogEntry}
use kv_my.Raft.Log.Indexing.{Contiguous}

module _ {ℓ} {A : Type ℓ} where
  unfoldable pub splice : ℕ → List A → List A → List A
  splice zero new old = new ++ drop (length new) old
  splice (suc k) new [] = new
  splice (suc k) new (x ∷ old) = x ∷ splice k new old

  pub splice-nil : (k : ℕ) (old : List A) → splice k [] old ≡ old
  unfolding splice
  splice-nil zero old = refl
  splice-nil (suc k) [] = refl
  splice-nil (suc k) (x ∷ old) = ap (◌∷◌ x) (splice-nil k old)

  pub splice-set :
      (k : ℕ) (a : A) (old : List A) → k < length old → splice k (a ∷ []) old ≡ set old k a
  unfolding splice
  splice-set zero a [] h = absurd (omega arith)
  splice-set zero a (x ∷ old) h = refl
  splice-set (suc k) a [] h = absurd (omega arith)
  splice-set (suc k) a (x ∷ old) h = ap (◌∷◌ x) (splice-set k a old (omega arith))

  pub splice-append :
      (k : ℕ) (a : A) (old : List A) → k ≡ length old → splice k (a ∷ []) old ≡ old ++ a ∷ []
  unfolding splice
  splice-append zero a [] h = refl
  splice-append zero a (x ∷ old) h = absurd (omega arith)
  splice-append (suc k) a [] h = absurd (omega arith)
  splice-append (suc k) a (x ∷ old) h = ap (◌∷◌ x) (splice-append k a old (omega arith))

  pub splice-same :
      (k : ℕ) (a : A) (old : List A) → get_elem? old k ≡ some a → splice k (a ∷ []) old ≡ old
  unfolding splice
  splice-same zero a [] h = cc
  splice-same zero a (x ∷ old) h = cc
  splice-same (suc k) a [] h = cc
  splice-same (suc k) a (x ∷ old) h = ap (◌∷◌ x) (splice-same k a old h)

  drop-nil : (n : ℕ) → drop {A = A} n [] ≡ []
  drop-nil zero = refl
  drop-nil (suc n) = refl

  drop-drop_one : (n : ℕ) (old : List A) → drop n (drop 1 old) ≡ drop (suc n) old
  drop-drop_one zero [] = refl
  drop-drop_one (suc n) [] = refl
  drop-drop_one n (x ∷ old) = refl

  -- One entry, and the rest behind it.
  pub splice-cons :
      (k : ℕ) (a : A) (new old : List A)
      → k ≤ length old
      → splice (suc k) new (splice k (a ∷ []) old) ≡ splice k (a ∷ new) old
  unfolding splice
  splice-cons zero a new old h = ap (λ t. a ∷ (new ++ t)) (drop-drop_one (length new) old)
  splice-cons (suc k) a new [] h = absurd (omega arith)
  splice-cons (suc k) a new (x ∷ old) h = ap (◌∷◌ x) (splice-cons k a new old (omega arith))

  pub length-splice :
      (k : ℕ) (new old : List A)
      → k ≤ length old
      → (k + length new ≤ length (splice k new old)) × (length old ≤ length (splice k new old))
  unfolding splice
  length-splice zero new old h =
      omega (arith, length-append new (drop (length new) old), length-drop (length new) old)
  length-splice (suc k) new [] h = absurd (omega arith)
  length-splice (suc k) new (x ∷ old) h = omega (arith, length-splice k new old (omega arith))

  -- Before the slice the old entries stand,
  pub get_elem?-splice_before :
      (k : ℕ) (new old : List A) (i : ℕ)
      → k ≤ length old
      → i < k
      → get_elem? (splice k new old) i ≡ get_elem? old i
  unfolding splice
  get_elem?-splice_before zero new old i h lt = absurd (omega arith)
  get_elem?-splice_before (suc k) new [] i h lt = absurd (omega arith)
  get_elem?-splice_before (suc k) new (x ∷ old) zero h lt = refl
  get_elem?-splice_before (suc k) new (x ∷ old) (suc i) h lt =
      get_elem?-splice_before k new old i (omega arith) (omega arith)

  append_at :
      (new rest : List A) (i : ℕ) → i < length new → get_elem? (new ++ rest) i ≡ get_elem? new i
  append_at [] rest i h = absurd (omega arith)
  append_at (x ∷ new) rest zero h = refl
  append_at (x ∷ new) rest (suc i) h = append_at new rest i (omega arith)

  -- from the slice on the new ones,
  pub get_elem?-splice_new :
      (k : ℕ) (new old : List A) (i : ℕ)
      → k ≤ length old
      → i < length new
      → get_elem? (splice k new old) (k + i) ≡ get_elem? new i
  unfolding splice
  get_elem?-splice_new zero new old i h lt =
      let e : zero + i ≡ i = omega arith in rw e (append_at new _ i lt)
  get_elem?-splice_new (suc k) new [] i h lt = absurd (omega arith)
  get_elem?-splice_new (suc k) new (x ∷ old) i h lt =
      let e : suc k + i ≡ suc (k + i) = omega arith in
      rw e (get_elem?-splice_new k new old i (omega arith) lt)

  append_after :
      (new rest : List A) (i : ℕ) → get_elem? (new ++ rest) (length new + i) ≡ get_elem? rest i
  append_after [] rest i = ap (get_elem? rest) (omega arith)
  append_after (x ∷ new) rest i =
      let e : suc (length new) + i ≡ suc (length new + i) = omega arith in
      rw e (append_after new rest i)

  -- and behind the new ones the old entries again.
  pub get_elem?-splice_after :
      (k : ℕ) (new old : List A) (i : ℕ)
      → k ≤ length old
      → k + length new ≤ i
      → get_elem? (splice k new old) i ≡ get_elem? old i
  unfolding splice
  get_elem?-splice_after zero new old i h le =
      let e : i ≡ length new + (i - length new) = omega arith in
      let e' : i - length new + length new ≡ i = omega arith in
      ap (get_elem? (new ++ drop (length new) old)) e
      ∙ append_after new (drop (length new) old) (i - length new)
      ∙ get_elem?-drop (length new) old (i - length new)
      ∙ ap (get_elem? old) e'
  get_elem?-splice_after (suc k) new [] i h le = absurd (omega arith)
  get_elem?-splice_after (suc k) new (x ∷ old) zero h le = absurd (omega arith)
  get_elem?-splice_after (suc k) new (x ∷ old) (suc i) h le =
      get_elem?-splice_after k new old i (omega arith) (omega arith)

pub Contiguous-splice :
    (b k : ℕ) (new old : List LogEntry) (b' : ℕ)
    → Contiguous b old
    → k ≤ length old
    → b' ≡ b + k
    → Contiguous b' new
    → Contiguous b (splice k new old)
unfolding splice
Contiguous-splice b zero [] old b' c h e d = c
Contiguous-splice b zero (x ∷ new) [] b' c h e d = (
  omega arith,
  rw drop-nil at
      (Contiguous-splice (b + 1) zero new [] (b' + 1) tt (omega arith) (omega arith) d.1),
)
Contiguous-splice b zero (x ∷ new) (y ∷ old) b' c h e d = (
  omega arith,
  Contiguous-splice (b + 1) zero new old (b' + 1) c.1 (omega arith) (omega arith) d.1,
)
Contiguous-splice b (suc k) new [] b' c h e d = absurd (omega arith)
Contiguous-splice b (suc k) new (x ∷ old) b' c h e d =
    (c.0, Contiguous-splice (b + 1) k new old b' c.1 (omega arith) (omega arith) d)
