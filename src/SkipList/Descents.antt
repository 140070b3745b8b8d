-- ===== src/SkipList/Descents.antt =====
-- skipList/include/skipList.h: the walks that compare keys, on the cells of the list.
use kv_my.Common.{
  ℕ, zero, suc, ◌≤◌, ◌<◌, ◌≡◌, refl, ap, ◌∙◌, sym, List, [], ◌∷◌, true, false, inl, inr, arith, All,
  length, leb, ltb, ◌==◌, if◌then◌else◌, Bool-cases,
}
use kv_my.SkipList.State.{KeyOrder, Ptr, null, Heap, ok, forward_at}
use kv_my.SkipList.Operations.{ahead, matches, walk, descend, find}
use kv_my.SkipList.Shape.{Cell, first, last_at, node_of, Links, tabulate, put, assign-tabulate}
use kv_my.SkipList.Walks.{Reached, load-some, forward_at-Links, reach}

choose :
    (i j a b u q : ℕ)
    → (j ≤ i → a ≡ b)
    → (j ≡ i → a ≡ q)
    → (if ltb j i then b else if j == i then q else u) ≡ (if ltb j (suc i) then a else u)
choose i j a b u q below same = ground arith

module _ {K V : Type 0} ⦃order : KeyOrder K⦄ where
  abbrev pub Below : K → Cell K V → Type 0
  Below k c = order.lt c.key k ≡ true

  abbrev pub NotBelow : K → Cell K V → Type 0
  NotBelow k c = order.lt c.key k ≡ false

  pub ahead-Links :
      (h : Heap K V) (k : K) (c : Cell K V) (cs : List (Cell K V)) (t : ℕ → Ptr)
      → Links h (c ∷ cs) t
      → ahead h k c.at ≡ ok (order.lt c.key k)
  unfolding ahead
  ahead-Links h k c cs t l =
      let off : (c.at == null) ≡ false = ground arith in
      rw (off, load-some h c.at (node_of c (first cs t)) l.0 l.1)

  pub matches-Links :
      (h : Heap K V) (k : K) (c : Cell K V) (cs : List (Cell K V)) (t : ℕ → Ptr)
      → Links h (c ∷ cs) t
      → matches h k c.at ≡ ok (order.eq c.key k)
  unfolding matches
  matches-Links h k c cs t l =
      let off : (c.at == null) ≡ false = ground arith in
      rw (off, load-some h c.at (node_of c (first cs t)) l.0 l.1)

  -- Behind the keys that are below, each level stops.
  pub ahead-stop :
      (h : Heap K V) (k : K) (cs : List (Cell K V)) (i : ℕ)
      → Links h cs (λ j. null)
      → All (NotBelow k) cs
      → ahead h k (first cs (λ j. null) i) ≡ ok false
  ahead-stop h k [] i l a = unfold ahead in refl
  ahead-stop h k (c ∷ cs) i l a = elim (Bool-cases (leb i c.level)) [
    | inl on ↦ rw (on, ahead-Links h k c cs (λ j. null) l, a.0)
    | inr off ↦ rw off (ahead-stop h k cs i l.3 a.1)
  ]

  -- The walk along a level ends at the last cell of it whose key is below.
  pub walk_lem :
      (f : ℕ) (h : Heap K V) (k : K) (i : ℕ) (p : Ptr) (b : List (Cell K V)) (t : ℕ → Ptr)
      → forward_at h p i ≡ ok (first b t i)
      → Links h b t
      → All (Below k) b
      → ahead h k (t i) ≡ ok false
      → length b < f
      → walk f h k i p ≡ ok (last_at i p b)
  unfolding walk
  walk_lem zero h k i p b t at l a stop fuel = absurd (omega arith)
  walk_lem (suc f) h k i p [] t at l a stop fuel = rw (at, stop)
  walk_lem (suc f) h k i p (e ∷ b) t at l a stop fuel = elim (Bool-cases (leb i e.level)) [
    | inl on ↦
        let there : forward_at h p i ≡ ok e.at = rw at (rw on) in
        rw (there, on, ahead-Links h k e b t l, a.0)
          (walk_lem f h k i e.at b t (forward_at-Links h e b t i l (ground arith)) l.3 a.1 stop
            (omega arith))
    | inr off ↦
        let there : forward_at h p i ≡ ok (first b t i) = rw at (rw off) in
        rw off (walk_lem (suc f) h k i p b t there l.3 a.1 stop (omega arith))
  ]

  -- The levels from the `n`-th down: where the search ends, and what it keeps for each level.
  abbrev pub landing : ℕ → Ptr → List (Cell K V) → Ptr
  landing zero p b = p
  landing (suc n) p b = last_at 0 p b

  -- `g` has the cell before the key at the first `n` levels, and what `f` has above.
  abbrev pub Filled : ℕ → Ptr → List (Cell K V) → (ℕ → Ptr) → (ℕ → Ptr) → Type 0
  Filled n p b f g = (j : ℕ) → g j ≡ (if ltb j n then last_at j p b else f j)

  landing-next :
      (h : Heap K V) (P : Cell K V → Type 0) (t : ℕ → Ptr) (i : ℕ) (p : Ptr) (b : List (Cell K V))
      (r : Reached h P t i p b)
      → landing i r.cell.at r.behind ≡ last_at 0 p b
  landing-next h P t zero p b r = sym r.here
  landing-next h P t (suc i) p b r = sym (r.same 0 (omega arith))

  -- One round of the descent, when the rest of it is known.
  descend-round :
      (f : ℕ) (h : Heap K V) (k : K) (i : ℕ) (p q : Ptr) (m : ℕ) (u : ℕ → Ptr)
      → walk f h k i p ≡ ok q
      → i < m
      → descend f h k (suc i) p (tabulate m u) ≡ descend f h k i q (tabulate m (put u i q))
  unfolding descend
  descend-round f h k i p q m u walked room = rw (walked, assign-tabulate m u i q room)

  Filled-round :
      (h : Heap K V) (P : Cell K V → Type 0) (t : ℕ → Ptr) (i : ℕ) (p : Ptr) (b : List (Cell K V))
      (u g : ℕ → Ptr) (r : Reached h P t i p b)
      → Filled i r.cell.at r.behind (put u i r.cell.at) g
      → Filled (suc i) p b u g
  Filled-round h P t i p b u g r is j =
      is j
      ∙ choose i j (last_at j p b) (last_at j r.cell.at r.behind) (u j) r.cell.at (r.same j)
          (λ e. rw e r.here)

  pub descend_lem :
      (f : ℕ) (h : Heap K V) (k : K) (n : ℕ) (c : Cell K V) (b : List (Cell K V)) (t : ℕ → Ptr)
      (m : ℕ) (u : ℕ → Ptr)
      → Links h (c ∷ b) t
      → All (Below k) b
      → ((i : ℕ) → ahead h k (t i) ≡ ok false)
      → length b < f
      → n ≤ suc c.level
      → n ≤ m
      → (g : ℕ → Ptr) × (descend f h k n c.at (tabulate m u) ≡ ok (landing n c.at b, tabulate m g))
        × Filled n c.at b u g
  descend_lem f h k zero c b t m u l a stop fuel high room =
      (u, unfold descend in refl, λ j. ground arith)
  descend_lem f h k (suc i) c b t m u l a stop fuel high room =
      let r = reach h (Below k) t i c b l a (ground arith) in
      let rest =
        descend_lem f h k i r.cell r.behind t m (put u i r.cell.at) r.linked r.holds stop
          (omega (arith, r.shorter)) (omega (arith, r.high)) (omega arith) in
      let walked : walk f h k i c.at ≡ ok r.cell.at =
        walk_lem f h k i c.at b t (forward_at-Links h c b t i l (omega arith)) l.3 a (stop i) fuel
        ∙ ap ok r.here in
      (
        rest.0,
        descend-round f h k i c.at r.cell.at m u walked (omega arith)
            ∙ rest.1
            ∙ ap (λ p. ok (p, tabulate m rest.0)) (landing-next h (Below k) t i c.at b r),
        Filled-round h (Below k) t i c.at b u rest.0 r rest.2,
      )

  find-round :
      (f : ℕ) (h : Heap K V) (k : K) (i : ℕ) (p q : Ptr)
      → walk f h k i p ≡ ok q
      → find f h k (suc i) p ≡ find f h k i q
  unfolding find
  find-round f h k i p q walked = rw walked

  -- The descent of a search, which keeps nothing.
  pub find_lem :
      (f : ℕ) (h : Heap K V) (k : K) (n : ℕ) (c : Cell K V) (b : List (Cell K V)) (t : ℕ → Ptr)
      → Links h (c ∷ b) t
      → All (Below k) b
      → ((i : ℕ) → ahead h k (t i) ≡ ok false)
      → length b < f
      → n ≤ suc c.level
      → find f h k n c.at ≡ ok (landing n c.at b)
  find_lem f h k zero c b t l a stop fuel high = unfold find in refl
  find_lem f h k (suc i) c b t l a stop fuel high =
      let r = reach h (Below k) t i c b l a (ground arith) in
      let walked : walk f h k i c.at ≡ ok r.cell.at =
        walk_lem f h k i c.at b t (forward_at-Links h c b t i l (omega arith)) l.3 a (stop i) fuel
        ∙ ap ok r.here in
      find-round f h k i c.at r.cell.at walked
      ∙ find_lem f h k i r.cell r.behind t r.linked r.holds stop (omega (arith, r.shorter))
          (omega (arith, r.high))
      ∙ ap ok (landing-next h (Below k) t i c.at b r)
