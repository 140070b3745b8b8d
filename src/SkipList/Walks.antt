-- ===== src/SkipList/Walks.antt =====
-- skipList/include/skipList.h: the walks along the levels, on the cells of the list.
use kv_my.Common.{
  ℕ, suc, ◌≤◌, ◌≡◌, ◌≢◌, refl, ◌∙◌, List, [], ◌∷◌, true, false, some, inl, inr, arith, All, length,
  ◌==◌, Bool-cases,
}
use kv_my.SkipList.State.{Ptr, null, Node, Heap, ok, load, forward_at}
use kv_my.SkipList.Shape.{
  Cell, first, any_on, last_at, node_of, Links, get_elem?-tabulate, last_at_tail, last_at-none,
  any_on-le,
}

module _ {K V : Type 0} where
  pub load-some :
      (h : Heap K V) (p : Ptr) (n : Node K V) → null ≢ p → h p ≡ some n → load h p ≡ ok n
  unfolding load
  load-some h p n e q = let off : (p == null) ≡ false = ground arith in rw (off, q)

  -- What the node of a cell has at its levels.
  pub forward_at-Links :
      (h : Heap K V) (c : Cell K V) (cs : List (Cell K V)) (t : ℕ → Ptr) (i : ℕ)
      → Links h (c ∷ cs) t
      → i ≤ c.level
      → forward_at h c.at i ≡ ok (first cs t i)
  unfolding forward_at
  forward_at-Links h c cs t i l le =
      rw (load-some h c.at (node_of c (first cs t)) l.0 l.1)
        (rw (get_elem?-tabulate (suc c.level) (first cs t) i (omega arith)))

  -- Where the walk at a level stands: at a cell of that level, with the cells behind it.
  pub record Reached (h : Heap K V) (P : Cell K V → Type 0) (t : ℕ → Ptr) (i : ℕ) (p : Ptr)
      (b : List (Cell K V)) : Type 0 where
    pub cell : Cell K V
    pub behind : List (Cell K V)
    pub linked : Links h (cell ∷ behind) t
    pub holds : All P behind
    pub high : i ≤ cell.level
    pub last : any_on i behind ≡ false
    pub here : last_at i p b ≡ cell.at
    pub same : (j : ℕ) → j ≤ i → last_at j p b ≡ last_at j cell.at behind
    pub shorter : length behind ≤ length b

  pub reach :
      (h : Heap K V) (P : Cell K V → Type 0) (t : ℕ → Ptr) (i : ℕ) (c : Cell K V)
      (b : List (Cell K V))
      → Links h (c ∷ b) t
      → All P b
      → any_on i (c ∷ b) ≡ true
      → Reached h P t i c.at b
  reach h P t i c [] l a on = record {
    cell = c;
    behind = [];
    linked = l;
    holds = a;
    high = ground arith;
    last = refl;
    here = refl;
    same = λ j le. refl;
    shorter = omega arith;
  }
  reach h P t i c (e ∷ b) l a on = elim (Bool-cases (any_on i (e ∷ b))) [
    | inl more ↦
        let r = reach h P t i e b l.3 a.1 more in
        let jump : (j : ℕ) → j ≤ i → last_at j c.at (e ∷ b) ≡ last_at j e.at b =
          λ j le. last_at_tail j c.at e b (any_on-le j i (e ∷ b) le more) in
        record {
          cell = r.cell;
          behind = r.behind;
          linked = r.linked;
          holds = r.holds;
          high = r.high;
          last = r.last;
          here = jump i (omega arith) ∙ r.here;
          same = λ j le. jump j le ∙ r.same j le;
          shorter = omega (arith, r.shorter);
        }
    | inr last ↦ record {
      cell = c;
      behind = e ∷ b;
      linked = l;
      holds = a;
      high = ground arith;
      last = last;
      here = last_at-none i c.at (e ∷ b) last;
      same = λ j le. refl;
      shorter = omega arith;
    }
  ]
