-- ===== src/SkipList/Unlinking.antt =====
-- skipList/include/skipList.h, lines 284 to 297: a node leaves the cells, and the list is as high as
-- the cells that are left.
use kv_my.Common.{
  ℕ, zero, suc, ◌≤◌, ◌<◌, ◌≡◌, ◌≢◌, refl, ◌∙◌, sym, List, [], ◌∷◌, ◌++◌, true, false, some, none,
  inl, inr, arith, All, leb, ◌==◌, if◌then◌else◌, Bool-cases, not,
}
use kv_my.SkipList.State.{Ptr, null, Heap, Run, ok, write, free, forward_at}
use kv_my.SkipList.Operations.{unlink, lower}
use kv_my.SkipList.Shape.{
  Cell, first, any_on, node_of, Apart, Links, Links-split, Links-append, Links-ext, Links-frame,
  tabulate, All-append, All-map,
}
use kv_my.SkipList.Walks.{load-some, forward_at-Links}
use kv_my.SkipList.Relinks.{Links-write}
use kv_my.SkipList.Splices.{Before, bypass, unlink_lem}
use kv_my.SkipList.Invariant.{nowhere}
use kv_my.SkipList.Linking.{All-swap}

module _ {K V : Type 0} where
  first-ne :
      (p : Ptr) (cs : List (Cell K V)) (i : ℕ) → null ≢ p → Apart p cs → first cs nowhere i ≢ p
  first-ne p [] i ne a = ne
  first-ne p (c ∷ cs) i ne a = elim (Bool-cases (leb i c.level)) [
    | inl on ↦ rw on (λ e. a.0 (sym e))
    | inr off ↦ rw off (first-ne p cs i ne a.1)
  ]

  first-on :
      (h : Heap K V) (cs : List (Cell K V)) (i : ℕ)
      → Links h cs nowhere
      → (first cs nowhere i == null) ≡ not (any_on i cs)
  first-on h [] i l = refl
  first-on h (c ∷ cs) i l = elim (Bool-cases (leb i c.level)) [
    | inl on ↦ rw on (ground arith)
    | inr off ↦ rw off (first-on h cs i l.3)
  ]

  All-lower :
      (l : ℕ) (cs : List (Cell K V))
      → All (λ c. c.level ≤ suc l) cs
      → any_on (suc l) cs ≡ false
      → All (λ c. c.level ≤ l) cs
  All-lower l [] a off = tt
  All-lower l (c ∷ cs) a off = (ground arith, All-lower l cs a.1 (ground arith))

  -- The level that is left is 0 or one where a cell stands, and no cell is higher.
  pub record Lowered (cs : List (Cell K V)) (l : ℕ) (made : Run ℕ) : Type 0 where
    pub level : ℕ
    pub done : made ≡ ok level
    pub le : level ≤ l
    pub low : All (λ c. c.level ≤ level) cs
    pub tight : 0 < level → any_on level cs ≡ true

  lower-round :
      (h : Heap K V) (p : Ptr) (l : ℕ) (q : Ptr)
      → forward_at h p (suc l) ≡ ok q
      → lower h p (suc l) ≡ (if q == null then lower h p l else ok (suc l))
  lower-round h p l q e = unfold lower in rw e

  pub lower_lem :
      (h : Heap K V) (c : Cell K V) (cs : List (Cell K V)) (l : ℕ)
      → Links h (c ∷ cs) nowhere
      → l ≤ c.level
      → All (λ d. d.level ≤ l) cs
      → Lowered cs l (lower h c.at l)
  lower_lem h c cs zero links le a = record {
    level = 0;
    done = unfold lower in refl;
    le = omega arith;
    low = a;
    tight = λ pos. absurd (omega arith);
  }
  lower_lem h c cs (suc l) links le a =
      let round =
        lower-round h c.at l (first cs nowhere (suc l))
          (forward_at-Links h c cs nowhere (suc l) links le) in
      elim (Bool-cases (any_on (suc l) cs)) [
        | inl on ↦ record {
          level = suc l;
          done = round ∙ rw (first-on h cs (suc l) links.3, on);
          le = omega arith;
          low = a;
          tight = λ pos. on;
        }
        | inr off ↦
            let r = lower_lem h c cs l links (omega arith) (All-lower l cs a off) in
            record {
              level = r.level;
              done = round ∙ rw (first-on h cs (suc l) links.3, off) r.done;
              le = omega (arith, r.le);
              low = r.low;
              tight = r.tight;
            }
      ]

  pub free-Links :
      (h : Heap K V) (c : Cell K V) (f : ℕ → Ptr)
      → null ≢ c.at
      → h c.at ≡ some (node_of c f)
      → free h c.at ≡ ok (write h c.at none)
  free-Links h c f ne e = unfold free in rw (load-some h c.at (node_of c f) ne e)

  -- The nodes of the cells without the one of `d`, which is linked out and then deleted.
  pub record Removed (h : Heap K V) (header : Cell K V) (b : List (Cell K V)) (d : Cell K V)
      (ds : List (Cell K V)) (made : Run (Heap K V)) : Type 0 where
    pub heap : Heap K V
    pub done : made ≡ ok heap
    pub linked : Links heap (header ∷ (b ++ ds)) nowhere
    pub freed : free heap d.at ≡ ok (write heap d.at none)
    pub left : Links (write heap d.at none) (header ∷ (b ++ ds)) nowhere

  pub removed :
      (h : Heap K V) (header : Cell K V) (b : List (Cell K V)) (d : Cell K V) (ds : List (Cell K V))
      (n m : ℕ) (u : ℕ → Ptr)
      → Links h (header ∷ (b ++ d ∷ ds)) nowhere
      → Before 0 n header b u
      → d.level < n
      → n ≤ m
      → Removed h header b d ds (unlink n 0 d.at (tabulate m u) h)
  removed h header b d ds n m u links before high room =
      let parts = Links-split h (header ∷ b) (d ∷ ds) nowhere links in
      let node = parts.1 in
      let front : Apart d.at (header ∷ b) = (All-swap (header ∷ b) (d ∷ ds) parts.2).0 in
      let behind = (All-swap (header ∷ b) (d ∷ ds) parts.2).1 in
      let r =
        unlink_lem n 0 header b d (first (d ∷ ds) nowhere) (first ds nowhere) m u h parts.0 node.0
          node.1 front before (λ j ge le. ground arith)
          (λ j lt. ground (arith, first-ne d.at ds j node.0 node.2)) (omega arith) (omega arith)
          (omega arith) in
      let l : Links r.heap (header ∷ b) (first ds nowhere) =
        Links-ext r.heap (header ∷ b) (bypass 0 d (first ds nowhere) (first (d ∷ ds) nowhere))
          (first ds nowhere) (λ i on. ground arith) r.linked in
      let k : Links r.heap ds nowhere =
        Links-frame h r.heap ds nowhere (All-map _ _ ds (λ c apart. r.frame c.at apart) behind)
          node.3 in
      let all : Links r.heap (header ∷ (b ++ ds)) nowhere =
        Links-append r.heap (header ∷ b) ds nowhere l k
          (All-map _ _ (header ∷ b) (λ c apart. apart.1) parts.2) in
      record {
        heap = r.heap;
        done = r.done;
        linked = all;
        freed = free-Links r.heap d (first ds nowhere) node.0 (r.frame d.at front ∙ node.1);
        left =
            Links-write r.heap (header ∷ (b ++ ds)) nowhere d.at none
              (All-append _ (header ∷ b) ds front node.2) all;
      }
