-- ===== src/SkipList/Refines/Destroy.antt =====
-- skipList/include/skipList.h, lines 351 to 366: the destructor deletes every node once.
use kv_my.Common.{
  ℕ, zero, suc, ◌≤◌, ◌<◌, ◌≡◌, refl, ◌∙◌, sym, List, [], ◌∷◌, true, false, none, arith, All, length,
  leb, ◌==◌, if◌then◌else◌,
}
use kv_my.SkipList.State.{
  KeyOrder, Ptr, null, Heap, SkipList, Run, ok, free, write, forward_at, ◌>>=◌,
}
use kv_my.SkipList.Operations.{clear, destroy}
use kv_my.SkipList.Shape.{Cell, first, Apart, Links}
use kv_my.SkipList.Walks.{forward_at-Links}
use kv_my.SkipList.Relinks.{write-other}
use kv_my.SkipList.Unlinking.{free-Links}
use kv_my.SkipList.Invariant.{nowhere, IsSkipList}

module _ {K V : Type 0} where
  -- The nodes of the cells are deleted, and nothing else changes.
  pub record Cleared (h : Heap K V) (cs : List (Cell K V)) (made : Run (Heap K V)) : Type 0 where
    pub heap : Heap K V
    pub done : made ≡ ok heap
    pub gone : All (λ c. heap c.at ≡ none) cs
    pub frame : (a : Ptr) → Apart a cs → heap a ≡ h a

  -- The node in front of nodes that are deleted is deleted last.
  freed_front :
      (h : Heap K V) (c : Cell K V) (cs : List (Cell K V)) (made : Run (Heap K V))
      → Links h (c ∷ cs) nowhere
      → Cleared h cs made
      → Cleared h (c ∷ cs) (made >>= λ h'. free h' c.at)
  freed_front h c cs made l r = record {
    heap = write r.heap c.at none;
    done = rw r.done (free-Links r.heap c (first cs nowhere) l.0 (r.frame c.at l.2 ∙ l.1));
    gone = (blank, others cs l.2 r.gone);
    frame = λ a apart. write-other r.heap c.at a none (λ e. apart.0 (sym e)) ∙ r.frame a apart.1;
  }
    where
      blank : write r.heap c.at none c.at ≡ none
      blank = unfold write in ground arith

      others :
          (ds : List (Cell K V))
          → Apart c.at ds
          → All (λ d. r.heap d.at ≡ none) ds
          → All (λ d. write r.heap c.at none d.at ≡ none) ds
      others [] p q = tt
      others (d ∷ ds) p q = (write-other r.heap c.at d.at none p.0 ∙ q.0, others ds p.1 q.1)

  clear-round :
      (f : ℕ) (h : Heap K V) (p after : Ptr)
      → forward_at h p 0 ≡ ok after
      → clear (suc f) h p ≡ ((if after == null then ok h else clear f h after) >>= λ h'. free h' p)
  clear-round f h p after e = unfold clear in rw e

  clear_lem :
      (f : ℕ) (h : Heap K V) (c : Cell K V) (cs : List (Cell K V))
      → Links h (c ∷ cs) nowhere
      → length cs < f
      → Cleared h (c ∷ cs) (clear f h c.at)
  clear_lem zero h c cs l fuel = absurd (omega arith)
  clear_lem (suc f) h c [] l fuel =
      let last : Cleared h [] (if null == null then ok h else clear f h null) = record {
        heap = h;
        done = refl;
        gone = tt;
        frame = λ a apart. refl;
      } in
      rw (clear-round f h c.at null (forward_at-Links h c [] nowhere 0 l (omega arith)))
        (freed_front h c [] _ l last)
  clear_lem (suc f) h c (d ∷ ds) l fuel =
      let low : leb 0 d.level ≡ true = ground arith in
      let off : (d.at == null) ≡ false = ground arith in
      let next : forward_at h c.at 0 ≡ ok d.at =
        forward_at-Links h c (d ∷ ds) nowhere 0 l (omega arith) ∙ rw low in
      let rest : Cleared h (d ∷ ds) (if d.at == null then ok h else clear f h d.at) =
        rw off (clear_lem f h d ds l.3 (omega arith)) in
      rw (clear-round f h c.at d.at next) (freed_front h c (d ∷ ds) _ l rest)

  destroy-first :
      (s : SkipList K V) (header : Cell K V) (cs : List (Cell K V))
      → Links s.heap (header ∷ cs) nowhere
      → length cs ≤ s.element_count
      → Cleared s.heap cs (
          if first cs nowhere 0 == null
          then ok s.heap
          else clear (suc s.element_count) s.heap (first cs nowhere 0))
  destroy-first s header [] l fuel = record {
    heap = s.heap;
    done = refl;
    gone = tt;
    frame = λ a apart. refl;
  }
  destroy-first s header (c ∷ cs) l fuel =
      let low : leb 0 c.level ≡ true = ground arith in
      let off : (c.at == null) ≡ false = ground arith in
      rw (low, off) (clear_lem (suc s.element_count) s.heap c cs l.3 (omega arith))

  module _ ⦃order : KeyOrder K⦄ where
    -- On a well-formed list the destructor ends without deleting a node twice: the nodes of the header
    -- and of all elements are gone, and every other address is as before.
    pub destroy_lem :
        {s : SkipList K V} {header : Cell K V} {cs : List (Cell K V)}
        → IsSkipList s header cs
        → Cleared s.heap (header ∷ cs) (destroy s)
    destroy_lem {s} {header} {cs} is =
        let l = is.shape.links in
        let r = destroy-first s header cs l (omega (arith, is.shape.counted)) in
        let entered : forward_at s.heap header.at 0 ≡ ok (first cs nowhere 0) =
          forward_at-Links s.heap header cs nowhere 0 l (omega arith) in
        unfold destroy in rw (is.shape.at_header, entered) (freed_front s.heap header cs _ l r)
