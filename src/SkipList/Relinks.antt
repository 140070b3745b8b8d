-- ===== src/SkipList/Relinks.antt =====
-- skipList/include/skipList.h: the loops that link a node in and out, on the cells before it.
use kv_my.Common.{
  ℕ, suc, ◌≤◌, ◌≡◌, ◌≢◌, refl, ap, ◌∙◌, sym, List, [], ◌∷◌, Option, true, false, some, inl, inr,
  arith, ◌==◌, Bool-cases,
}
use kv_my.SkipList.State.{Ptr, null, Node, Heap, Run, ok, write, forward_at, set_forward}
use kv_my.SkipList.Shape.{
  Cell, first, first-any, first-ext, first-put, any_on, last_at, node_of, node_of-ext, Apart, Links,
  Links-ext, Links-frame, get_elem?-tabulate, put, assign-tabulate, last_at_tail, last_at-none,
  All-map,
}
use kv_my.SkipList.Walks.{load-some, forward_at-Links, reach}

module _ {K V : Type 0} where
  pub forward_at-node :
      (h : Heap K V) (c : Cell K V) (f : ℕ → Ptr) (i : ℕ)
      → null ≢ c.at
      → h c.at ≡ some (node_of c f)
      → i ≤ c.level
      → forward_at h c.at i ≡ ok (f i)
  unfolding forward_at
  forward_at-node h c f i ne e le =
      rw (load-some h c.at (node_of c f) ne e)
        (rw (get_elem?-tabulate (suc c.level) f i (omega arith)))

  pub set_forward-node :
      (h : Heap K V) (c : Cell K V) (f : ℕ → Ptr) (i : ℕ) (q : Ptr)
      → null ≢ c.at
      → h c.at ≡ some (node_of c f)
      → i ≤ c.level
      → set_forward h c.at i q ≡ ok (write h c.at (some (node_of c (put f i q))))
  unfolding set_forward
  set_forward-node h c f i q ne e le =
      rw (load-some h c.at (node_of c f) ne e)
        (rw (assign-tabulate (suc c.level) f i q (omega arith)))

  pub write_self : (h : Heap K V) (p : Ptr) (n : Node K V) → write h p (some n) p ≡ some n
  unfolding write
  write_self h p n = ground arith

  pub write-other : (h : Heap K V) (p a : Ptr) (o : Option (Node K V)) → p ≢ a → write h p o a ≡ h a
  unfolding write
  write-other h p a o ne = ground arith

  pub Links-write :
      (h : Heap K V) (cs : List (Cell K V)) (t : ℕ → Ptr) (p : Ptr) (o : Option (Node K V))
      → Apart p cs
      → Links h cs t
      → Links (write h p o) cs t
  Links-write h cs t p o apart l =
      Links-frame h (write h p o) cs t (All-map _ _ cs (λ c ne. write-other h p c.at o ne) apart) l

  first-none :
      (cs : List (Cell K V)) (t : ℕ → Ptr) (i : ℕ) → any_on i cs ≡ false → first cs t i ≡ t i
  first-none [] t i off = refl
  first-none (c ∷ cs) t i off = ground (arith, first-none cs t i)

  ne_level : (cs : List (Cell K V)) (i j : ℕ) → any_on i cs ≡ true → any_on j cs ≡ false → i ≢ j
  ne_level cs i j on off e = let both : any_on j cs ≡ true = rw (← e) on in cc

  -- The pointer of the last cell at level `i`.
  pub forward_at-last :
      (h : Heap K V) (c : Cell K V) (b : List (Cell K V)) (t : ℕ → Ptr) (i : ℕ)
      → Links h (c ∷ b) t
      → any_on i (c ∷ b) ≡ true
      → forward_at h (last_at i c.at b) i ≡ ok (t i)
  forward_at-last h c b t i l on =
      let r = reach h (λ d. Unit {0}) t i c b l (All-map _ _ b (λ d ne. tt) l.2) on in
      ap (λ p. forward_at h p i) r.here
      ∙ forward_at-Links h r.cell r.behind t i r.linked r.high
      ∙ ap ok (first-none r.behind t i r.last)

  first_kept :
      (cs : List (Cell K V)) (t : ℕ → Ptr) (j : ℕ) (q : Ptr) (i : ℕ)
      → any_on j cs ≡ true
      → first cs t i ≡ first cs (put t j q) i
  first_kept cs t j q i on = elim (Bool-cases (i == j)) [
    | inl same ↦ first-any cs t (put t j q) i (let e : i ≡ j = ground arith in rw e on)
    | inr other ↦ first-ext cs t (put t j q) i (rw other)
  ]

  -- A pointer of the last cell at level `j` changes where the list leads at that level.
  pub record Relinked (h : Heap K V) (cs : List (Cell K V)) (t : ℕ → Ptr) (made : Run (Heap K V))
      : Type 0 where
    pub heap : Heap K V
    pub done : made ≡ ok heap
    pub linked : Links heap cs t
    pub frame : (a : Ptr) → Apart a cs → heap a ≡ h a

  relink_here :
      (h : Heap K V) (c : Cell K V) (b : List (Cell K V)) (t : ℕ → Ptr) (j : ℕ) (q : Ptr)
      → Links h (c ∷ b) t
      → j ≤ c.level
      → any_on j b ≡ false
      → Relinked h (c ∷ b) (put t j q) (set_forward h c.at j q)
  relink_here h c b t j q l le off =
      let n = some (node_of c (put (first b t) j q)) in
      let linked : Links (write h c.at n) b (put t j q) =
        Links-write h b (put t j q) c.at n l.2
          (Links-ext h b t (put t j q) (λ i on. ground (arith, ne_level b i j on off)) l.3) in
      record {
        heap = write h c.at n;
        done = set_forward-node h c (first b t) j q l.0 l.1 le;
        linked = (
          l.0,
          write_self h c.at (node_of c (put (first b t) j q))
              ∙ ap some (
                  node_of-ext c (put (first b t) j q) (first b (put t j q))
                    (λ i le. sym (first-put b t j q i off))),
          l.2,
          linked,
        );
        frame = λ a apart. write-other h c.at a n (λ e. apart.0 (sym e));
      }

  -- A cell in front that the change does not reach.
  relink_front :
      (h : Heap K V) (c : Cell K V) (b : List (Cell K V)) (t : ℕ → Ptr) (j : ℕ) (q : Ptr)
      (made : Run (Heap K V))
      → Links h (c ∷ b) t
      → any_on j b ≡ true
      → Relinked h b (put t j q) made
      → Relinked h (c ∷ b) (put t j q) made
  relink_front h c b t j q made l on r = record {
    heap = r.heap;
    done = r.done;
    linked = (
      l.0,
      r.frame c.at l.2
          ∙ l.1
          ∙ ap some
              (node_of-ext c (first b t) (first b (put t j q)) (λ i le. first_kept b t j q i on)),
      l.2,
      r.linked,
    );
    frame = λ a apart. r.frame a apart.1;
  }

  pub relink :
      (h : Heap K V) (c : Cell K V) (b : List (Cell K V)) (t : ℕ → Ptr) (j : ℕ) (q : Ptr)
      → Links h (c ∷ b) t
      → any_on j (c ∷ b) ≡ true
      → Relinked h (c ∷ b) (put t j q) (set_forward h (last_at j c.at b) j q)
  relink h c [] t j q l on = relink_here h c [] t j q l (ground arith) refl
  relink h c (e ∷ b) t j q l on = elim (Bool-cases (any_on j (e ∷ b))) [
    | inl more ↦
        relink_front h c (e ∷ b) t j q _ l more
          (rw (last_at_tail j c.at e b more) (relink h e b t j q l.3 more))
    | inr last ↦
        rw (last_at-none j c.at (e ∷ b) last) (relink_here h c (e ∷ b) t j q l (ground arith) last)
  ]
