-- ===== src/SkipList/Splices.antt =====
-- skipList/include/skipList.h, lines 174 to 178 and 285 to 288: a node is linked in at its levels,
-- and out of them.
use kv_my.Common.{
  ℕ, zero, suc, ◌+◌, ◌≤◌, ◌<◌, ◌≡◌, ◌≢◌, refl, ap, ◌∙◌, List, ◌∷◌, true, false, ◌&&◌, some, inl,
  inr, arith, leb, ltb, ◌==◌, if◌then◌else◌, Bool-cases,
}
use kv_my.SkipList.State.{Ptr, null, Heap, Run, ok, write, forward_at, set_forward}
use kv_my.SkipList.Operations.{splice, unlink}
use kv_my.SkipList.Shape.{
  Cell, any_on, last_at, node_of, node_of-ext, Apart, Links, Links-ext, tabulate,
  get_elem?-tabulate, put,
}
use kv_my.SkipList.Relinks.{
  forward_at-node, set_forward-node, write_self, write-other, Links-write, forward_at-last,
  Relinked, relink,
}

-- `q` at the `n` levels from `i`, and what `t` has at the others.
abbrev pub fill : ℕ → ℕ → (ℕ → Ptr) → (ℕ → Ptr) → ℕ → Ptr
fill i n q t l = if leb i l && ltb l (i + n) then q l else t l

module _ {K V : Type 0} where
  -- At the `n` levels from `i`, `u` has the last of the cells.
  abbrev pub Before : ℕ → ℕ → Cell K V → List (Cell K V) → (ℕ → Ptr) → Type 0
  Before i n c b u =
      (j : ℕ) → i ≤ j → j < i + n → (any_on j (c ∷ b) ≡ true) × (u j ≡ last_at j c.at b)

  -- A node apart from the cells is behind them at `n` levels more.
  pub record Spliced (h : Heap K V) (cs : List (Cell K V)) (e : Cell K V) (t f : ℕ → Ptr)
      (made : Run (Heap K V)) : Type 0 where
    pub heap : Heap K V
    pub done : made ≡ ok heap
    pub linked : Links heap cs t
    pub node : heap e.at ≡ some (node_of e f)
    pub frame : (a : Ptr) → e.at ≢ a → Apart a cs → heap a ≡ h a

  splice-round :
      (n i : ℕ) (p : Ptr) (m : ℕ) (u : ℕ → Ptr) (h h' h'' : Heap K V) (before after : Ptr)
      → i < m
      → u i ≡ before
      → forward_at h before i ≡ ok after
      → set_forward h p i after ≡ ok h'
      → set_forward h' before i p ≡ ok h''
      → splice (suc n) i p (tabulate m u) h ≡ splice n (suc i) p (tabulate m u) h''
  unfolding splice
  splice-round n i p m u h h' h'' before after room at read first second =
      rw (get_elem?-tabulate m u i room, at, read, first, second)

  pub splice_lem :
      (n i : ℕ) (c : Cell K V) (b : List (Cell K V)) (e : Cell K V) (t f : ℕ → Ptr) (m : ℕ)
      (u : ℕ → Ptr) (h : Heap K V)
      → Links h (c ∷ b) t
      → null ≢ e.at
      → h e.at ≡ some (node_of e f)
      → Apart e.at (c ∷ b)
      → Before i n c b u
      → i + n ≤ suc e.level
      → i + n ≤ m
      → Spliced h
          (c ∷ b)
          e
          (fill i n (λ l. e.at) t)
          (fill i n t f)
          (splice n i e.at (tabulate m u) h)
  splice_lem zero i c b e t f m u h l ne node apart before high room = record {
    heap = h;
    done = unfold splice in refl;
    linked = Links-ext h (c ∷ b) t (fill i zero (λ l. e.at) t) (λ j on. ground arith) l;
    node = node ∙ ap some (node_of-ext e f (fill i zero t f) (λ j le. ground arith));
    frame = λ a p q. refl;
  }
  splice_lem (suc n) i c b e t f m u h l ne node apart before high room =
      let here = before i (omega arith) (omega arith) in
      let h' = write h e.at (some (node_of e (put f i (t i)))) in
      let l' : Links h' (c ∷ b) t = Links-write h (c ∷ b) t e.at _ apart l in
      let r = relink h' c b t i e.at l' here.0 in
      let node' : r.heap e.at ≡ some (node_of e (put f i (t i))) =
        r.frame e.at apart ∙ write_self h e.at (node_of e (put f i (t i))) in
      let rest =
        splice_lem n (suc i) c b e (put t i e.at) (put f i (t i)) m u r.heap r.linked ne node' apart
          (λ j le lt. before j (omega arith) (omega arith)) (omega arith) (omega arith) in
      record {
        heap = rest.heap;
        done =
            splice-round n i e.at m u h h' r.heap (last_at i c.at b) (t i) (omega arith) here.1
              (forward_at-last h c b t i l here.0)
              (set_forward-node h e f i (t i) ne node (omega arith)) r.done
            ∙ rest.done;
        linked =
            Links-ext rest.heap (c ∷ b) (fill (suc i) n (λ l. e.at) (put t i e.at))
              (fill i (suc n) (λ l. e.at) t) (λ j on. ground arith) rest.linked;
        node =
            rest.node
            ∙ ap some (
                node_of-ext e (fill (suc i) n (put t i e.at) (put f i (t i))) (fill i (suc n) t f)
                  (λ j le. ground arith));
        frame = λ a p q. rest.frame a p q ∙ r.frame a q ∙ write-other h e.at a _ p;
      }

  unlink-round :
      (n i : ℕ) (p : Ptr) (m : ℕ) (u : ℕ → Ptr) (h h' : Heap K V) (before after : Ptr)
      → i < m
      → u i ≡ before
      → forward_at h before i ≡ ok p
      → forward_at h p i ≡ ok after
      → set_forward h before i after ≡ ok h'
      → unlink (suc n) i p (tabulate m u) h ≡ unlink n (suc i) p (tabulate m u) h'
  unfolding unlink
  unlink-round n i p m u h h' before after room at read behind set =
      let self : (p == p) ≡ true = ground arith in
      rw (get_elem?-tabulate m u i room, at, read, self, behind, set)

  unlink-end :
      (n i : ℕ) (p : Ptr) (m : ℕ) (u : ℕ → Ptr) (h : Heap K V) (before after : Ptr)
      → i < m
      → u i ≡ before
      → forward_at h before i ≡ ok after
      → after ≢ p
      → unlink (suc n) i p (tabulate m u) h ≡ ok h
  unfolding unlink
  unlink-end n i p m u h before after room at read ne =
      let off : (after == p) ≡ false = ground arith in
      rw (get_elem?-tabulate m u i room, at, read, off)

  -- The levels of `e` from `i` lead to what is behind it.
  abbrev pub bypass : ℕ → Cell K V → (ℕ → Ptr) → (ℕ → Ptr) → ℕ → Ptr
  bypass i e f t l = if leb i l && leb l e.level then f l else t l

  pub unlink_lem :
      (n i : ℕ) (c : Cell K V) (b : List (Cell K V)) (e : Cell K V) (t f : ℕ → Ptr) (m : ℕ)
      (u : ℕ → Ptr) (h : Heap K V)
      → Links h (c ∷ b) t
      → null ≢ e.at
      → h e.at ≡ some (node_of e f)
      → Apart e.at (c ∷ b)
      → Before i n c b u
      → ((j : ℕ) → i ≤ j → j ≤ e.level → t j ≡ e.at)
      → ((j : ℕ) → e.level < j → t j ≢ e.at)
      → e.level < i + n
      → i ≤ suc e.level
      → i + n ≤ m
      → Relinked h (c ∷ b) (bypass i e f t) (unlink n i e.at (tabulate m u) h)
  unlink_lem zero i c b e t f m u h l ne node apart before on off high low room = record {
    heap = h;
    done = unfold unlink in refl;
    linked = Links-ext h (c ∷ b) t (bypass i e f t) (λ j at. ground arith) l;
    frame = λ a p. refl;
  }
  unlink_lem (suc n) i c b e t f m u h l ne node apart before on off high low room =
      let here = before i (omega arith) (omega arith) in
      let read = forward_at-last h c b t i l here.0 in
      elim (Bool-cases (leb i e.level)) [
        | inl linked ↦
            let le : i ≤ e.level = ground arith in
            let r = relink h c b t i (f i) l here.0 in
            let rest =
              unlink_lem n (suc i) c b e (put t i (f i)) f m u r.heap r.linked ne
                (r.frame e.at apart ∙ node) apart (λ j ge lt. before j (omega arith) (omega arith))
                (λ j ge le. ground (arith, on j)) (λ j lt. ground (arith, off j)) (omega arith)
                (omega arith) (omega arith) in
            record {
              heap = rest.heap;
              done =
                  unlink-round n i e.at m u h r.heap (last_at i c.at b) (f i) (omega arith) here.1
                    (read ∙ ap ok (on i (omega arith) le)) (forward_at-node h e f i ne node le)
                    r.done
                  ∙ rest.done;
              linked =
                  Links-ext rest.heap (c ∷ b) (bypass (suc i) e f (put t i (f i))) (bypass i e f t)
                    (λ j at. ground arith) rest.linked;
              frame = λ a p. rest.frame a p ∙ r.frame a p;
            }
        | inr past ↦ record {
          heap = h;
          done =
              unlink-end n i e.at m u h (last_at i c.at b) (t i) (omega arith) here.1 read
                (off i (ground arith));
          linked = Links-ext h (c ∷ b) t (bypass i e f t) (λ j at. ground arith) l;
          frame = λ a p. refl;
        }
      ]
