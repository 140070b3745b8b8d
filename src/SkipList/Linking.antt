-- ===== src/SkipList/Linking.antt =====
-- skipList/include/skipList.h, lines 166 to 178: a new node among the cells.
use kv_my.Common.{
  ℕ, zero, suc, ◌+◌, ◌≤◌, ◌<◌, ◌≡◌, ◌≢◌, refl, ap, ◌∙◌, sym, List, [], ◌∷◌, ◌++◌, true, false, some,
  arith, All,
}
use kv_my.SkipList.State.{Ptr, null, Heap, ok, write, create_node}
use kv_my.SkipList.Operations.{raise, splice}
use kv_my.SkipList.Shape.{
  Cell, first, any_on, node_of, Apart, Links, Links-append, Links-ext, Links-frame, tabulate, put,
  tabulate-ext, assign-tabulate, replicate-tabulate, All-map,
}
use kv_my.SkipList.Relinks.{write_self, Links-write}
use kv_my.SkipList.Splices.{fill, Before, splice_lem}
use kv_my.SkipList.Invariant.{nowhere}

pub raise_lem :
    (n i : ℕ) (p : Ptr) (m : ℕ) (u : ℕ → Ptr)
    → i + n ≤ m
    → raise n i p (tabulate m u) ≡ ok (tabulate m (fill i n (λ l. p) u))
raise_lem zero i p m u le =
    unfold raise in ap ok (tabulate-ext m u (fill i zero (λ l. p) u) (λ j lt. ground arith))
raise_lem (suc n) i p m u le =
    raise-round n i p m u (omega arith)
    ∙ raise_lem n (suc i) p m (put u i p) (omega arith)
    ∙ ap ok (
        tabulate-ext m (fill (suc i) n (λ l. p) (put u i p)) (fill i (suc n) (λ l. p) u)
          (λ j lt. ground arith))
  where
    raise-round :
        (n i : ℕ) (p : Ptr) (m : ℕ) (u : ℕ → Ptr)
        → i < m
        → raise (suc n) i p (tabulate m u) ≡ raise n (suc i) p (tabulate m (put u i p))
    raise-round n i p m u lt = unfold raise in rw (assign-tabulate m u i p lt)

module _ {K V : Type 0} where
  -- To be apart is mutual.
  pub All-swap :
      (cs ds : List (Cell K V)) → All (λ c. Apart c.at ds) cs → All (λ d. Apart d.at cs) ds
  All-swap cs [] a = tt
  All-swap cs (d ∷ ds) a = (
    All-map _ _ cs (λ c apart e. apart.0 (sym e)) a,
    All-swap cs ds (All-map _ _ cs (λ c apart. apart.1) a),
  )

  pub any_on-none :
      (i j : ℕ) (cs : List (Cell K V)) → All (λ c. c.level ≤ i) cs → i < j → any_on j cs ≡ false
  any_on-none i j [] a lt = refl
  any_on-none i j (c ∷ cs) a lt = ground (arith, any_on-none i j cs a.1 lt)

  pub any_on-insert :
      (i : ℕ) (b ds : List (Cell K V)) (e : Cell K V)
      → any_on i (b ++ ds) ≡ true
      → any_on i (b ++ e ∷ ds) ≡ true
  any_on-insert i [] ds e on = ground arith
  any_on-insert i (c ∷ b) ds e on = ground (arith, any_on-insert i b ds e)

  pub any_on-here :
      (i : ℕ) (b ds : List (Cell K V)) (e : Cell K V) → i ≤ e.level → any_on i (b ++ e ∷ ds) ≡ true
  any_on-here i [] ds e le = ground arith
  any_on-here i (c ∷ b) ds e le = ground (arith, any_on-here i b ds e le)

  -- A node that `new` gives is linked in behind the cells before its key.
  pub linked_in :
      (h : Heap K V) (header : Cell K V) (b ds : List (Cell K V)) (e : Cell K V) (m : ℕ)
      (u : ℕ → Ptr)
      → Links h (header ∷ b) (first ds nowhere)
      → Links h ds nowhere
      → All (λ c. Apart c.at ds) (header ∷ b)
      → Apart e.at (header ∷ b)
      → Apart e.at ds
      → null ≢ e.at
      → Before 0 (suc e.level) header b u
      → suc e.level ≤ m
      → (h' : Heap K V) × (splice
            (suc e.level)
            0
            e.at
            (tabulate m u)
            (write h e.at (some (create_node e.key e.value e.level)))
          ≡ ok h')
        × Links h' (header ∷ (b ++ e ∷ ds)) nowhere
  linked_in h header b ds e m u l k apart front back ne before room =
      let n = some (create_node e.key e.value e.level) in
      let h1 = write h e.at n in
      let fresh : h1 e.at ≡ some (node_of e nowhere) =
        write_self h e.at (create_node e.key e.value e.level) ∙ zeroed in
      let r =
        splice_lem (suc e.level) 0 header b e (first ds nowhere) nowhere m u h1
          (Links-write h (header ∷ b) (first ds nowhere) e.at n front l) ne fresh front before
          (omega arith) (omega arith) in
      let l' : Links r.heap (header ∷ b) (first (e ∷ ds) nowhere) =
        Links-ext r.heap (header ∷ b) (fill 0 (suc e.level) (λ l. e.at) (first ds nowhere))
          (first (e ∷ ds) nowhere) (λ i on. ground arith) r.linked in
      let k' : Links r.heap ds nowhere =
        Links-frame h1 r.heap ds nowhere
          (spared r.heap h1 r.frame ds back (All-swap (header ∷ b) ds apart))
          (Links-write h ds nowhere e.at n back k) in
      let node : r.heap e.at ≡ some (node_of e (first ds nowhere)) = r.node ∙ here in
      (
        r.heap,
        r.done,
        Links-append r.heap (header ∷ b) (e ∷ ds) nowhere l' (ne, node, back, k')
            (All-both (header ∷ b) front apart),
      )
    where
      zeroed : some (create_node e.key e.value e.level) ≡ some (node_of e nowhere)
      zeroed = unfold create_node in rw (replicate-tabulate (suc e.level))

      here :
          some (node_of e (fill 0 (suc e.level) (first ds nowhere) nowhere))
          ≡ some (node_of e (first ds nowhere))
      here =
          ap
            (λ f. some (record { key = e.key; value = e.value; node_level = e.level; forward = f }))
            (tabulate-ext (suc e.level) (fill 0 (suc e.level) (first ds nowhere) nowhere)
              (first ds nowhere) (λ i lt. ground arith))

      spared :
          (g h1 : Heap K V)
          → ((a : Ptr) → e.at ≢ a → Apart a (header ∷ b) → g a ≡ h1 a)
          → (ds : List (Cell K V)) → Apart e.at ds
          → All (λ d. Apart d.at (header ∷ b)) ds
          → All (λ d. g d.at ≡ h1 d.at) ds
      spared g h1 frame [] p q = tt
      spared g h1 frame (d ∷ ds) p q = (frame d.at p.0 q.0, spared g h1 frame ds p.1 q.1)

      All-both :
          (cs : List (Cell K V))
          → Apart e.at cs
          → All (λ c. Apart c.at ds) cs
          → All (λ c. Apart c.at (e ∷ ds)) cs
      All-both [] p q = tt
      All-both (c ∷ cs) p q = ((λ x. p.0 (sym x), q.0), All-both cs p.1 q.1)
