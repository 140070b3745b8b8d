-- ===== src/SkipList/Invariant.antt =====
-- skipList/include/skipList.h: when the fields of a SkipList and its nodes fit the cells, and where
-- a search for a key ends.
use kv_my.Common.{
  ℕ, suc, ◌≤◌, ◌<◌, ◌≡◌, refl, ap, ◌∙◌, List, [], ◌∷◌, ◌++◌, Bool, true, false, inl, inr, arith,
  All, length, length-append, leb, if◌then◌else◌, Bool-cases,
}
use kv_my.SkipList.State.{KeyOrder, Ptr, null, SkipList, ok, forward_at}
use kv_my.SkipList.Operations.{matches, descend, locate, ahead, find}
use kv_my.SkipList.Shape.{
  Cell, first, any_on, last_at, Links, Links-split, tabulate, replicate-tabulate, All-map,
}
use kv_my.SkipList.Descents.{Below, NotBelow, ahead-stop, matches-Links, descend_lem, find_lem}
use kv_my.SkipList.Relinks.{forward_at-last}

abbrev pub nowhere : ℕ → Ptr
nowhere i = null

not-below :
    {K : Type 0} ⦃order : KeyOrder K⦄ (a b k : K)
    → order.lt a k ≡ false
    → order.lt a b ≡ true
    → order.lt b k ≡ false
not-below ⦃order⦄ a b k ge lt = elim (Bool-cases (order.lt b k)) [
  | inl less ↦ let both = order.lt_trans a b k lt less in absurd (ground arith)
  | inr more ↦ more
]

module _ {K V : Type 0} ⦃order : KeyOrder K⦄ where
  -- The keys grow along level 0.
  abbrev pub IsSorted : List (Cell K V) → Type 0
  IsSorted [] = Unit {0}
  IsSorted (c ∷ cs) = All (λ d. order.lt c.key d.key ≡ true) cs × IsSorted cs

  -- `header` is the header's cell and `cs` are the elements in order.
  pub record IsShape (s : SkipList K V) (header : Cell K V) (cs : List (Cell K V)) : Type 0 where
    pub links : Links s.heap (header ∷ cs) nowhere
    pub at_header : s.header ≡ header.at
    pub top : header.level ≡ s.max_level
    pub sorted : IsSorted cs
    pub low : All (λ c. c.level ≤ s.skip_list_level) cs
    pub tight : 0 < s.skip_list_level → any_on s.skip_list_level cs ≡ true
    pub within : s.skip_list_level ≤ s.max_level
    pub counted : s.element_count ≡ length cs
    pub allocated : All (λ c. c.at < s.next) (header ∷ cs)

  -- So it is between two calls, when nobody holds the mutex.
  pub record IsSkipList (s : SkipList K V) (header : Cell K V) (cs : List (Cell K V)) : Type 0 where
    pub shape : IsShape s header cs
    pub unlocked : s.mtx ≡ false

  -- The cells before a key, and those from it on.
  abbrev pub below : K → List (Cell K V) → List (Cell K V)
  below k [] = []
  below k (c ∷ cs) = if order.lt c.key k then c ∷ below k cs else []

  abbrev pub from : K → List (Cell K V) → List (Cell K V)
  from k [] = []
  from k (c ∷ cs) = if order.lt c.key k then from k cs else c ∷ cs

  pub below-append-from : (k : K) (cs : List (Cell K V)) → cs ≡ below k cs ++ from k cs
  below-append-from k [] = refl
  below-append-from k (c ∷ cs) = elim (Bool-cases (order.lt c.key k)) [
    | inl lt ↦ rw lt (ap (◌∷◌ c) (below-append-from k cs))
    | inr ge ↦ rw ge
  ]

  pub below-Below : (k : K) (cs : List (Cell K V)) → All (Below k) (below k cs)
  below-Below k [] = tt
  below-Below k (c ∷ cs) = elim (Bool-cases (order.lt c.key k)) [
    | inl lt ↦ rw lt (lt, below-Below k cs)
    | inr ge ↦ rw ge tt
  ]

  pub from-NotBelow : (k : K) (cs : List (Cell K V)) → IsSorted cs → All (NotBelow k) (from k cs)
  from-NotBelow k [] s = tt
  from-NotBelow k (c ∷ cs) s = elim (Bool-cases (order.lt c.key k)) [
    | inl lt ↦ rw lt (from-NotBelow k cs s.1)
    | inr ge ↦ rw ge (ge, All-map _ _ cs (λ d lt. not-below c.key d.key k ge lt) s.0)
  ]

  length-below : (k : K) (cs : List (Cell K V)) → length (below k cs) ≤ length cs
  length-below k cs =
      omega (arith, ap length (below-append-from k cs), length-append (below k cs) (from k cs))

  -- The node that a search for a key ends before.
  abbrev pub next_at : List (Cell K V) → Ptr
  next_at cs = first cs nowhere 0

  -- Whether it is the node of the key.
  abbrev pub is_hit : K → List (Cell K V) → Bool
  is_hit k [] = false
  is_hit k (c ∷ cs) = order.eq c.key k

  pub at_zero : (c : Cell K V) → leb 0 c.level ≡ true
  at_zero c = ground arith

  module _ {s : SkipList K V} {header : Cell K V} {cs : List (Cell K V)} (is : IsShape s header cs)
      (k : K) where
    -- The nodes before the key lead to those from it on.
    pub linked_below : Links s.heap (header ∷ below k cs) (first (from k cs) nowhere)
    linked_below =
        (Links-split s.heap (header ∷ below k cs) (from k cs) nowhere
          (let e = below-append-from k cs in rw (← e) is.links)).0

    pub linked_from : Links s.heap (from k cs) nowhere
    linked_from =
        (Links-split s.heap (header ∷ below k cs) (from k cs) nowhere
          (let e = below-append-from k cs in rw (← e) is.links)).1

    stops : (i : ℕ) → ahead s.heap k (first (from k cs) nowhere i) ≡ ok false
    stops i = ahead-stop s.heap k (from k cs) i linked_from (from-NotBelow k cs is.sorted)

    fuel : length (below k cs) < suc s.element_count
    fuel = omega (arith, length-below k cs, is.counted)

    -- The pointer that the search reads last.
    pub read_next :
        forward_at s.heap (last_at 0 header.at (below k cs)) 0 ≡ ok (next_at (from k cs))
    read_next =
        forward_at-last s.heap header (below k cs) (first (from k cs) nowhere) 0 linked_below
          (rw (at_zero header))

    -- Every level has in `update` the last cell before the key.
    pub record Located : Type 0 where
      pub update : ℕ → Ptr
      pub done : locate s k ≡ ok (tabulate (suc s.max_level) update, next_at (from k cs))
      pub before : (j : ℕ) → j ≤ s.skip_list_level → update j ≡ last_at j header.at (below k cs)

    pub locate_lem : Located
    locate_lem =
        let d =
          descend_lem (suc s.element_count) s.heap k (suc s.skip_list_level) header (below k cs)
            (first (from k cs) nowhere) (suc s.max_level) nowhere linked_below (below-Below k cs)
            stops fuel (omega (arith, is.top, is.within)) (omega (arith, is.within)) in
        record {
          update = d.0;
          done = located (tabulate (suc s.max_level) d.0) d.1;
          before = λ j le. d.2 j ∙ ground arith;
        }
      where
        located :
            (u : List Ptr)
            → descend
                (suc s.element_count)
                s.heap
                k
                (suc s.skip_list_level)
                header.at
                (tabulate (suc s.max_level) nowhere)
              ≡ ok (last_at 0 header.at (below k cs), u)
            → locate s k ≡ ok (u, next_at (from k cs))
        located u e =
            unfold locate in rw (is.at_header, replicate-tabulate (suc s.max_level), e, read_next)

    pub find_at :
        find (suc s.element_count) s.heap k (suc s.skip_list_level) s.header
        ≡ ok (last_at 0 header.at (below k cs))
    find_at =
        ap (find (suc s.element_count) s.heap k (suc s.skip_list_level)) is.at_header
        ∙ find_lem (suc s.element_count) s.heap k (suc s.skip_list_level) header (below k cs)
            (first (from k cs) nowhere) linked_below (below-Below k cs) stops fuel
            (omega (arith, is.top, is.within))

  pub matches_lem :
      (s : SkipList K V) (k : K) (ds : List (Cell K V))
      → Links s.heap ds nowhere
      → matches s.heap k (next_at ds) ≡ ok (is_hit k ds)
  matches_lem s k [] l = unfold matches in refl
  matches_lem s k (d ∷ ds) l = rw (at_zero d) (matches-Links s.heap k d ds nowhere l)
