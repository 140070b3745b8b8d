-- ===== src/SkipList/Refines/Splits.antt =====
-- skipList/include/skipList.h: an operation holds the mutex, and splits the cells before its key.
use kv_my.Common.{◌≡◌, refl, ap, ◌∙◌, sym, List, [], ◌∷◌, ◌++◌, Bool, true, false, All}
use kv_my.SkipList.State.{KeyOrder, SkipList, Run, ok, locked}
use kv_my.SkipList.Shape.{Cell}
use kv_my.SkipList.Descents.{NotBelow}
use kv_my.SkipList.Invariant.{
  IsShape, IsSkipList, below, from, below-append-from, below-Below, from-NotBelow, is_hit, IsSorted,
}
use kv_my.SkipList.Entries.{
  entries, is_some, find_entry, add_entry, remove_entry, find_entry-Below, add_entry-Below,
  remove_entry-Below, IsSorted-append,
}

module _ {K V : Type 0} ⦃order : KeyOrder K⦄ where
  -- A body that returns runs under the mutex and gives it back.
  pub locked-ok :
      {A : Type 0} (body : SkipList K V → Run (A × SkipList K V)) (s : SkipList K V) (a : A)
      (s' : SkipList K V)
      → s.mtx ≡ false
      → body (record s { mtx = true }) ≡ ok (a, s')
      → locked body s ≡ ok (a, record s' { mtx = false })
  locked-ok body s a s' free e = unfold locked in rw (free, e)

  pub mtx-IsShape :
      {s : SkipList K V} {header : Cell K V} {cs : List (Cell K V)} (m : Bool)
      → IsShape s header cs
      → IsShape (record s { mtx = m }) header cs
  mtx-IsShape m is = record {
    links = is.links;
    at_header = is.at_header;
    top = is.top;
    sorted = is.sorted;
    low = is.low;
    tight = is.tight;
    within = is.within;
    counted = is.counted;
    allocated = is.allocated;
  }

  pub restored :
      (s : SkipList K V) → s.mtx ≡ false → record (record s { mtx = true }) { mtx = false } ≡ s
  restored s free = ap (λ m. record s { mtx = m }) (sym free)

  pub is_hit-cons :
      (k : K) (ds : List (Cell K V))
      → is_hit k ds ≡ true
      → (d : Cell K V) × (ds' : List (Cell K V)) × (ds ≡ d ∷ ds') × (order.eq d.key k ≡ true)
  is_hit-cons k [] hit = absurd (cc)
  is_hit-cons k (d ∷ ds) hit = (d, ds, refl, hit)

  -- What the cells from a key on make of each operation.
  pub find_entry-from :
      (k : K) (v : V) (ds : List (Cell K V))
      → All (NotBelow k) ds
      → is_hit k ds ≡ true
      → (is_some (find_entry k (entries ds)) ≡ true) × (add_entry k v (entries ds) ≡ entries ds)
  find_entry-from k v [] a hit = absurd (cc)
  find_entry-from k v (d ∷ ds) a hit = (rw hit, rw (a.0, hit))

  pub add_entry-miss :
      (k : K) (v : V) (ds : List (Cell K V))
      → All (NotBelow k) ds
      → is_hit k ds ≡ false
      → add_entry k v (entries ds) ≡ (k, v) ∷ entries ds
  add_entry-miss k v [] a miss = refl
  add_entry-miss k v (d ∷ ds) a miss = rw (a.0, miss)

  pub remove_miss :
      (k : K) (ds : List (Cell K V))
      → All (NotBelow k) ds
      → is_hit k ds ≡ false
      → remove_entry k (entries ds) ≡ entries ds
  remove_miss k [] a miss = refl
  remove_miss k (d ∷ ds) a miss = rw (a.0, miss)

  -- The value that a list has for a key is that of the cells from the key on.
  pub find_entry-split :
      (k : K) (cs : List (Cell K V))
      → find_entry k (entries cs) ≡ find_entry k (entries (from k cs))
  find_entry-split k cs =
      ap (λ ds. find_entry k (entries ds)) (below-append-from k cs)
      ∙ find_entry-Below k (below k cs) (from k cs) (below-Below k cs)

  pub add_entry-split :
      (k : K) (v : V) (cs : List (Cell K V))
      → add_entry k v (entries cs) ≡ entries (below k cs) ++ add_entry k v (entries (from k cs))
  add_entry-split k v cs =
      ap (λ ds. add_entry k v (entries ds)) (below-append-from k cs)
      ∙ add_entry-Below k v (below k cs) (from k cs) (below-Below k cs)

  pub remove_entry-split :
      (k : K) (cs : List (Cell K V))
      → remove_entry k (entries cs) ≡ entries (below k cs) ++ remove_entry k (entries (from k cs))
  remove_entry-split k cs =
      ap (λ ds. remove_entry k (entries ds)) (below-append-from k cs)
      ∙ remove_entry-Below k (below k cs) (from k cs) (below-Below k cs)

  module _ {s : SkipList K V} {header : Cell K V} {cs : List (Cell K V)}
      (is : IsSkipList s header cs) (k : K) where
    pub held : IsShape (record s { mtx = true }) header cs
    held = mtx-IsShape true is.shape

    -- The cells, split before the key.
    pub split-IsShape : IsShape (record s { mtx = true }) header (below k cs ++ from k cs)
    split-IsShape = let e = below-append-from k cs in rw (← e) held

    pub from-IsSorted : IsSorted (from k cs)
    from-IsSorted =
        (IsSorted-append k (below k cs) (from k cs) split-IsShape.sorted (below-Below k cs)).1

    pub high_from : All (NotBelow k) (from k cs)
    high_from = from-NotBelow k cs is.shape.sorted
