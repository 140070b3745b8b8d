-- ===== src/SkipList/Refines/Search.antt =====
-- skipList/include/skipList.h, lines 312 to 331: `search_element` finds the entry of a key.
use kv_my.Common.{◌≡◌, ap, ◌∙◌, sym, List, [], ◌∷◌, true, inl, inr, All, Bool-cases}
use kv_my.SkipList.State.{KeyOrder, SkipList, ok, ◌>>=◌}
use kv_my.SkipList.Operations.{matches, search_element, found_value}
use kv_my.SkipList.Shape.{Cell, node_of, first, Links}
use kv_my.SkipList.Walks.{load-some}
use kv_my.SkipList.Descents.{NotBelow}
use kv_my.SkipList.Invariant.{
  nowhere, IsSkipList, from, next_at, linked_from, find_at, read_next, IsSorted, matches_lem,
  at_zero,
}
use kv_my.SkipList.Entries.{entries, find_entry, find_entry-above, All-above}
use kv_my.SkipList.Refines.Splits.{
  locked-ok, restored, find_entry-split, held, from-IsSorted, high_from,
}

module _ {K V : Type 0} ⦃order : KeyOrder K⦄ where
  search_tail :
      (s : SkipList K V) (k : K) (ds : List (Cell K V))
      → Links s.heap ds nowhere
      → IsSorted ds
      → All (NotBelow k) ds
      → (matches s.heap k (next_at ds) >>= λ found. found_value found (next_at ds) s)
        ≡ ok (find_entry k (entries ds), s)
  unfolding found_value
  search_tail s k [] l sorted a = rw (matches_lem s k [] l)
  search_tail s k (d ∷ ds) l sorted a = elim (Bool-cases (order.eq d.key k)) [
    | inl hit ↦ rw (
      matches_lem s k (d ∷ ds) l,
      hit,
      at_zero d,
      load-some s.heap d.at (node_of d (first ds nowhere)) l.0 l.1,
    )
    | inr miss ↦
        let none_there = find_entry-above k (d ∷ ds) (All-above k (d ∷ ds) sorted a miss) in
        rw (matches_lem s k (d ∷ ds) l, miss) (ap (λ o. ok (o, s)) (sym (rw miss at none_there)))
  ]

  module _ {s : SkipList K V} {header : Cell K V} {cs : List (Cell K V)}
      (is : IsSkipList s header cs) (k : K) where
    -- On a well-formed list search_element returns the value of the key's entry, or nothing where there
    -- is none, and changes nothing.
    pub search_element-refines : search_element k s ≡ ok (find_entry k (entries cs), s)
    search_element-refines =
        unfold search_element in
        locked-ok _ s (find_entry k (entries cs)) (record s { mtx = true }) is.unlocked
          (rw (find_at (held is k) k, read_next (held is k) k, find_entry-split k cs)
            (search_tail (record s { mtx = true }) k (from k cs) (linked_from (held is k) k)
              (from-IsSorted is k) (high_from is k)))
        ∙ ap (λ s'. ok (find_entry k (entries cs), s')) (restored s is.unlocked)
