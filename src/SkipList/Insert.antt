-- ===== src/SkipList/Insert.antt =====
-- skipList/include/skipList.h, lines 143 to 185: `insert_element` on the cells.
use kv_my.Common.{
  ℕ, suc, ◌-◌, ◌≤◌, ◌<◌, ◌≡◌, refl, List, ◌∷◌, ◌++◌, true, inl, inr, arith, All, length-append, ltb,
  if◌then◌else◌, Bool-cases,
}
use kv_my.SkipList.State.{KeyOrder, Ptr, SkipList, ok}
use kv_my.SkipList.Operations.{raise, get_random_level, insert_new}
use kv_my.SkipList.Levels.{get_random_level_bounds}
use kv_my.SkipList.Shape.{
  Cell, any_on, last_at, last_at-none, Apart, Links-split, tabulate, All-append, All-split, All-map,
}
use kv_my.SkipList.Descents.{Below}
use kv_my.SkipList.Splices.{fill, Before}
use kv_my.SkipList.Invariant.{nowhere, IsSorted, IsShape}
use kv_my.SkipList.Entries.{IsSorted-append, append-IsSorted}
use kv_my.SkipList.Linking.{raise_lem, linked_in, any_on-none, any_on-insert, any_on-here}

-- The cell of a key that is new.
abbrev pub new_cell : {K V : Type 0} → Ptr → K → V → ℕ → Cell K V
new_cell p k v l = record { at = p; key = k; value = v; level = l }

module _ {K V : Type 0} ⦃order : KeyOrder K⦄ {s : SkipList K V} {header : Cell K V}
    (b ds : List (Cell K V)) (is : IsShape s header (b ++ ds)) (k : K) (v : V)
    (under : All (Below k) b) (over : All (λ d. order.lt k d.key ≡ true) ds) (l : ℕ) (rest : List ℕ)
    (drawn : get_random_level s.max_level s.rands ≡ ok (l, rest)) where
  insert-IsSorted : IsSorted (b ++ new_cell s.next k v l ∷ ds)
  insert-IsSorted =
      let parts = IsSorted-append k b ds is.sorted under in
      append-IsSorted k b (new_cell s.next k v l ∷ ds) parts.0 under (over, parts.1)
        λ c lt. (lt, All-map _ _ ds (λ d up. order.lt_trans c.key k d.key lt up) over)

  low_in :
      All
        (λ c. c.level ≤ (if ltb s.skip_list_level l then l else s.skip_list_level))
        (b ++ new_cell s.next k v l ∷ ds)
  low_in =
      let parts = All-split _ b ds is.low in
      All-append _ b (new_cell s.next k v l ∷ ds) (All-map _ _ b (λ c le. ground arith) parts.0)
        (ground arith, All-map _ _ ds (λ c le. ground arith) parts.1)

  tight_in :
      0 < (if ltb s.skip_list_level l then l else s.skip_list_level)
      → any_on
          (if ltb s.skip_list_level l then l else s.skip_list_level)
          (b ++ new_cell s.next k v l ∷ ds)
        ≡ true
  tight_in pos = elim (Bool-cases (ltb s.skip_list_level l)) [
    | inl up ↦ rw up (any_on-here l b ds (new_cell s.next k v l) (omega arith))
    | inr same ↦
        rw same
          (any_on-insert s.skip_list_level b ds (new_cell s.next k v l) (is.tight (rw same at pos)))
  ]

  allocated_in : All (λ c. c.at < suc s.next) (header ∷ (b ++ new_cell s.next k v l ∷ ds))
  allocated_in =
      let parts = All-split _ b ds is.allocated.1 in
      (
        omega (arith, is.allocated.0),
        All-append _ b (new_cell s.next k v l ∷ ds) (All-map _ _ b (λ c lt. omega arith) parts.0)
            (omega arith, All-map _ _ ds (λ c lt. omega arith) parts.1),
      )

  insert-Before :
      (u : ℕ → Ptr)
      → ((j : ℕ) → j ≤ s.skip_list_level → u j ≡ last_at j header.at b)
      → Before 0
          (suc l)
          header
          b
          (fill (suc s.skip_list_level) (l - s.skip_list_level) (λ i. header.at) u)
  insert-Before u located j ge lt =
      let le = (get_random_level_bounds s.max_level s.rands drawn).0 in (ground (arith, is.top), at)
    where
      at :
          fill (suc s.skip_list_level) (l - s.skip_list_level) (λ i. header.at) u j
          ≡ last_at j header.at b
      at = elim (Bool-cases (ltb s.skip_list_level j)) [
        | inl up ↦ ground (
          arith,
          last_at-none j header.at b
              (any_on-none s.skip_list_level j b (All-split _ b ds is.low).0 (ground arith)),
        )
        | inr down ↦ ground (arith, located j)
      ]

  next-Apart : (cs : List (Cell K V)) → All (λ c. c.at < s.next) cs → Apart s.next cs
  next-Apart cs = All-map _ _ cs (λ c lt e. ground arith)

  -- The key is not there: its cell is linked in.
  pub insert_new_lem :
      (u : ℕ → Ptr)
      → ((j : ℕ) → j ≤ s.skip_list_level → u j ≡ last_at j header.at b)
      → (s' : SkipList K V) × (insert_new (tabulate (suc s.max_level) u) k v s ≡ ok (true, s'))
        × IsShape s' header (b ++ new_cell s.next k v l ∷ ds)
        × (s'.mtx ≡ s.mtx)
        × (s'.rands ≡ rest)
  insert_new_lem u located =
      let le = (get_random_level_bounds s.max_level s.rands drawn).0 in
      let u' = fill (suc s.skip_list_level) (l - s.skip_list_level) (λ i. header.at) u in
      let parts = Links-split s.heap (header ∷ b) ds nowhere is.links in
      let places = All-split _ b ds is.allocated.1 in
      let (h', spliced, links) =
        linked_in s.heap header b ds (new_cell s.next k v l) (suc s.max_level) u' parts.0 parts.1
          parts.2 (next-Apart (header ∷ b) (is.allocated.0, places.0)) (next-Apart ds places.1)
          (λ e. ground (arith, is.allocated.0)) (insert-Before u located) (omega arith) in
      let raised : raise (l - s.skip_list_level) (suc s.skip_list_level) s.header
            (tabulate (suc s.max_level) u)
          ≡ ok (tabulate (suc s.max_level) u') =
        rw is.at_header (
          raise_lem (l - s.skip_list_level) (suc s.skip_list_level) header.at (suc s.max_level) u
            (omega (arith, is.within))) in
      (
        record s {
          skip_list_level = (if ltb s.skip_list_level l then l else s.skip_list_level);
          element_count = suc s.element_count;
          heap = h';
          next = suc s.next;
          rands = rest;
        },
        unfold insert_new in rw (drawn, raised, spliced),
        record {
          links = links;
          at_header = is.at_header;
          top = is.top;
          sorted = insert-IsSorted;
          low = low_in;
          tight = tight_in;
          within = ground (arith, is.within);
          counted = omega (
            arith,
            is.counted,
            length-append {0} b ds,
            length-append {0} b (new_cell s.next k v l ∷ ds),
          );
          allocated = allocated_in;
        },
        refl,
        refl,
      )
