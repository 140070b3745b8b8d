-- ===== src/SkipList/Delete.antt =====
-- skipList/include/skipList.h, lines 268 to 298: the rest of `delete_element` on the cells.
use kv_my.Common.{
  ℕ, suc, ◌-◌, ◌≤◌, ◌≡◌, refl, ap, ◌∙◌, List, ◌∷◌, ◌++◌, true, none, arith, All, length-append,
}
use kv_my.SkipList.State.{KeyOrder, Ptr, SkipList, ok, write}
use kv_my.SkipList.Operations.{delete_node, lower}
use kv_my.SkipList.Shape.{Cell, last_at, tabulate, All-append, All-split, All-map}
use kv_my.SkipList.Descents.{Below}
use kv_my.SkipList.Splices.{Before}
use kv_my.SkipList.Invariant.{IsSorted, IsShape}
use kv_my.SkipList.Entries.{IsSorted-append, append-IsSorted}
use kv_my.SkipList.Unlinking.{lower_lem, removed}

module _ {K V : Type 0} ⦃order : KeyOrder K⦄ {s : SkipList K V} {header : Cell K V}
    (b : List (Cell K V)) (d : Cell K V) (ds : List (Cell K V))
    (is : IsShape s header (b ++ d ∷ ds)) (k : K) (under : All (Below k) b)
    (hit : order.eq d.key k ≡ true) where
  delete-IsSorted : IsSorted (b ++ ds)
  delete-IsSorted =
      let parts = IsSorted-append k b (d ∷ ds) is.sorted under in
      let same = (order.eq_iff d.key k).0 hit in
      append-IsSorted k b ds parts.0 under parts.1.1
        λ c lt. All-map _ _ ds (λ e up. order.lt_trans c.key d.key e.key (rw same lt) up) parts.1.0

  delete-Before :
      (u : ℕ → Ptr)
      → ((j : ℕ) → j ≤ s.skip_list_level → u j ≡ last_at j header.at b)
      → Before 0 (suc s.skip_list_level) header b u
  delete-Before u located j ge lt = (ground (arith, is.top, is.within), located j (omega arith))

  -- The node of the key is linked out and deleted.
  pub delete_node_lem :
      (u : ℕ → Ptr)
      → ((j : ℕ) → j ≤ s.skip_list_level → u j ≡ last_at j header.at b)
      → (s' : SkipList K V) × (delete_node (tabulate (suc s.max_level) u) d.at s ≡ ok (tt, s'))
        × IsShape s' header (b ++ ds)
        × (s'.mtx ≡ s.mtx)
        × (s'.rands ≡ s.rands)
  delete_node_lem u located =
      let lows = All-split _ b (d ∷ ds) is.low in
      let places = All-split _ b (d ∷ ds) is.allocated.1 in
      let out =
        removed s.heap header b d ds (suc s.skip_list_level) (suc s.max_level) u is.links
          (delete-Before u located) (omega (arith, lows.1.0)) (omega (arith, is.within)) in
      let down =
        lower_lem out.heap header (b ++ ds) s.skip_list_level out.linked
          (omega (arith, is.top, is.within)) (All-append _ b ds lows.0 lows.1.1) in
      let lowered : lower out.heap s.header s.skip_list_level ≡ ok down.level =
        ap (λ p. lower out.heap p s.skip_list_level) is.at_header ∙ down.done in
      (
        record s {
          skip_list_level = down.level;
          element_count = s.element_count - 1;
          heap = write out.heap d.at none;
        },
        unfold delete_node in rw (out.done, lowered, out.freed),
        record {
          links = out.left;
          at_header = is.at_header;
          top = is.top;
          sorted = delete-IsSorted;
          low = down.low;
          tight = down.tight;
          within = omega (arith, down.le, is.within);
          counted = omega (arith, is.counted, length-append {0} b (d ∷ ds), length-append {0} b ds);
          allocated = (is.allocated.0, All-append _ b ds places.0 places.1.1);
        },
        refl,
        refl,
      )
