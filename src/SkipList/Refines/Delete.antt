-- ===== src/SkipList/Refines/Delete.antt =====
-- skipList/include/skipList.h, lines 268 to 298: `delete_element` removes the entry of a key.
use mathlib.Core.List.{map-append}
use kv_my.Common.{◌≡◌, refl, ap, ◌∙◌, sym, List, ◌∷◌, ◌++◌, true, false, inl, inr, Bool-cases}
use kv_my.SkipList.State.{KeyOrder, SkipList, ok}
use kv_my.SkipList.Operations.{delete_element}
use kv_my.SkipList.Shape.{Cell}
use kv_my.SkipList.Invariant.{
  IsShape, IsSkipList, below, from, below-append-from, below-Below, is_hit, next_at, linked_from,
  locate_lem, matches_lem, at_zero,
}
use kv_my.SkipList.Entries.{entries, entry, remove_entry}
use kv_my.SkipList.Delete.{delete_node_lem}
use kv_my.SkipList.Refines.Splits.{
  locked-ok, mtx-IsShape, restored, is_hit-cons, remove_miss, remove_entry-split, held,
  split-IsShape, high_from,
}

module _ {K V : Type 0} ⦃order : KeyOrder K⦄ where
  module _ {s : SkipList K V} {header : Cell K V} {cs : List (Cell K V)}
      (is : IsSkipList s header cs) (k : K) where
    pub record Deleted : Type 0 where
      pub state : SkipList K V
      pub cells : List (Cell K V)
      pub done : delete_element k s ≡ ok (tt, state)
      pub is_list : IsSkipList state header cells
      pub gone : entries cells ≡ remove_entry k (entries cs)
      pub same_rands : state.rands ≡ s.rands

    delete_hit :
        (d : Cell K V) (ds : List (Cell K V))
        → from k cs ≡ d ∷ ds
        → order.eq d.key k ≡ true
        → Deleted
    delete_hit d ds e hit =
        let u = locate_lem (held is k) k in
        let shape : IsShape (record s { mtx = true }) header (below k cs ++ d ∷ ds) =
          rw (← e) (split-IsShape is k) in
        let (s', made, shape', mtx, rands) =
          delete_node_lem (below k cs) d ds shape k (below-Below k cs) hit u.update u.before in
        let found : is_hit k (from k cs) ≡ true = rw e hit in
        let here : next_at (from k cs) ≡ d.at = rw (e, at_zero d) in
        let ge : order.lt d.key k ≡ false = let a = (high_from is k) in (rw e at a).0 in
        record {
          state = record s' { mtx = false };
          cells = below k cs ++ ds;
          done =
              unfold delete_element in
              locked-ok _ s tt s' is.unlocked (
                rw (
                  u.done,
                  matches_lem (record s { mtx = true }) k (from k cs) (linked_from (held is k) k),
                  found,
                  here,
                  made,
                ));
          is_list = record { shape = mtx-IsShape false shape'; unlocked = refl };
          gone =
              map-append entry (below k cs) ds
              ∙ ap (◌++◌ (entries (below k cs))) (rw (e, ge, hit))
              ∙ sym (remove_entry-split k cs);
          same_rands = rands;
        }

    delete_miss : is_hit k (from k cs) ≡ false → Deleted
    delete_miss miss =
        let u = locate_lem (held is k) k in
        let found =
          matches_lem (record s { mtx = true }) k (from k cs) (linked_from (held is k) k) in
        record {
          state = s;
          cells = cs;
          done =
              unfold delete_element in
              locked-ok _ s tt (record s { mtx = true }) is.unlocked (rw (u.done, found, miss))
              ∙ ap (λ s'. ok (tt, s')) (restored s is.unlocked);
          is_list = is;
          gone =
              ap (λ ds. entries ds) (below-append-from k cs)
              ∙ map-append entry (below k cs) (from k cs)
              ∙ ap (◌++◌ (entries (below k cs)))
                  (sym (remove_miss k (from k cs) (high_from is k) miss))
              ∙ sym (remove_entry-split k cs);
          same_rands = refl;
        }

    -- On a well-formed list delete_element returns and leaves a well-formed list, whose entries are
    -- those before without the one of the key.
    pub delete_element-refines : Deleted
    delete_element-refines = elim (Bool-cases (is_hit k (from k cs))) [
      | inl hit ↦ let (d, ds, e, same) = is_hit-cons k (from k cs) hit in delete_hit d ds e same
      | inr miss ↦ delete_miss miss
    ]
