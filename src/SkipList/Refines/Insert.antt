-- ===== src/SkipList/Refines/Insert.antt =====
-- skipList/include/skipList.h, lines 143 to 185: `insert_element` adds the entry of a new key.
use mathlib.Core.List.{map-append}
use kv_my.Common.{
  ℕ, suc, ◌≤◌, ◌≡◌, refl, ap, arith, ◌∙◌, sym, List, ◌∷◌, ◌++◌, true, false, none, not, inl, inr,
  Bool-cases,
}
use kv_my.SkipList.State.{KeyOrder, SkipList, ok}
use kv_my.SkipList.Operations.{get_random_level, insert_element}
use kv_my.SkipList.Shape.{Cell}
use kv_my.SkipList.Invariant.{
  IsSkipList, below, from, below-append-from, below-Below, is_hit, linked_from, locate_lem,
  matches_lem,
}
use kv_my.SkipList.Entries.{
  entries, entry, is_some, find_entry, add_entry, find_entry-above, All-above,
}
use kv_my.SkipList.Levels.{evens, get_random_level-evens}
use kv_my.SkipList.Insert.{insert_new_lem, new_cell}
use kv_my.SkipList.Refines.Splits.{
  locked-ok, mtx-IsShape, restored, find_entry-from, add_entry-miss, find_entry-split,
  add_entry-split, held, split-IsShape, from-IsSorted, high_from,
}

module _ {K V : Type 0} ⦃order : KeyOrder K⦄ where
  module _ {s : SkipList K V} {header : Cell K V} {cs : List (Cell K V)}
      (is : IsSkipList s header cs) (k : K) where
    -- An insertion of a key that is there changes nothing; a new key comes to its place.
    pub record Inserted (v : V) : Type 0 where
      pub state : SkipList K V
      pub cells : List (Cell K V)
      pub done : insert_element k v s ≡ ok (not (is_some (find_entry k (entries cs))), state)
      pub is_list : IsSkipList state header cells
      pub left : evens s.rands ≤ suc (evens state.rands)
      pub added : entries cells ≡ add_entry k v (entries cs)

    insert_hit : (v : V) → is_hit k (from k cs) ≡ true → Inserted v
    insert_hit v hit =
        let u = locate_lem (held is k) k in
        let there = find_entry-from k v (from k cs) (high_from is k) hit in
        record {
          state = s;
          cells = cs;
          done =
              unfold insert_element in
              locked-ok _ s false (record s { mtx = true }) is.unlocked
                (rw (
                  u.done,
                  matches_lem (record s { mtx = true }) k (from k cs) (linked_from (held is k) k),
                  hit,
                ))
              ∙ ap (λ s'. ok (false, s')) (restored s is.unlocked)
              ∙ rw (find_entry-split k cs, there.0);
          is_list = is;
          left = omega arith;
          added =
              ap (λ ds. entries ds) (below-append-from k cs)
              ∙ map-append entry (below k cs) (from k cs)
              ∙ ap (◌++◌ (entries (below k cs))) (sym there.1)
              ∙ sym (add_entry-split k v cs);
        }

    insert_miss :
        (v : V) {l : ℕ} {rest : List ℕ}
        → get_random_level s.max_level s.rands ≡ ok (l, rest)
        → is_hit k (from k cs) ≡ false
        → Inserted v
    insert_miss v {l} {rest} drawn miss =
        let u = locate_lem (held is k) k in
        let over = All-above k (from k cs) (from-IsSorted is k) (high_from is k) miss in
        let (s', made, shape, mtx, left) =
          insert_new_lem (below k cs) (from k cs) (split-IsShape is k) k v (below-Below k cs) over l
            rest drawn u.update u.before in
        let absent : find_entry k (entries cs) ≡ none =
          find_entry-split k cs ∙ find_entry-above k (from k cs) over in
        record {
          state = record s' { mtx = false };
          cells = below k cs ++ new_cell s.next k v l ∷ from k cs;
          done =
              unfold insert_element in
              locked-ok _ s true s' is.unlocked (
                rw (
                  u.done,
                  matches_lem (record s { mtx = true }) k (from k cs) (linked_from (held is k) k),
                  miss,
                  made,
                ))
              ∙ rw absent;
          is_list = record { shape = mtx-IsShape false shape; unlocked = refl };
          left = omega (arith, get_random_level-evens s.max_level s.rands drawn, ap evens left);
          added =
              map-append entry (below k cs) (new_cell s.next k v l ∷ from k cs)
              ∙ ap (◌++◌ (entries (below k cs)))
                  (sym (add_entry-miss k v (from k cs) (high_from is k) miss))
              ∙ sym (add_entry-split k v cs);
        }

    -- On a well-formed list, when rand() gives a level, insert_element returns, says whether the key
    -- was new, and leaves a well-formed list: its entries are those before, with the key and the
    -- value at their place in the order of the keys if the key was new.
    pub insert_element-refines :
        (v : V) {l : ℕ} {rest : List ℕ}
        → get_random_level s.max_level s.rands ≡ ok (l, rest)
        → Inserted v
    insert_element-refines v drawn = elim (Bool-cases (is_hit k (from k cs))) [
      | inl hit ↦ insert_hit v hit
      | inr miss ↦ insert_miss v drawn miss
    ]
