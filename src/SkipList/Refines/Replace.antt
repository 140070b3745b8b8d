-- ===== src/SkipList/Refines/Replace.antt =====
-- skipList/include/skipList.h, lines 304 to 310: `insert_set_element` gives a key its value.
use kv_my.Common.{
  ℕ, suc, ◌≤◌, arith, ◌≡◌, ◌≢◌, refl, ap, ◌∙◌, sym, List, [], ◌∷◌, Option, true, some, none, inl,
  inr, arith, Bool-cases, Option-cases,
}
use kv_my.SkipList.State.{KeyOrder, SkipList, ok}
use kv_my.SkipList.Operations.{
  get_random_level, insert_element, search_element, delete_found, insert_set_element,
}
use kv_my.SkipList.Shape.{Cell}
use kv_my.SkipList.Invariant.{IsSkipList}
use kv_my.SkipList.Entries.{
  entries, find_entry, add_entry, remove_entry, set_entry, find-add, find-add_other, find-remove,
  find-remove_other,
}
use kv_my.SkipList.Levels.{evens}
use kv_my.SkipList.Refines.Search.{search_element-refines}
use kv_my.SkipList.Refines.Insert.{insert_element-refines}
use kv_my.SkipList.Refines.Delete.{delete_element-refines}

module _ {K V : Type 0} ⦃order : KeyOrder K⦄ where
  remove_entry-none : (k : K) (ps : List (K × V)) → find_entry k ps ≡ none → remove_entry k ps ≡ ps
  remove_entry-none k [] h = refl
  remove_entry-none k (p ∷ ps) h = elim (Bool-cases (order.eq p.0 k)) [
    | inl hit ↦ absurd (ground arith)
    | inr miss ↦ elim (Bool-cases (order.lt p.0 k)) [
      | inl lt ↦ rw lt (ap (◌∷◌ p) (remove_entry-none k ps (rw miss at h)))
      | inr ge ↦ rw (ge, miss)
    ]
  ]

  module _ {s : SkipList K V} {header : Cell K V} {cs : List (Cell K V)}
      (is : IsSkipList s header cs) (k : K) (v : V) {l : ℕ} {rest : List ℕ}
      (drawn : get_random_level s.max_level s.rands ≡ ok (l, rest)) where
    -- The entry of the key has the new value, whether it was there or not.
    pub record Replaced : Type 0 where
      pub state : SkipList K V
      pub cells : List (Cell K V)
      pub done : insert_set_element k v s ≡ ok (true, state)
      pub is_list : IsSkipList state header cells
      pub left : evens s.rands ≤ suc (evens state.rands)
      pub replaced : entries cells ≡ set_entry k v (entries cs)

    replace_new : find_entry k (entries cs) ≡ none → Replaced
    replace_new absent =
        let r = insert_element-refines is k v drawn in
        let made : insert_element k v s ≡ ok (true, r.state) = r.done ∙ rw absent in
        record {
          state = r.state;
          cells = r.cells;
          done =
              unfold insert_set_element delete_found in
              rw (search_element-refines is k, absent, made);
          is_list = r.is_list;
          left = r.left;
          replaced = r.added ∙ ap (add_entry k v) (sym (remove_entry-none k (entries cs) absent));
        }

    replace_old : (old : V) → find_entry k (entries cs) ≡ some old → Replaced
    replace_old old there =
        let d = delete_element-refines is k in
        let max : d.state.max_level ≡ s.max_level = sym d.is_list.shape.top ∙ is.shape.top in
        let drawn' : get_random_level d.state.max_level d.state.rands ≡ ok (l, rest) =
          rw (max, d.same_rands) drawn in
        let r = insert_element-refines d.is_list k v drawn' in
        let absent : find_entry k (entries d.cells) ≡ none =
          rw d.gone (find-remove k cs is.shape.sorted) in
        let made : insert_element k v d.state ≡ ok (true, r.state) = r.done ∙ rw absent in
        record {
          state = r.state;
          cells = r.cells;
          done =
              unfold insert_set_element delete_found in
              rw (search_element-refines is k, there, d.done, made);
          is_list = r.is_list;
          left = omega (arith, r.left, ap evens d.same_rands);
          replaced = r.added ∙ ap (add_entry k v) d.gone;
        }

    -- On a well-formed list, when rand() gives a level, insert_set_element returns, and the entries of
    -- the well-formed list that it leaves are those before without the one of the key, and with the
    -- key and the value at their place in the order of the keys.
    pub insert_set_element-refines : Replaced
    insert_set_element-refines = elim (Option-cases (find_entry k (entries cs))) [
      | inl absent ↦ replace_new absent
      | inr (old, there) ↦ replace_old old there
    ]

    -- On a well-formed list, when rand() gives a level, insert_set_element returns; a search then
    -- finds the new value of the key, whether the key was there before or not, and for another key
    -- what it found before.
    pub search-insert_set :
        (j : K) (o : Option V)
        → k ≢ j
        → search_element j s ≡ ok (o, s)
        → (s' : SkipList K V) × (insert_set_element k v s ≡ ok (true, s'))
          × (search_element k s' ≡ ok (some v, s'))
          × (search_element j s' ≡ ok (o, s'))
    search-insert_set j o ne before =
        let r = insert_set_element-refines in
        let own : find_entry k (entries r.cells) ≡ some v =
          rw r.replaced
            (find-add k v (remove_entry k (entries cs)) (find-remove k cs is.shape.sorted)) in
        let kept : find_entry j (entries r.cells) ≡ find_entry j (entries cs) =
          ap (find_entry j) r.replaced
          ∙ find-add_other k j v (remove_entry k (entries cs)) ne
          ∙ find-remove_other k j (entries cs) ne in
        let was : find_entry j (entries cs) ≡ o = let same = search_element-refines is j in cc in
        (
          r.state,
          r.done,
          search_element-refines r.is_list k ∙ ap (λ x. ok (x, r.state)) own,
          search_element-refines r.is_list j ∙ ap (λ x. ok (x, r.state)) (kept ∙ was),
        )
