-- ===== src/SkipList/Traces.antt =====
-- skipList/include/skipList.h: calls one after the other, on a skip list and on a sorted list.
use kv_my.Common.{
  ℕ, suc, ◌+◌, ◌≤◌, ◌≡◌, refl, ap, ◌∙◌, sym, List, [], ◌∷◌, Option, Bool, true, not, arith, length,
}
use kv_my.SkipList.State.{KeyOrder, SkipList, Run, ok, ◌>>=◌}
use kv_my.SkipList.Operations.{
  size, insert_element, delete_element, search_element, insert_set_element,
}
use kv_my.SkipList.Shape.{Cell}
use kv_my.SkipList.Invariant.{IsSkipList}
use kv_my.SkipList.Entries.{entries, is_some, find_entry, add_entry, remove_entry, set_entry}
use kv_my.SkipList.Levels.{evens, HasEven-evens, get_random_level-total}
use kv_my.SkipList.Refines.{
  search_element-refines, insert_element-refines, delete_element-refines,
  insert_set_element-refines,
}

-- A call of a skip list from outside.
pub data Call (K V : Type 0) : Type 0 where
  search_call : K → Call K V
  insert_call : K → V → Call K V
  insert_set_call : K → V → Call K V
  delete_call : K → Call K V
  size_call : Call K V

pub data Answer (V : Type 0) : Type 0 where
  found : Option V → Answer V
  inserted : Bool → Answer V
  deleted : Answer V
  counted : ℕ → Answer V

module _ {K V : Type 0} ⦃order : KeyOrder K⦄ where
  unfoldable pub call : Call K V → SkipList K V → Run (Answer V × SkipList K V)
  call (search_call k) s = do (o, s') ← search_element k s; ok (found o, s')
  call (insert_call k v) s = do (fresh, s') ← insert_element k v s; ok (inserted fresh, s')
  call (insert_set_call k v) s = do (fresh, s') ← insert_set_element k v s; ok (inserted fresh, s')
  call (delete_call k) s = do (done, s') ← delete_element k s; ok (deleted, s')
  call size_call s = ok (counted (size s), s)

  unfoldable pub call_all : List (Call K V) → SkipList K V → Run (List (Answer V) × SkipList K V)
  call_all [] s = ok ([], s)
  call_all (c ∷ cs) s = do
    (a, s') ← call c s
    (answers, s'') ← call_all cs s'
    ok (a ∷ answers, s'')

  -- The same calls of a sorted list.
  abbrev pub answer : Call K V → List (K × V) → Answer V
  answer (search_call k) ps = found (find_entry k ps)
  answer (insert_call k v) ps = inserted (not (is_some (find_entry k ps)))
  answer (insert_set_call k v) ps = inserted true
  answer (delete_call k) ps = deleted
  answer size_call ps = counted (length ps)

  abbrev pub change : Call K V → List (K × V) → List (K × V)
  change (search_call k) ps = ps
  change (insert_call k v) ps = add_entry k v ps
  change (insert_set_call k v) ps = set_entry k v ps
  change (delete_call k) ps = remove_entry k ps
  change size_call ps = ps

  abbrev pub answers : List (Call K V) → List (K × V) → List (Answer V)
  answers [] ps = []
  answers (c ∷ cs) ps = answer c ps ∷ answers cs (change c ps)

  abbrev pub change_all : List (Call K V) → List (K × V) → List (K × V)
  change_all [] ps = ps
  change_all (c ∷ cs) ps = change_all cs (change c ps)

  -- The levels that calls may need.
  abbrev pub levels_of : Call K V → ℕ
  levels_of (search_call k) = 0
  levels_of (insert_call k v) = 1
  levels_of (insert_set_call k v) = 1
  levels_of (delete_call k) = 0
  levels_of size_call = 0

  abbrev pub levels : List (Call K V) → ℕ
  levels [] = 0
  levels (c ∷ cs) = levels_of c + levels cs

  -- A call answers as the sorted list does, and leaves a list for it.
  pub record Called (s : SkipList K V) (header : Cell K V) (cs : List (Cell K V)) (c : Call K V)
      : Type 0 where
    pub state : SkipList K V
    pub cells : List (Cell K V)
    pub done : call c s ≡ ok (answer c (entries cs), state)
    pub is_list : IsSkipList state header cells
    pub changed : entries cells ≡ change c (entries cs)
    pub left : evens s.rands ≤ levels_of c + evens state.rands

  length-entries : (cs : List (Cell K V)) → length (entries cs) ≡ length cs
  length-entries [] = refl
  length-entries (c ∷ cs) = ap suc (length-entries cs)

  module _ {s : SkipList K V} {header : Cell K V} {cs : List (Cell K V)}
      (is : IsSkipList s header cs) where
    pub call-Called : (c : Call K V) → levels_of c ≤ evens s.rands → Called s header cs c
    call-Called (search_call k) enough = record {
      state = s;
      cells = cs;
      done = unfold call in rw (search_element-refines is k);
      is_list = is;
      changed = refl;
      left = omega arith;
    }
    call-Called (insert_call k v) enough =
        let (l, rest, drawn, le, ge) =
          get_random_level-total s.max_level s.rands (HasEven-evens s.rands enough) in
        let r = insert_element-refines is k v drawn in
        record {
          state = r.state;
          cells = r.cells;
          done = unfold call in rw r.done;
          is_list = r.is_list;
          changed = r.added;
          left = omega (arith, r.left);
        }
    call-Called (insert_set_call k v) enough =
        let (l, rest, drawn, le, ge) =
          get_random_level-total s.max_level s.rands (HasEven-evens s.rands enough) in
        let r = insert_set_element-refines is k v drawn in
        record {
          state = r.state;
          cells = r.cells;
          done = unfold call in rw r.done;
          is_list = r.is_list;
          changed = r.replaced;
          left = omega (arith, r.left);
        }
    call-Called (delete_call k) enough =
        let r = delete_element-refines is k in
        record {
          state = r.state;
          cells = r.cells;
          done = unfold call in rw r.done;
          is_list = r.is_list;
          changed = r.gone;
          left = omega (arith, ap evens r.same_rands);
        }
    call-Called size_call enough = record {
      state = s;
      cells = cs;
      done =
          unfold call size in
          ap (λ n. ok (counted n, s)) (is.shape.counted ∙ sym (length-entries cs));
      is_list = is;
      changed = refl;
      left = omega arith;
    }

  pub call_all-round :
      (c : Call K V) (calls : List (Call K V)) (s s' s'' : SkipList K V) (a : Answer V)
      (rest : List (Answer V))
      → call c s ≡ ok (a, s')
      → call_all calls s' ≡ ok (rest, s'')
      → call_all (c ∷ calls) s ≡ ok (a ∷ rest, s'')
  call_all-round c calls s s' s'' a rest one more = unfold call_all in rw (one, more)

  -- On a well-formed skip list, and with an even number among the results of rand() for each
  -- insertion, any calls of search_element, insert_element, insert_set_element, delete_element and
  -- size, one after the other, all return; their answers are those of a list that is sorted by the
  -- keys, and the elements that are left are that list's.
  pub call_all-answers :
      (calls : List (Call K V)) {s : SkipList K V} {header : Cell K V} {cs : List (Cell K V)}
      → IsSkipList s header cs
      → levels calls ≤ evens s.rands
      → (s' : SkipList K V) × (cs' : List (Cell K V)) × (call_all calls s
          ≡ ok (answers calls (entries cs), s'))
        × IsSkipList s' header cs'
        × (entries cs' ≡ change_all calls (entries cs))
  call_all-answers [] {s} {header} {cs} is enough = (s, cs, unfold call_all in refl, is, refl)
  call_all-answers (c ∷ calls) {s} {header} {cs} is enough =
      let r = call-Called is c (omega arith) in
      let (s', cs', done, is', changed) =
        call_all-answers calls r.is_list (omega (arith, r.left)) in
      (
        s',
        cs',
        call_all-round c calls s r.state s' (answer c (entries cs))
            (answers calls (change c (entries cs))) r.done
            (done ∙ ap (λ ps. ok (answers calls ps, s')) r.changed),
        is',
        changed ∙ ap (change_all calls) r.changed,
      )
