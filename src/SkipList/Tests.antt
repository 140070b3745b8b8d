-- ===== src/SkipList/Tests.antt =====
-- A skip list of two elements with numbers as keys.
use kv_my.Common.{
  ℕ, ◌≤◌, ◌≡◌, refl, List, [], ◌∷◌, Option, none, some, true, false, inl, inr, arith, ltb, ◌==◌,
  ==_iff, if◌then◌else◌, min,
}
use kv_my.SkipList.State.{
  KeyOrder, null, Heap, SkipList, Run, ok, fault, deadlock, out_of_fuel, ◌>>=◌, locked, write, load,
  forward_at, set_forward, assign, free, create_node,
}
use kv_my.SkipList.Dumps.{DumpCodec, load_file}
use kv_my.SkipList.Operations.{
  get_random_level, insert_element, delete_element, search_element, destroy, flips, find, walk,
  ahead, matches, found_value, locate, descend, insert_new, raise, splice, delete_node, unlink,
  lower,
}
use kv_my.SkipList.Shape.{Cell}
use kv_my.SkipList.Invariant.{IsSkipList}
use kv_my.SkipList.Levels.{get_random_level-total}
use kv_my.SkipList.Entries.{entries}
use kv_my.SkipList.Traces.{
  Call, search_call, insert_set_call, size_call, inserted, found, counted, call_all,
  call_all-answers,
}
use kv_my.SkipList.Refines.{load_file-empty, load_file-deadlock, Cleared, destroy_lem}

ltb_irrefl : (a : ℕ) → ltb a a ≡ false
ltb_irrefl a = ground arith

ltb_trans : (a b c : ℕ) → ltb a b ≡ true → ltb b c ≡ true → ltb a c ≡ true
ltb_trans a b c p q = ground arith

ltb_total : (a b : ℕ) → ltb a b ≡ false → ltb b a ≡ false → a ≡ b
ltb_total a b p q = ground arith

instance abbrev nat_order : KeyOrder ℕ
nat_order = record {
  lt = ltb;
  eq = λ a b. a == b;
  eq_iff = ==_iff;
  lt_irrefl = ltb_irrefl;
  lt_trans = ltb_trans;
  lt_total = ltb_total;
}

abbrev header_cell : Cell ℕ ℕ
header_cell = record { at = 1; key = 0; value = 0; level = 2 }

abbrev cells : List (Cell ℕ ℕ)
cells =
    record { at = 2; key = 10; value = 100; level = 1 }
    ∷ record { at = 3; key = 20; value = 200; level = 2 }
    ∷ []

abbrev nodes : Heap ℕ ℕ
nodes a =
    if a == 1
    then some (record { key = 0; value = 0; node_level = 2; forward = 2 ∷ 2 ∷ 3 ∷ [] })
    else if a == 2
    then some (record { key = 10; value = 100; node_level = 1; forward = 3 ∷ 3 ∷ [] })
    else if a == 3
    then some (record { key = 20; value = 200; node_level = 2; forward = null ∷ null ∷ null ∷ [] })
    else none

abbrev two : SkipList ℕ ℕ
two = record {
  max_level = 2;
  skip_list_level = 2;
  header = 1;
  element_count = 2;
  mtx = false;
  heap = nodes;
  next = 4;
  rands = 7 ∷ 4 ∷ [];
}

two-IsSkipList : IsSkipList two header_cell cells
two-IsSkipList = record {
  shape = record {
    links = (
      omega arith,
      refl,
      (omega arith, (omega arith, tt)),
      (omega arith, refl, (omega arith, tt), (omega arith, refl, tt, tt)),
    );
    at_header = refl;
    top = refl;
    sorted = ((refl, tt), (tt, tt));
    low = (omega arith, (omega arith, tt));
    tight = λ pos. refl;
    within = omega arith;
    counted = refl;
    allocated = (omega arith, (omega arith, (omega arith, tt)));
  };
  unlocked = refl;
}

drawn : get_random_level 2 (7 ∷ 4 ∷ []) ≡ ok (2, [])
unfolding get_random_level flips
drawn = refl

-- A codec for the tests: the dump is read as one fixed entry, if the text begins with a 1.
abbrev one_entry : DumpCodec ℕ ℕ
one_entry = record {
  write_dump = λ d. 1 ∷ [];
  read_dump = λ bytes. some (record { key_dump = 5 ∷ []; val_dump = 50 ∷ [] });
}

abbrev no_entry : DumpCodec ℕ ℕ
no_entry = record {
  write_dump = λ d. 1 ∷ [];
  read_dump = λ bytes. some (record { key_dump = []; val_dump = [] });
}

abbrev value_of {ℓ} : {A : Type ℓ} → Run (A × SkipList ℕ ℕ) → Option A
value_of (ok (a, s)) = some a
value_of fault = none
value_of deadlock = none
value_of out_of_fuel = none

-- The code run on the two elements.
search_run : value_of (search_element 20 two) ≡ some (some 200)
unfolding search_element locked find walk forward_at load ahead matches found_value
search_run = refl

insert_run :
    value_of (do
      (fresh, s) ← insert_element 15 150 two
      (gone, t) ← delete_element 10 s
      search_element 15 t)
    ≡ some (some 150)
unfolding insert_element delete_element search_element locked locate descend find walk forward_at
    load ahead matches found_value insert_new get_random_level flips raise splice set_forward assign
    write create_node delete_node unlink lower free
insert_run = refl

deleted_run : value_of (do (gone, s) ← delete_element 20 two; search_element 20 s) ≡ some none
unfolding delete_element search_element locked locate descend find walk forward_at load ahead
    matches found_value set_forward assign write delete_node unlink lower free
deleted_run = refl

load_file-empty_example :
    (s' : SkipList ℕ ℕ) × (load_file no_entry (1 ∷ []) two ≡ ok (tt, s'))
    × IsSkipList s' header_cell []
load_file-empty_example = load_file-empty no_entry 1 [] two-IsSkipList refl

load_file-deadlock_example : load_file one_entry (1 ∷ []) two ≡ deadlock
load_file-deadlock_example =
    load_file-deadlock one_entry 1 [] two-IsSkipList
      (record { key_dump = 5 ∷ []; val_dump = 50 ∷ [] }) 5 [] 50 [] refl refl refl

abbrev three_calls : List (Call ℕ ℕ)
three_calls = insert_set_call 20 5 ∷ search_call 20 ∷ size_call ∷ []

call_all-answers_example :
    (s' : SkipList ℕ ℕ) × (cells' : List (Cell ℕ ℕ)) × (call_all three_calls two
      ≡ ok (inserted true ∷ found (some 5) ∷ counted 2 ∷ [], s'))
    × IsSkipList s' header_cell cells'
    × (entries cells' ≡ (10, 100) ∷ (20, 5) ∷ [])
call_all-answers_example = call_all-answers three_calls two-IsSkipList (omega arith)

destroy_lem_example : Cleared nodes (header_cell ∷ cells) (destroy two)
destroy_lem_example = destroy_lem two-IsSkipList

get_random_level-total_example :
    (l : ℕ) × (rest : List ℕ) × (get_random_level 6 (7 ∷ 4 ∷ []) ≡ ok (l, rest))
    × (l ≤ 6)
    × (min 1 6 ≤ l)
get_random_level-total_example = get_random_level-total 6 (7 ∷ 4 ∷ []) (inr (inl refl))
