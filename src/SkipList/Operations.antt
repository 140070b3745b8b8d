-- ===== src/SkipList/Operations.antt =====
-- skipList/include/skipList.h, lines 143 to 377: the operations of SkipList but for its dumps. What they print is left
-- out. A loop along the nodes of a level takes one unit of fuel for each node and one more.
use kv_my.Common.{
  ℕ, zero, suc, ◌+◌, ◌-◌, ◌%◌, Bool, true, false, List, [], ◌∷◌, Option, none, some, replicate, min,
  ltb, ◌==◌, if◌then◌else◌, get_elem?,
}
use kv_my.SkipList.State.{
  KeyOrder, Ptr, null, Heap, SkipList, Run, ok, out_of_fuel, ◌>>=◌, of_option, assign, write, load,
  forward_at, set_forward, free, create_node, locked,
}

-- SkipListDump, and what Boost makes of it.
-- `while (rand() % 2) k++`.
unfoldable pub flips : ℕ → List ℕ → Run (ℕ × List ℕ)
flips k [] = out_of_fuel
flips k (r ∷ rs) = let more = flips (k + 1) rs in if r % 2 == 0 then ok (k, rs) else more

unfoldable pub get_random_level : ℕ → List ℕ → Run (ℕ × List ℕ)
get_random_level max_level rands = do (k, rest) ← flips 1 rands; ok (min k max_level, rest)

-- `update[i] = _header` for `n` levels from `i`.
unfoldable pub raise : ℕ → ℕ → Ptr → List Ptr → Run (List Ptr)
raise zero i header update = ok update
raise (suc n) i header update = do update' ← assign update i header; raise n (suc i) header update'

module _ {K V : Type 0} where
  -- The constructor: the header holds a default key and value.
  unfoldable pub init : K → V → ℕ → List ℕ → SkipList K V
  unfolding write create_node
  init k v max_level rands = record {
    max_level = max_level;
    skip_list_level = 0;
    header = 1;
    element_count = 0;
    mtx = false;
    heap = write (λ a. none) 1 (some (create_node k v max_level));
    next = 2;
    rands = rands;
  }

  unfoldable pub size : SkipList K V → ℕ
  size s = s.element_count

  -- `inserted_node->forward[i] = update[i]->forward[i]; update[i]->forward[i] = inserted_node` for
  -- `n` levels from `i`.
  unfoldable pub splice : ℕ → ℕ → Ptr → List Ptr → Heap K V → Run (Heap K V)
  splice zero i node update h = ok h
  splice (suc n) i node update h = do
    before ← of_option (get_elem? update i)
    after ← forward_at h before i
    h' ← set_forward h node i after
    h'' ← set_forward h' before i node
    splice n (suc i) node update h''

  -- `update[i]->forward[i] = current->forward[i]` for `n` levels from `i`, up to one where `current`
  -- is not linked.
  unfoldable pub unlink : ℕ → ℕ → Ptr → List Ptr → Heap K V → Run (Heap K V)
  unlink zero i node update h = ok h
  unlink (suc n) i node update h = do
    before ← of_option (get_elem? update i)
    linked ← forward_at h before i
    let rest : Run (Heap K V) = (do
      after ← forward_at h node i
      h' ← set_forward h before i after
      unlink n (suc i) node update h')
    if linked == node then rest else ok h

  -- `while (level > 0 && _header->forward[level] == nullptr) --level`.
  unfoldable pub lower : Heap K V → Ptr → ℕ → Run ℕ
  lower h header zero = ok zero
  lower h header (suc l) = do
    top ← forward_at h header (suc l)
    let rest = lower h header l
    if top == null then rest else ok (suc l)

  -- `clear`: the nodes behind `cur` and then `cur` are deleted.
  unfoldable pub clear : ℕ → Heap K V → Ptr → Run (Heap K V)
  clear zero h cur = out_of_fuel
  clear (suc f) h cur = do
    after ← forward_at h cur 0
    let rest = clear f h after
    h' ← if after == null then ok h else rest
    free h' cur

  -- The destructor.
  unfoldable pub destroy : SkipList K V → Run (Heap K V)
  destroy s = do
    after ← forward_at s.heap s.header 0
    h ← if after == null then ok s.heap else clear (suc s.element_count) s.heap after
    free h s.header

  -- `value = current->get_value()`.
  unfoldable pub found_value : Bool → Ptr → SkipList K V → Run (Option V × SkipList K V)
  found_value found current s =
      if found then (do n ← load s.heap current; ok (some n.value, s)) else ok (none, s)

  module _ ⦃order : KeyOrder K⦄ where
    -- `p != nullptr && p->get_key() < key`.
    unfoldable pub ahead : Heap K V → K → Ptr → Run Bool
    ahead h k p = if p == null then ok false else (do n ← load h p; ok (order.lt n.key k))

    -- `p != nullptr && p->get_key() == key`.
    unfoldable pub matches : Heap K V → K → Ptr → Run Bool
    matches h k p = if p == null then ok false else (do n ← load h p; ok (order.eq n.key k))

    -- `while (... < key) current = current->forward[i]`.
    unfoldable pub walk : ℕ → Heap K V → K → ℕ → Ptr → Run Ptr
    walk zero h k i current = out_of_fuel
    walk (suc f) h k i current = do
      after ← forward_at h current i
      more ← ahead h k after
      let rest = walk f h k i after
      if more then rest else ok current

    -- The `n` levels from the top one down to 0, with the node before the key at each.
    unfoldable pub descend : ℕ → Heap K V → K → ℕ → Ptr → List Ptr → Run (Ptr × List Ptr)
    descend f h k zero current update = ok (current, update)
    descend f h k (suc i) current update = do
      current' ← walk f h k i current
      update' ← assign update i current'
      descend f h k i current' update'

    -- The loop of a search, which keeps no `update`.
    unfoldable pub find : ℕ → Heap K V → K → ℕ → Ptr → Run Ptr
    find f h k zero current = ok current
    find f h k (suc i) current = do current' ← walk f h k i current; find f h k i current'

    -- The nodes before the key, and the node behind them at level 0.
    unfoldable pub locate : SkipList K V → K → Run (List Ptr × Ptr)
    locate s k = do
      (before, update) ←
          descend (suc s.element_count) s.heap k (suc s.skip_list_level) s.header
            (replicate (suc s.max_level) null)
      current ← forward_at s.heap before 0
      ok (update, current)

    -- The rest of an insertion, for a key that is not there.
    unfoldable pub insert_new : List Ptr → K → V → SkipList K V → Run (Bool × SkipList K V)
    insert_new update k v s = do
      (level, rands) ← get_random_level s.max_level s.rands
      update' ← raise (level - s.skip_list_level) (suc s.skip_list_level) s.header update
      let heap = write s.heap s.next (some (create_node k v level))
      heap' ← splice (suc level) 0 s.next update' heap
      ok (
        true,
        record s {
          skip_list_level = if ltb s.skip_list_level level then level else s.skip_list_level;
          element_count = suc s.element_count;
          heap = heap';
          next = suc s.next;
          rands = rands;
        },
      )

    unfoldable pub insert_element : K → V → SkipList K V → Run (Bool × SkipList K V)
    insert_element k v = locked λ s. do
      (update, current) ← locate s k
      found ← matches s.heap k current
      if found then ok (false, s) else insert_new update k v s

    -- The rest of a deletion, for the node of the key.
    unfoldable pub delete_node : List Ptr → Ptr → SkipList K V → Run (Unit {0} × SkipList K V)
    delete_node update current s = do
      heap ← unlink (suc s.skip_list_level) 0 current update s.heap
      level ← lower heap s.header s.skip_list_level
      heap' ← free heap current
      ok (
        tt,
        record s { skip_list_level = level; element_count = s.element_count - 1; heap = heap' },
      )

    unfoldable pub delete_element : K → SkipList K V → Run (Unit {0} × SkipList K V)
    delete_element k = locked λ s. do
      (update, current) ← locate s k
      found ← matches s.heap k current
      if found then delete_node update current s else ok (tt, s)

    unfoldable pub search_element : K → SkipList K V → Run (Option V × SkipList K V)
    search_element k = locked λ s. do
      before ← find (suc s.element_count) s.heap k (suc s.skip_list_level) s.header
      current ← forward_at s.heap before 0
      found ← matches s.heap k current
      found_value found current s

    -- `if (search_element(key, oldValue)) delete_element(key)`.
    unfoldable pub delete_found : Option V → K → SkipList K V → Run (Unit {0} × SkipList K V)
    delete_found none k s = ok (tt, s)
    delete_found (some old) k s = delete_element k s

    unfoldable pub insert_set_element : K → V → SkipList K V → Run (Bool × SkipList K V)
    insert_set_element k v s = do
      (found, s1) ← search_element k s
      (done, s2) ← delete_found found k s1
      insert_element k v s2
