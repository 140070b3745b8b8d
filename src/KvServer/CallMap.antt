-- ===== src/KvServer/CallMap.antt =====
-- raftCore/kvServer.cpp on skipList/include/skipList.h: the skip list is a map, as the server's calls of
-- it see it.
use kv_my.Common.{
  ℕ, zero, suc, ◌≤◌, ◌≡◌, refl, ap, sym, ◌∙◌, false, List, [], ◌∷◌, ◌++◌, arith, replicate,
}
use kv_my.Common.Bytes.{Bytes, bytes_eq, bytes_eq_iff}
use kv_my.SkipList.Shape.{Cell}
use kv_my.SkipList.Levels.{evens}
use kv_my.SkipList.Operations.{init}
use kv_my.SkipList.Invariant.{IsSorted}
use kv_my.SkipList.Entries.{entries, find_entry}
use kv_my.SkipList.Refines.{init-IsSkipList}
use kv_my.SkipList.Traces.{Call, insert_set_call, change, change_all, levels, call_all-answers}
use kv_my.KvServer.State.{IsMap}
use kv_my.KvServer.View.{updated}
use kv_my.KvServer.Keys.{bytes_order}
use kv_my.KvServer.CallLog.{Calls, call_log}
use kv_my.KvServer.Replays.{find-set}

evens-replicate : (n : ℕ) → n ≤ evens (replicate n 0)
evens-replicate zero = omega arith
evens-replicate (suc n) = omega (arith, evens-replicate n)

-- After some calls of a new skip list, with results of rand() that are enough, its cells are sorted and
-- hold what the calls leave.
reached :
    (cs : Calls)
    → (cells : List (Cell Bytes Bytes)) × IsSorted cells × (entries cells ≡ change_all cs [])
unfolding init
reached cs =
    let (s, cells, done, is, same) =
      call_all-answers cs (init-IsSkipList [] [] 6 (replicate (levels cs) 0))
        (evens-replicate (levels cs)) in
    (cells, is.shape.sorted, same)

change_all-append :
    (cs : Calls) (c : Call Bytes Bytes) (ps : List (Bytes × Bytes))
    → change_all (cs ++ c ∷ []) ps ≡ change c (change_all cs ps)
change_all-append [] c ps = refl
change_all-append (b ∷ cs) c ps = change_all-append cs c (change b ps)

find-inserted :
    (cs : Calls) (k v j : Bytes)
    → find_entry j (change_all (cs ++ insert_set_call k v ∷ []) [])
      ≡ updated (λ i. find_entry i (change_all cs [])) k v j
find-inserted cs k v j =
    let (cells, sorted, same) = reached cs in
    ap (find_entry j) (change_all-append cs (insert_set_call k v) [])
    ∙ ap (λ ps. find_entry j (change (insert_set_call k v) ps)) (sym same)
    ∙ find-set cells k v j sorted
    ∙ ap (λ ps. updated (λ i. find_entry i ps) k v j) same

-- A search in the log of the calls is what the skip list answers after them, so it sees a map.
pub call_log-IsMap : IsMap call_log
call_log-IsMap = record {
  search-empty = λ k. refl;
  search-insert = λ cs k v. find-inserted cs k v k ∙ rw ((bytes_eq_iff k k).1 refl) refl;
  search-insert_other = λ cs k v j ne.
      let differ : bytes_eq k j ≡ false = ground (arith, bytes_eq_iff k j) in
      find-inserted cs k v j ∙ rw differ refl;
}
