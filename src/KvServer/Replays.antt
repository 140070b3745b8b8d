-- ===== src/KvServer/Replays.antt =====
-- raftCore/kvServer.cpp on skipList/include/skipList.h: the calls that a server makes of its skip list
-- while it handles the messages of its node, and what the skip list then holds.
use kv_my.Common.{◌≡◌, ◌≢◌, ◌∙◌, subst, some, List, ok, inl, inr, Bool-cases}
use kv_my.Common.Bytes.{Bytes, bytes_eq, bytes_eq_iff}
use kv_my.Common.Maps.{lookup, bytes_key}
use kv_my.SkipList.State.{SkipList, KeyOrder, Run}
use kv_my.SkipList.State as Memory
use kv_my.SkipList.Shape.{Cell}
use kv_my.SkipList.Invariant.{IsSorted, IsSkipList}
use kv_my.SkipList.Entries.{
  entries, find_entry, remove_entry, set_entry, find-add, find-add_other, find-remove,
  find-remove_other,
}
use kv_my.SkipList.Traces.{Answer, call_all}
use kv_my.KvServer.State.{KvServer}
use kv_my.KvServer.View.{Spec, updated}
use kv_my.KvServer.Keys.{bytes_order}
use kv_my.KvServer.CallLog.{Calls, call_log}

pub find-set :
    (cs : List (Cell Bytes Bytes)) (k v j : Bytes)
    → IsSorted cs
    → find_entry j (set_entry k v (entries cs)) ≡ updated (λ i. find_entry i (entries cs)) k v j
find-set cs k v j sorted = elim (Bool-cases (bytes_eq k j)) [
  | inl same ↦
      let e : k ≡ j = (bytes_eq_iff k j).0 same in
      rw same (
        subst (λ i. find_entry i (set_entry k v (entries cs)) ≡ some v) e
          (find-add k v (remove_entry k (entries cs)) (find-remove k cs sorted)))
  | inr differ ↦
      let ne : k ≢ j = λ e. let same = (bytes_eq_iff k j).1 e in cc in
      rw differ (
        find-add_other k j v (remove_entry k (entries cs)) ne
        ∙ find-remove_other k j (entries cs) ne)
]

-- What is left once the calls of some operations have been made of a skip list.
record Replayed (sk : SkipList Bytes Bytes) (header : Cell Bytes Bytes) (calls : Calls) (s : Spec)
    : Type 0 where
  state : SkipList Bytes Bytes
  answers : List (Answer Bytes)
  cells : List (Cell Bytes Bytes)
  done : call_all calls sk ≡ Memory.ok (answers, state)
  is_list : IsSkipList state header cells
  values : (k : Bytes) → find_entry k (entries cells) ≡ s.value_of k

-- The abstract state of a server and of the cells of its skip list.
abbrev pub held : KvServer Calls → List (Cell Bytes Bytes) → Spec
held kv cs = record {
  value_of = λ k. find_entry k (entries cs);
  seen = λ c. lookup kv.last_request_id c;
}
