-- ===== src/KvServer/View.antt =====
-- What a server promises: a map from keys to values, and each request carried out once.
use kv_my.Common.{
  ℕ, ◌≡◌, refl, ap, sym, ◌∙◌, Bool, ◌||◌, Option, some, List, [], ◌∷◌, inl, inr, arith,
  if◌then◌else◌, Bool-cases,
}
use kv_my.Common.Bytes.{Bytes, bytes_eq, bytes_eq_iff}
use kv_my.Common.Maps.{lookup, insert, bytes_key, lookup-insert, lookup-insert_other}
use kv_my.KvServer.State.{Op, Store, IsMap, KvServer, put_name, append_name}
use kv_my.KvServer.Execute.{
  known, execute_put_op_on_kvdb, execute_append_op_on_kvdb, if_request_duplicate, execute_once,
}

-- The values, and the last request of each client.
pub record Spec : Type 0 where
  pub value_of : Bytes → Option Bytes
  pub seen : Bytes → Option ℕ

abbrev pub updated : {V : Type 0} → (Bytes → Option V) → Bytes → V → Bytes → Option V
updated f k v j = if bytes_eq k j then some v else f j

abbrev pub is_write : Op → Bool
is_write op = bytes_eq op.operation put_name || bytes_eq op.operation append_name

-- A write that its client has not sent before sets the value, a repeated one and a read nothing.
abbrev pub apply_op : Spec → Op → Spec
apply_op s op =
    if known (s.seen op.client_id) op.request_id
    then s
    else if is_write op
    then record {
      value_of = updated s.value_of op.key op.value;
      seen = updated s.seen op.client_id op.request_id;
    }
    else s

abbrev pub apply_ops : Spec → List Op → Spec
apply_ops s [] = s
apply_ops s (op ∷ ops) = apply_ops (apply_op s op) ops

pub lookup-updated :
    (m : List (Bytes × ℕ)) (f : Bytes → Option ℕ) (k j : Bytes) (v : ℕ)
    → ((c : Bytes) → lookup m c ≡ f c)
    → lookup (insert m k v) j ≡ updated f k v j
lookup-updated m f k j v same = elim (Bool-cases (bytes_eq k j)) [
  | inl eq ↦
      let e : k ≡ j = (bytes_eq_iff k j).0 eq in
      rw eq (ap (lookup (insert m k v)) (sym e) ∙ lookup-insert m k v)
  | inr ne ↦
      rw ne (lookup-insert_other m k j v (λ e. ground (arith, (bytes_eq_iff k j).1 e)) ∙ same j)
]

module _ {S : Type 0} ⦃store : Store S⦄ where
  -- The server holds the values and the requests of an abstract state.
  pub record Shows (kv : KvServer S) (s : Spec) : Type 0 where
    pub values : (k : Bytes) → store.search_element kv.skip_list k ≡ s.value_of k
    pub requests : (c : Bytes) → lookup kv.last_request_id c ≡ s.seen c

  pub if_request_duplicate-known :
      (kv : KvServer S) (s : Spec) (c : Bytes) (n : ℕ)
      → Shows kv s
      → if_request_duplicate kv c n ≡ known (s.seen c) n
  unfolding if_request_duplicate
  if_request_duplicate-known kv s c n shows = rw (shows.requests c)

  search-updated :
      IsMap store
      → (st : S) (f : Bytes → Option Bytes) (k v j : Bytes)
      → ((i : Bytes) → store.search_element st i ≡ f i)
      → store.search_element (store.insert_set_element st k v) j ≡ updated f k v j
  search-updated law st f k v j same = elim (Bool-cases (bytes_eq k j)) [
    | inl eq ↦
        let e : k ≡ j = (bytes_eq_iff k j).0 eq in
        rw eq (
          ap (store.search_element (store.insert_set_element st k v)) (sym e)
          ∙ law.search-insert st k v)
    | inr ne ↦
        rw ne
          (law.search-insert_other st k v j (λ e. ground (arith, (bytes_eq_iff k j).1 e)) ∙ same j)
  ]

  put-Shows :
      IsMap store
      → (kv : KvServer S) (s : Spec) (op : Op) → Shows kv s
      → Shows (execute_put_op_on_kvdb kv op) (record {
        value_of = updated s.value_of op.key op.value;
        seen = updated s.seen op.client_id op.request_id;
      })
  unfolding execute_put_op_on_kvdb
  put-Shows law kv s op shows = record {
    values = λ j. search-updated law kv.skip_list s.value_of op.key op.value j shows.values;
    requests =
        λ j. lookup-updated kv.last_request_id s.seen op.client_id j op.request_id shows.requests;
  }

  append-put :
      (kv : KvServer S) (op : Op) → execute_append_op_on_kvdb kv op ≡ execute_put_op_on_kvdb kv op
  unfolding execute_append_op_on_kvdb execute_put_op_on_kvdb
  append-put kv op = refl

  pub execute_once-Shows :
      IsMap store
      → (kv : KvServer S) (s : Spec) (op : Op) → Shows kv s
      → Shows (execute_once kv op) (apply_op s op)
  unfolding execute_once
  execute_once-Shows law kv s op shows =
      rw (if_request_duplicate-known kv s op.client_id op.request_id shows, append-put kv op)
        (elim (Bool-cases (known (s.seen op.client_id) op.request_id)) [
          | inl old ↦ rw old shows
          | inr new ↦ elim (Bool-cases (bytes_eq op.operation put_name)) [
            | inl put ↦ rw (new, put) (put-Shows law kv s op shows)
            | inr not_put ↦ elim (Bool-cases (bytes_eq op.operation append_name)) [
              | inl append ↦ rw (new, not_put, append) (put-Shows law kv s op shows)
              | inr read ↦ rw (new, not_put, read) shows
            ]
          ]
        ])
