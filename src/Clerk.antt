-- ===== src/Clerk.antt =====
-- raftClerk/clerk.cpp: a client that asks one server after the other until one answers. The answers
-- are handed in, one for each attempt: none where the RPC fails. An empty list of answers leaves the
-- loop without a result.
pub mod Retries
pub mod Tests
use kv_my.Common.{ℕ, ◌+◌, ◌%◌, Option, none, some, List, [], ◌∷◌}
use kv_my.Common.Bytes.{Bytes}
use kv_my.KvServer.State.{
  GetArgs, GetReply, PutAppendArgs, Err, no_error, err_no_key, err_wrong_leader, put_name,
  append_name,
}

-- `servers` is the length of `m_servers`, the stubs.
pub record Clerk : Type 0 where
  pub servers : ℕ
  pub client_id : Bytes
  pub request_id : ℕ
  pub recent_leader_id : ℕ

-- The constructor, with the client's id.
unfoldable pub init : ℕ → Bytes → Clerk
init servers uuid = record {
  servers = servers;
  client_id = uuid;
  request_id = 0;
  recent_leader_id = 0;
}

-- What an attempt leads to: another one, or the end with the clerk's result.
pub data Attempt (A : Type 0) : Type 0 where
  again : Attempt A
  finish : A → Attempt A

-- The part of the loop of Get behind the RPC.
unfoldable pub judge_get : Clerk → ℕ → Option GetReply → Attempt (Clerk × Bytes)
judge_get c server none = again
judge_get c server (some reply) = elim reply.err [
  | no_error ↦ finish (record c { recent_leader_id = server }, reply.value)
  | err_no_key ↦ finish (c, [])
  | err_wrong_leader ↦ again
]

-- That of PutAppend. An answer that is neither OK nor ErrWrongLeader leads to another attempt at the
-- same server: `stay`.
pub data PutAttempt : Type 0 where
  move_on stay : PutAttempt
  put_done : Clerk → PutAttempt

unfoldable pub judge_put_append : Clerk → ℕ → Option Err → PutAttempt
judge_put_append c server none = move_on
judge_put_append c server (some no_error) = put_done (record c { recent_leader_id = server })
judge_put_append c server (some err_no_key) = stay
judge_put_append c server (some err_wrong_leader) = move_on

-- `server = (server + 1) % m_servers.size()`.
unfoldable pub next_server : Clerk → ℕ → ℕ
next_server c server = (server + 1) % c.servers

-- The requests that the loop sends, with the servers, and its result.
unfoldable pub get_loop :
    Clerk → GetArgs → ℕ → List (Option GetReply) → List (ℕ × GetArgs) × Option (Clerk × Bytes)
get_loop c args server [] = ([], none)
get_loop c args server (answer ∷ answers) =
    let rest = get_loop c args (next_server c server) answers in
    elim (judge_get c server answer) [
      | again ↦ ((server, args) ∷ rest.0, rest.1)
      | finish result ↦ ((server, args) ∷ [], some result)
    ]

unfoldable pub get :
    Clerk → Bytes → List (Option GetReply) → List (ℕ × GetArgs) × Option (Clerk × Bytes)
get c key answers =
    let c' : Clerk = record c { request_id = c.request_id + 1 } in
    get_loop c' (record { key = key; client_id = c'.client_id; request_id = c'.request_id })
      c'.recent_leader_id answers

unfoldable pub put_append_loop :
    Clerk → PutAppendArgs → ℕ → List (Option Err) → List (ℕ × PutAppendArgs) × Option Clerk
put_append_loop c args server [] = ([], none)
put_append_loop c args server (answer ∷ answers) =
    let moved = put_append_loop c args (next_server c server) answers in
    let stayed = put_append_loop c args server answers in
    elim (judge_put_append c server answer) [
      | move_on ↦ ((server, args) ∷ moved.0, moved.1)
      | stay ↦ ((server, args) ∷ stayed.0, stayed.1)
      | put_done result ↦ ((server, args) ∷ [], some result)
    ]

unfoldable pub put_append :
    Clerk → Bytes → Bytes → Bytes → List (Option Err) → List (ℕ × PutAppendArgs) × Option Clerk
put_append c key value op answers =
    let c' : Clerk = record c { request_id = c.request_id + 1 } in
    put_append_loop c'
      (record {
        key = key;
        value = value;
        op = op;
        client_id = c'.client_id;
        request_id = c'.request_id;
      })
      c'.recent_leader_id answers

unfoldable pub put :
    Clerk → Bytes → Bytes → List (Option Err) → List (ℕ × PutAppendArgs) × Option Clerk
put c key value answers = put_append c key value put_name answers

unfoldable pub append :
    Clerk → Bytes → Bytes → List (Option Err) → List (ℕ × PutAppendArgs) × Option Clerk
append c key value answers = put_append c key value append_name answers
