-- ===== src/Clerk/Retries.antt =====
-- raftClerk/clerk.cpp, the retry loops: which servers are asked, with which request, and when they end.
use native.Mathlib.Nat.{mod-add-mod, mod-eq_of_lt}
use kv_my.Common.{
  ℕ, zero, suc, ◌+◌, ◌%◌, ◌<◌, ◌≡◌, refl, ap, sym, ◌∙◌, arith, Option, none, some, List, [], ◌∷◌,
  ◌++◌, map, length, All,
}
use kv_my.Common.Bytes.{Bytes}
use kv_my.KvServer.State.{GetArgs, GetReply, PutAppendArgs, Err, no_error, err_wrong_leader}
use kv_my.Clerk.{
  Clerk, again, finish, judge_get, next_server, get_loop, get, move_on, judge_put_append,
  put_append_loop, put_append,
}

-- The servers in turn, from one on.
unfoldable pub in_turn : Clerk → ℕ → ℕ → List ℕ
in_turn c server zero = []
in_turn c server (suc n) = server ∷ in_turn c (next_server c server) n

-- The server behind `n` others.
unfoldable pub server_after : Clerk → ℕ → ℕ → ℕ
server_after c server zero = server
server_after c server (suc n) = server_after c (next_server c server) n

-- The servers of `n` attempts where there are `servers` of them: those with the numbers from `start`
-- on, counted around.
unfoldable pub turns : ℕ → ℕ → ℕ → List ℕ
turns servers start zero = []
turns servers start (suc n) = (start % servers) ∷ turns servers (start + 1) n

in_turn-turns :
    (c : Clerk) (start n : ℕ) → in_turn c (start % c.servers) n ≡ turns c.servers start n
unfolding in_turn turns next_server
in_turn-turns c start zero = refl
in_turn-turns c start (suc n) =
    ap (λ next. (start % c.servers) ∷ in_turn c next n) (mod-add-mod start c.servers 1)
    ∙ ap (λ rest. (start % c.servers) ∷ rest) (in_turn-turns c (start + 1) n)

server_after-turns :
    (c : Clerk) (start n : ℕ) → server_after c (start % c.servers) n ≡ (start + n) % c.servers
unfolding server_after next_server
server_after-turns c start zero = ap (λ k. k % c.servers) (omega arith)
server_after-turns c start (suc n) =
    ap (λ next. server_after c next n) (mod-add-mod start c.servers 1)
    ∙ server_after-turns c (start + 1) n
    ∙ ap (λ k. k % c.servers) (omega arith)

-- One request to each of the servers.
abbrev pub to_all : {A : Type 0} → A → List ℕ → List (ℕ × A)
to_all args servers = map (λ s. (s, args)) servers

-- A failed RPC, or the answer of a server that does not lead.
abbrev pub IsGetRetry : Option GetReply → Type 0
IsGetRetry none = Unit
IsGetRetry (some reply) = reply.err ≡ err_wrong_leader

abbrev pub IsPutRetry : Option Err → Type 0
IsPutRetry none = Unit
IsPutRetry (some e) = e ≡ err_wrong_leader

judge_get-retry :
    (c : Clerk) (server : ℕ) (a : Option GetReply) → IsGetRetry a → judge_get c server a ≡ again
unfolding judge_get
judge_get-retry c server none h = refl
judge_get-retry c server (some reply) h = rw h

judge_put_append-retry :
    (c : Clerk) (server : ℕ) (a : Option Err) → IsPutRetry a → judge_put_append c server a ≡ move_on
unfolding judge_put_append
judge_put_append-retry c server none h = refl
judge_put_append-retry c server (some e) h = rw h

get_loop-retries :
    (c : Clerk) (args : GetArgs) (server : ℕ) (fs : List (Option GetReply)) (last : Option GetReply)
    (rest : List (Option GetReply)) (result : Clerk × Bytes)
    → All IsGetRetry fs
    → judge_get c (server_after c server (length fs)) last ≡ finish result
    → get_loop c args server (fs ++ last ∷ rest)
      ≡ (to_all args (in_turn c server (suc (length fs))), some result)
unfolding get_loop server_after in_turn
get_loop-retries c args server [] last rest result fail done = rw (get_loop, done)
get_loop-retries c args server (f ∷ fs) last rest result fail done = rw (
  get_loop,
  judge_get-retry c server f fail.0,
  get_loop-retries c args (next_server c server) fs last rest result fail.1 done,
)

get_loop-unanswered :
    (c : Clerk) (args : GetArgs) (server : ℕ) (fs : List (Option GetReply))
    → All IsGetRetry fs
    → get_loop c args server fs ≡ (to_all args (in_turn c server (length fs)), none)
unfolding get_loop in_turn
get_loop-unanswered c args server [] fail = refl
get_loop-unanswered c args server (f ∷ fs) fail = rw (
  get_loop,
  judge_get-retry c server f fail.0,
  get_loop-unanswered c args (next_server c server) fs fail.1,
)

put_append_loop-retries :
    (c : Clerk) (args : PutAppendArgs) (server : ℕ) (fs : List (Option Err))
    (rest : List (Option Err))
    → All IsPutRetry fs
    → put_append_loop c args server (fs ++ some no_error ∷ rest) ≡ (
      to_all args (in_turn c server (suc (length fs))),
      some (record c { recent_leader_id = server_after c server (length fs) }),
    )
unfolding put_append_loop server_after in_turn judge_put_append
put_append_loop-retries c args server [] rest fail = refl
put_append_loop-retries c args server (f ∷ fs) rest fail = rw (
  put_append_loop,
  judge_put_append-retry c server f fail.0,
  put_append_loop-retries c args (next_server c server) fs rest fail.1,
)

-- The clerk with the next request id.
abbrev pub counted : Clerk → Clerk
counted c = record c { request_id = c.request_id + 1 }

abbrev pub get_args : Clerk → Bytes → GetArgs
get_args c key = record { key = key; client_id = c.client_id; request_id = c.request_id + 1 }

-- While the RPC fails or the server does not lead, Get asks the servers in turn, from the last leader
-- on, always with the same request, whose id is one more than the last; it ends with the first other
-- answer, and with no answer it goes on.
pub get-retries :
    (c : Clerk) (key : Bytes) (fs : List (Option GetReply))
    → All IsGetRetry fs
    → (get c key fs
        ≡ (to_all (get_args c key) (in_turn (counted c) c.recent_leader_id (length fs)), none))
      × ((last : Option GetReply) (rest : List (Option GetReply)) (result : Clerk × Bytes)
          → judge_get (counted c) (server_after (counted c) c.recent_leader_id (length fs)) last
            ≡ finish result
          → get c key (fs ++ last ∷ rest) ≡ (
            to_all (get_args c key) (in_turn (counted c) c.recent_leader_id (suc (length fs))),
            some result,
          ))
unfolding get
get-retries c key fs fail = (
  get_loop-unanswered (counted c) (get_args c key) c.recent_leader_id fs fail,
  λ last rest result done.
      get_loop-retries (counted c) (get_args c key) c.recent_leader_id fs last rest result fail
        done,
)

-- Where the last leader is one of the servers: the requests of PutAppend that fail or meet no leader
-- are repeated, unchanged, attempt k at the server whose number is k more than the last leader's,
-- counted around. The first OK ends the loop, makes its server the last leader, and leaves the
-- request id one higher.
pub put_append-retries :
    (c : Clerk) (key value op : Bytes) (fs rest : List (Option Err))
    → c.recent_leader_id < c.servers
    → All IsPutRetry fs
    → put_append c key value op (fs ++ some no_error ∷ rest) ≡ (
      to_all
          (record {
            key = key;
            value = value;
            op = op;
            client_id = c.client_id;
            request_id = c.request_id + 1;
          })
          (turns c.servers c.recent_leader_id (suc (length fs))),
      some (record {
        servers = c.servers;
        client_id = c.client_id;
        request_id = c.request_id + 1;
        recent_leader_id = (c.recent_leader_id + length fs) % c.servers;
      }),
    )
unfolding put_append
put_append-retries c key value op fs rest is_one fail =
    let c' : Clerk = counted c in
    let args : PutAppendArgs = record {
      key = key;
      value = value;
      op = op;
      client_id = c.client_id;
      request_id = c.request_id + 1;
    } in
    let first : c.recent_leader_id ≡ c.recent_leader_id % c.servers = sym (mod-eq_of_lt is_one) in
    let servers : in_turn c' c.recent_leader_id (suc (length fs))
        ≡ turns c.servers c.recent_leader_id (suc (length fs)) =
      ap (λ s. in_turn c' s (suc (length fs))) first
      ∙ in_turn-turns c' c.recent_leader_id (suc (length fs)) in
    let last : server_after c' c.recent_leader_id (length fs)
        ≡ (c.recent_leader_id + length fs) % c.servers =
      ap (λ s. server_after c' s (length fs)) first
      ∙ server_after-turns c' c.recent_leader_id (length fs) in
    put_append_loop-retries c' args c.recent_leader_id fs rest fail
    ∙ ap
        (λ ss. (
          to_all args ss,
          some (record c' { recent_leader_id = server_after c' c.recent_leader_id (length fs) }),
        ))
        servers
    ∙ ap
        (λ l. (
          to_all args (turns c.servers c.recent_leader_id (suc (length fs))),
          some (record c' { recent_leader_id = l }),
        ))
        last
