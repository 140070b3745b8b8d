-- ===== src/Clerk/Tests.antt =====
-- The retries of a concrete clerk.
use kv_my.Common.{◌≡◌, arith, none, some, Option, [], ◌∷◌}
use kv_my.KvServer.State.{GetReply, no_error, err_wrong_leader, put_name}
use kv_my.Clerk.{Clerk, put_append}
use kv_my.Clerk.Retries.{to_all, turns, put_append-retries}

-- Three servers, of which the last leader is the last.
abbrev clerk : Clerk
clerk = record { servers = 3; client_id = 9 ∷ []; request_id = 4; recent_leader_id = 2 }

abbrev no_leader : Option GetReply
no_leader = some (record { err = err_wrong_leader; value = [] })

put_append-retries_example :
    put_append clerk (1 ∷ []) (2 ∷ []) put_name (none ∷ some no_error ∷ []) ≡ (
      to_all
          (record {
            key = 1 ∷ [];
            value = 2 ∷ [];
            op = put_name;
            client_id = 9 ∷ [];
            request_id = 5;
          })
          (2 ∷ 0 ∷ []),
      some (record { servers = 3; client_id = 9 ∷ []; request_id = 5; recent_leader_id = 0 }),
    )
unfolding turns
put_append-retries_example =
    put_append-retries clerk (1 ∷ []) (2 ∷ []) put_name (none ∷ []) [] (omega arith) (tt, tt)
