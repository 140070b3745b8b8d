-- ===== src/Rpc/Provider.antt =====
-- rpc/rpcprovider.cpp: the registered services and the dispatch of a request. What `Run` does with
-- addresses, files and the event loop is left out.
use kv_my.Common.{List, [], ◌∷◌, Option, none, some, if◌then◌else◌}
use kv_my.Common.Bytes.{Bytes}
use kv_my.Common.Maps.{lookup, bytes_key}
use kv_my.Rpc.State.{RpcHeader, Protobuf, ◌>>=◌}

pub record ServiceInfo (S M : Type 0) : Type 0 where
  pub service : S
  pub method_map : List (Bytes × M)

-- `m_serviceMap`.
abbrev pub Services : Type 0 → Type 0 → Type 0
Services S M = List (Bytes × ServiceInfo S M)

-- `insert` of a map: a key that is there keeps its value.
unfoldable pub insert_missing :
    {V : Type 0} → Bytes → V → Option V → List (Bytes × V) → List (Bytes × V)
insert_missing k v none m = (k, v) ∷ m
insert_missing k v (some old) m = m

unfoldable pub add_methods : {M : Type 0} → List (Bytes × M) → List (Bytes × M) → List (Bytes × M)
add_methods m [] = m
add_methods m (p ∷ ps) = add_methods (insert_missing p.0 p.1 (lookup m p.0) m) ps

module _ {S M Req Resp : Type 0} (pb : Protobuf S M Req Resp) where
  unfoldable pub notify_service : Services S M → S → Services S M
  notify_service services s =
      insert_missing (pb.name_of s)
        (record { service = s; method_map = add_methods [] (pb.methods_of s) })
        (lookup services (pb.name_of s)) services

  unfoldable pub read_args : RpcHeader → Bytes → Option (RpcHeader × Bytes)
  read_args header rest =
      let read = pb.read_string header.args_size rest in
      if read.2 then some (header, read.0) else none

  -- The size of the header, the header, and the arguments.
  unfoldable pub read_request : Bytes → Option (RpcHeader × Bytes)
  read_request recv_buf = do
    let size = pb.read_varint32 recv_buf
    let read = pb.read_string size.0 size.1
    header ← pb.parse_header read.0
    read_args header read.1

  unfoldable pub find_method : Services S M → RpcHeader → Option (S × M)
  find_method services header = do
    info ← lookup services header.service_name
    method ← lookup info.method_map header.method_name
    some (info.service, method)

  -- The call of a service that a request ends in; `none` where the request is dropped.
  unfoldable pub on_message : Services S M → Bytes → Option (S × M × Req)
  on_message services recv_buf = do
    request ← read_request recv_buf
    target ← find_method services request.0
    args ← pb.parse_request target.0 target.1 request.1
    some (target.0, target.1, args)
