-- ===== src/Rpc/Tests.antt =====
-- A call of one service over the network.
use kv_my.Common.{
  ℕ, ◌≤◌, ◌≡◌, refl, [], ◌∷◌, Option, none, some, Bool, true, false, arith, length, take, drop, leb,
  le→leb, ◌==◌, if◌then◌else◌,
}
use kv_my.Common.Int.{pos, minus_one}
use kv_my.Common.Bytes.{Bytes, bytes_eq}
use kv_my.Common.Maps.{lookup, bytes_key}
use kv_my.Rpc.State.{RpcHeader, Protobuf, IsProtobuf}
use kv_my.Rpc.Channel.{
  Channel, Controller, sent, send_failed, received, frame, le_bytes, call_method, call_args,
  call_header, send_loop, receive, parse_reply, new_connect, answered, init, connect_loop,
}
use kv_my.Rpc.Provider.{notify_service, on_message}
use kv_my.Rpc.Framing.{call_method-dropped, on_message-calls}

-- A header is a 1, the names of one byte each, and the size.
abbrev small_header : Bytes → Option RpcHeader
small_header (a ∷ s ∷ m ∷ n ∷ []) =
    if a == 1
    then some (record { service_name = s ∷ []; method_name = m ∷ []; args_size = n })
    else none
small_header bytes = none

abbrev first_byte : Bytes → ℕ × Bytes
first_byte [] = (0, [])
first_byte (b ∷ rest) = (b, rest)

abbrev read_bytes : ℕ → Bytes → Bytes × Bytes × Bool
read_bytes n bytes =
    if leb n (length bytes) then (take n bytes, drop n bytes, true) else (bytes, [], false)

-- The service 83 has the method 109.
abbrev small_rpc : Protobuf ℕ ℕ Bytes Bytes
small_rpc = record {
  name_of = λ s. s ∷ [];
  methods_of = λ s. (109 ∷ [], 7) ∷ [];
  read_varint32 = first_byte;
  read_string = read_bytes;
  serialize_header = λ h. some (1 ∷ 83 ∷ 109 ∷ h.args_size ∷ []);
  parse_header = small_header;
  parse_request = λ s m bytes. some bytes;
  parse_response = λ bytes. some bytes;
}

read_bytes-take :
    (n : ℕ) (bytes : Bytes)
    → n ≤ length bytes
    → read_bytes n bytes ≡ (take n bytes, drop n bytes, true)
read_bytes-take n bytes le = rw (le→leb n (length bytes) le)

small_header-zero : (bytes : Bytes) → small_header (0 ∷ bytes) ≡ none
small_header-zero [] = refl
small_header-zero (a ∷ []) = refl
small_header-zero (a ∷ b ∷ []) = refl
small_header-zero (a ∷ b ∷ c ∷ []) = refl
small_header-zero (a ∷ b ∷ c ∷ d ∷ bytes) = refl

small_rpc-IsProtobuf : IsProtobuf small_rpc
small_rpc-IsProtobuf = record {
  read_varint32-byte = λ b rest lt. refl;
  read_string-take = read_bytes-take;
  parse_header-zero = small_header-zero;
}

abbrev connected : Channel
connected = record { client_fd = pos 5 }

abbrev calm : Controller
calm = record { failed = false }

-- A send fails, the channel connects again, and the answer comes.
retried :
    call_method small_rpc
      (83 ∷ [])
      (109 ∷ [])
      (some (42 ∷ []))
      (record { socket_fd = pos 9; connected = pos 0 })
      (send_failed (record { socket_fd = pos 6; connected = pos 0 }) ∷ sent ∷ [])
      (received (77 ∷ []))
      connected
      calm
    ≡ record {
      reply = answered (77 ∷ []);
      channel = record { client_fd = pos 6 };
      controller = calm;
      request = some (4 ∷ 0 ∷ 0 ∷ 0 ∷ 1 ∷ 83 ∷ 109 ∷ 1 ∷ 42 ∷ []);
    }
unfolding call_method call_args call_header send_loop receive parse_reply new_connect frame le_bytes
retried = refl

-- Three attempts fail and the fourth connects.
fourth :
    init true (
      record { socket_fd = pos 4; connected = minus_one }
      ∷ record { socket_fd = minus_one; connected = pos 0 }
      ∷ record { socket_fd = pos 4; connected = minus_one }
      ∷ record { socket_fd = pos 8; connected = pos 0 }
      ∷ [])
    ≡ record { client_fd = pos 8 }
unfolding init connect_loop new_connect
fourth = refl

call_method-dropped_example :
    on_message small_rpc
      (notify_service small_rpc [] 83)
      (4 ∷ 0 ∷ 0 ∷ 0 ∷ 1 ∷ 83 ∷ 109 ∷ 1 ∷ 42 ∷ [])
    ≡ none
call_method-dropped_example =
    call_method-dropped small_rpc small_rpc-IsProtobuf (notify_service small_rpc [] 83) (83 ∷ [])
      (109 ∷ []) (42 ∷ []) (1 ∷ 83 ∷ 109 ∷ 1 ∷ []) (4 ∷ 0 ∷ 0 ∷ 0 ∷ 1 ∷ 83 ∷ 109 ∷ 1 ∷ 42 ∷ [])
      (record { socket_fd = pos 9; connected = pos 0 }) (sent ∷ []) (received (77 ∷ [])) connected
      calm refl (omega arith) (omega arith) request
  where
    request :
        (call_method small_rpc
          (83 ∷ [])
          (109 ∷ [])
          (some (42 ∷ []))
          (record { socket_fd = pos 9; connected = pos 0 })
          (sent ∷ [])
          (received (77 ∷ []))
          connected
          calm).request
        ≡ some (4 ∷ 0 ∷ 0 ∷ 0 ∷ 1 ∷ 83 ∷ 109 ∷ 1 ∷ 42 ∷ [])
    request =
        unfold call_method call_args call_header send_loop receive parse_reply frame le_bytes in
        refl

on_message-calls_example :
    on_message small_rpc (notify_service small_rpc [] 83) (4 ∷ 1 ∷ 83 ∷ 109 ∷ 1 ∷ 42 ∷ [])
    ≡ some (83, 7, 42 ∷ [])
on_message-calls_example =
    on_message-calls small_rpc small_rpc-IsProtobuf [] 83
      (record { service_name = 83 ∷ []; method_name = 109 ∷ []; args_size = 1 })
      (1 ∷ 83 ∷ 109 ∷ 1 ∷ []) (42 ∷ []) 7 (42 ∷ []) refl (omega arith) refl refl refl has_method
      refl
  where
    has_method : lookup {K = Bytes} {V = ℕ} ((109 ∷ [], 7) ∷ []) (109 ∷ []) ≡ some 7
    has_method = unfold bytes_eq in refl
