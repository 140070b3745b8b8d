-- ===== src/Rpc/Channel.antt =====
-- rpc/mprpcchannel.cpp and rpc/mprpccontroller.cpp: the caller's side. The results of the system
-- calls are inputs, in the order of the calls. The machine has its low bytes first.
use kv_my.Common.{
  ℕ, zero, suc, ◌/◌, ◌%◌, List, [], ◌∷◌, ◌++◌, Option, none, some, Bool, true, false, length, take,
  if◌then◌else◌,
}
use kv_my.Common.Int.{ℤ, pos, minus_one, ◌==ℤ◌}
use kv_my.Common.Bytes.{Bytes}
use kv_my.Rpc.State.{Protobuf}

-- The texts of the errors are left out.
pub record Controller : Type 0 where
  pub failed : Bool

unfoldable pub reset : Controller → Controller
reset c = record c { failed = false }

unfoldable pub set_failed : Controller → Controller
set_failed c = record c { failed = true }

pub record Channel : Type 0 where
  pub client_fd : ℤ

-- The results of `socket` and `connect`.
pub record Attempt : Type 0 where
  pub socket_fd : ℤ
  pub connected : ℤ

unfoldable pub new_connect : Attempt → Channel → Bool × Channel
new_connect a c =
    if a.socket_fd ==ℤ minus_one
    then (false, record c { client_fd = minus_one })
    else if a.connected ==ℤ minus_one
    then (false, record c { client_fd = minus_one })
    else (true, record c { client_fd = a.socket_fd })

-- The first attempt and `n` more, up to one that succeeds.
unfoldable pub connect_loop : ℕ → List Attempt → Channel → Channel
connect_loop n [] c = c
connect_loop zero (a ∷ later) c = (new_connect a c).1
connect_loop (suc n) (a ∷ later) c =
    let (done, c') = new_connect a c in
    let rest = connect_loop n later c' in if done then c' else rest

unfoldable pub init : Bool → List Attempt → Channel
init false attempts = record { client_fd = minus_one }
init true attempts = connect_loop 3 attempts (record { client_fd = minus_one })

-- One `send`, with the attempt to connect again where it fails.
pub data Send : Type 0 where
  sent : Send
  send_failed : Attempt → Send

pub data Recv : Type 0 where
  recv_failed : Recv
  received : Bytes → Recv

-- `unfinished` is a call that is still sending when the given results end.
pub data Reply (Resp : Type 0) : Type 0 where
  answered : Resp → Reply Resp
  failed : Reply Resp
  unfinished : Reply Resp

-- How a call ends, and what it sent.
pub record Ended (Resp : Type 0) : Type 0 where
  pub reply : Reply Resp
  pub channel : Channel
  pub controller : Controller
  pub request : Option Bytes

unfoldable pub le_bytes : ℕ → Bytes
le_bytes n = (n % 256) ∷ (n / 256 % 256) ∷ (n / 65536 % 256) ∷ (n / 16777216 % 256) ∷ []

-- Four bytes with the size of the header, the header and the arguments.
unfoldable pub frame : Bytes → Bytes → Bytes
frame header args = le_bytes (length header) ++ (header ++ args)

module _ {S M Req Resp : Type 0} (pb : Protobuf S M Req Resp) where
  abbrev failing : Channel → Controller → Option Bytes → Ended Resp
  failing c ctl request = record {
    reply = failed;
    channel = c;
    controller = set_failed ctl;
    request = request;
  }

  unfoldable pub parse_reply : Bytes → Channel → Controller → Option Resp → Ended Resp
  parse_reply request c ctl none = failing c ctl (some request)
  parse_reply request c ctl (some r) = record {
    reply = answered r;
    channel = c;
    controller = ctl;
    request = some request;
  }

  -- The answer is read into a buffer of 1024 bytes.
  unfoldable pub receive : Bytes → Recv → Channel → Controller → Ended Resp
  receive request recv_failed c ctl =
      failing (record c { client_fd = minus_one }) ctl (some request)
  receive request (received bytes) c ctl =
      parse_reply request c ctl (pb.parse_response (take 1024 bytes))

  unfoldable pub send_loop : Bytes → List Send → Recv → Channel → Controller → Ended Resp
  send_loop request [] answer c ctl = record {
    reply = unfinished;
    channel = c;
    controller = ctl;
    request = none;
  }
  send_loop request (sent ∷ sends) answer c ctl = receive request answer c ctl
  send_loop request (send_failed a ∷ sends) answer c ctl =
      let (done, c') = new_connect a (record c { client_fd = minus_one }) in
      let rest = send_loop request sends answer c' ctl in if done then rest else failing c' ctl none

  -- The serialised arguments and then the header.
  unfoldable pub call_header :
      Option Bytes → Bytes → List Send → Recv → Channel → Controller → Ended Resp
  call_header none args sends answer c ctl = failing c ctl none
  call_header (some header) args sends answer c ctl =
      send_loop (frame header args) sends answer c ctl

  unfoldable pub call_args :
      Bytes → Bytes → Option Bytes → List Send → Recv → Channel → Controller → Ended Resp
  call_args service method none sends answer c ctl = failing c ctl none
  call_args service method (some args) sends answer c ctl =
      call_header
        (pb.serialize_header
          (record { service_name = service; method_name = method; args_size = length args }))
        args sends answer c ctl

  -- The first attempt to connect is made where the descriptor is 1.
  unfoldable pub call_method :
      Bytes → Bytes → Option Bytes → Attempt → List Send → Recv → Channel → Controller → Ended Resp
  call_method service method args again sends answer c ctl =
      let (done, c') = new_connect again c in
      if c.client_fd ==ℤ pos 1
      then if done then call_args service method args sends answer c' ctl else failing c' ctl none
      else call_args service method args sends answer c ctl
