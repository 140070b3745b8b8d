-- ===== src/Rpc/Framing.antt =====
-- rpc/mprpcchannel.cpp and rpc/rpcprovider.cpp: what becomes of a request on its way.
use kv_my.Common.{
  ℕ, zero, suc, ◌/◌, ◌%◌, ◌≤◌, ◌<◌, ◌≡◌, refl, ap, ◌∙◌, List, [], ◌∷◌, ◌++◌, Option, none, some,
  inl, inr, arith, length, length-append, take, drop, Bool-cases,
}
use kv_my.Common.Int.{pos, minus_one, ◌==ℤ◌}
use kv_my.Common.Bytes.{Bytes, bytes_eq_refl}
use kv_my.Common.Maps.{lookup, bytes_key}
use kv_my.Rpc.State.{RpcHeader, Protobuf, IsProtobuf}
use kv_my.Rpc.Channel.{
  Channel, Controller, Attempt, Send, sent, send_failed, Recv, recv_failed, received, le_bytes,
  frame, new_connect, send_loop, call_header, call_args, call_method, receive, parse_reply,
}
use kv_my.Rpc.Methods.{lookup-add_methods}
use kv_my.Rpc.Provider.{
  Services, insert_missing, add_methods, notify_service, read_args, read_request, find_method,
  on_message,
}

take-append_all :
    (xs ys : Bytes) → (take (length xs) (xs ++ ys) ≡ xs) × (drop (length xs) (xs ++ ys) ≡ ys)
take-append_all [] ys = (refl, refl)
take-append_all (x ∷ xs) ys = let rest = take-append_all xs ys in (ap (◌∷◌ x) rest.0, rest.1)

take_all : (xs : Bytes) → take (length xs) xs ≡ xs
take_all [] = refl
take_all (x ∷ xs) = ap (◌∷◌ x) (take_all xs)

module _ {S M Req Resp : Type 0} (pb : Protobuf S M Req Resp) (is : IsProtobuf pb) where
  -- A header is refused whose first byte is a zero.
  zero_first :
      (n : ℕ) (bytes : Bytes)
      → 0 < n
      → n ≤ length (0 ∷ bytes)
      → pb.parse_header (pb.read_string n (0 ∷ bytes)).0 ≡ none
  zero_first zero bytes has le = absurd (omega arith)
  zero_first (suc n) bytes has le =
      rw (is.read_string-take (suc n) (0 ∷ bytes) le) (is.parse_header-zero (take n bytes))

  -- The provider reads the first of the four bytes as the size, and three zeros as the header.
  frame-dropped :
      (services : Services S M) (header args : Bytes)
      → 0 < length header
      → length header < 128
      → on_message pb services (frame header args) ≡ none
  unfolding on_message read_request frame le_bytes
  frame-dropped services header args has small =
      let n = length header in
      let b0 : n % 256 ≡ n = omega arith in
      let b1 : n / 256 % 256 ≡ 0 = omega arith in
      let b2 : n / 65536 % 256 ≡ 0 = omega arith in
      let b3 : n / 16777216 % 256 ≡ 0 = omega arith in
      rw (b0, b1, b2, b3, is.read_varint32-byte n (0 ∷ 0 ∷ 0 ∷ (header ++ args)) small)
        (rw (
          zero_first n (0 ∷ 0 ∷ (header ++ args)) has
            (omega (arith, length-append {0} header args))))

  parse_reply-request :
      (request f : Bytes) (c : Channel) (ctl : Controller) (o : Option Resp)
      → (parse_reply pb request c ctl o).request ≡ some f
      → f ≡ request
  unfolding parse_reply
  parse_reply-request request f c ctl none e = cc
  parse_reply-request request f c ctl (some r) e = cc

  -- What the loop of `send` sends is the request.
  send_loop-request :
      (request f : Bytes) (sends : List Send) (answer : Recv) (c : Channel) (ctl : Controller)
      → (send_loop pb request sends answer c ctl).request ≡ some f
      → f ≡ request
  unfolding send_loop receive
  send_loop-request request f [] answer c ctl e = cc
  send_loop-request request f (sent ∷ sends) recv_failed c ctl e = cc
  send_loop-request request f (sent ∷ sends) (received bytes) c ctl e =
      parse_reply-request request f c ctl (pb.parse_response (take 1024 bytes)) e
  send_loop-request request f (send_failed a ∷ sends) answer c ctl e =
      elim (Bool-cases (new_connect a (record c { client_fd = minus_one })).0) [
        | inl done ↦
            send_loop-request request f sends answer
              (new_connect a (record c { client_fd = minus_one })).1 ctl (rw done at e)
        | inr lost ↦ absurd (let n = rw lost at e in cc)
      ]

  call_args-request :
      (service method args header f : Bytes) (sends : List Send) (answer : Recv) (c : Channel)
      (ctl : Controller)
      → pb.serialize_header
          (record { service_name = service; method_name = method; args_size = length args })
        ≡ some header
      → (call_args pb service method (some args) sends answer c ctl).request ≡ some f
      → f ≡ frame header args
  unfolding call_args call_header
  call_args-request service method args header f sends answer c ctl made e =
      send_loop-request (frame header args) f sends answer c ctl (rw made at e)

  call_method-request :
      (service method args header f : Bytes) (again : Attempt) (sends : List Send) (answer : Recv)
      (c : Channel) (ctl : Controller)
      → pb.serialize_header
          (record { service_name = service; method_name = method; args_size = length args })
        ≡ some header
      → (call_method pb service method (some args) again sends answer c ctl).request ≡ some f
      → f ≡ frame header args
  unfolding call_method
  call_method-request service method args header f again sends answer c ctl made e =
      elim (Bool-cases (c.client_fd ==ℤ pos 1)) [
        | inl one ↦ elim (Bool-cases (new_connect again c).0) [
          | inl done ↦
              call_args-request service method args header f sends answer (new_connect again c).1
                ctl made (rw (one, done) at e)
          | inr lost ↦ absurd (let n = rw (one, lost) at e in cc)
        ]
        | inr other ↦
            call_args-request service method args header f sends answer c ctl made (rw other at e)
      ]

  -- Whatever a call sends for a header of 1 to 127 bytes, the provider drops it: no service is
  -- called, whichever services are registered.
  pub call_method-dropped :
      (services : Services S M) (service method args header f : Bytes) (again : Attempt)
      (sends : List Send) (answer : Recv) (c : Channel) (ctl : Controller)
      → pb.serialize_header
          (record { service_name = service; method_name = method; args_size = length args })
        ≡ some header
      → 0 < length header
      → length header < 128
      → (call_method pb service method (some args) again sends answer c ctl).request ≡ some f
      → on_message pb services f ≡ none
  call_method-dropped services service method args header f again sends answer c ctl made has small
        e =
      rw (call_method-request service method args header f again sends answer c ctl made e)
        (frame-dropped services header args has small)

  -- The request of a message with the size of the header as one byte.
  framed_request :
      (h : RpcHeader) (header args : Bytes)
      → length header < 128
      → pb.parse_header header ≡ some h
      → h.args_size ≡ length args
      → read_request pb (length header ∷ (header ++ args)) ≡ some (h, args)
  unfolding read_request read_args
  framed_request h header args small parsed sized =
      let (front, back) = take-append_all header args in
      let le : length header ≤ length (header ++ args) =
        omega (arith, length-append {0} header args) in
      rw (
        is.read_varint32-byte (length header) (header ++ args) small,
        is.read_string-take (length header) (header ++ args) le,
        front,
        back,
        parsed,
        sized,
        is.read_string-take (length args) args (omega arith),
        take_all args,
      )

  -- A service that is registered under a new name is called for a message with the size of the
  -- header as one byte, the header, and the arguments: with the method of the header's name and the
  -- request that the arguments parse to.
  pub on_message-calls :
      (services : Services S M) (s : S) (h : RpcHeader) (header args : Bytes) (m : M) (r : Req)
      → lookup services (pb.name_of s) ≡ none
      → length header < 128
      → pb.parse_header header ≡ some h
      → h.service_name ≡ pb.name_of s
      → h.args_size ≡ length args
      → lookup (pb.methods_of s) h.method_name ≡ some m
      → pb.parse_request s m args ≡ some r
      → on_message pb (notify_service pb services s) (length header ∷ (header ++ args))
        ≡ some (s, m, r)
  on_message-calls services s h header args m r new small parsed named sized has_method request =
      let methods : lookup (add_methods [] (pb.methods_of s)) h.method_name ≡ some m =
        lookup-add_methods [] (pb.methods_of s) h.method_name ∙ has_method in
      let target : find_method pb (notify_service pb services s) h ≡ some (s, m) =
        unfold find_method notify_service insert_missing in
        rw (new, named, bytes_eq_refl (pb.name_of s), methods) in
      unfold on_message in rw (framed_request h header args small parsed sized, target, request)
