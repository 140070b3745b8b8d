-- ===== src/Rpc/State.antt =====
-- rpc/rpcheader.proto, rpc/include/rpcprovider.h and what both sides use of protobuf.
use kv_my.Common.{ℕ, ◌<◌, ◌≤◌, ◌≡◌, List, ◌∷◌, Option, none, some, Bool, true, length, take, drop}
use kv_my.Common.Bytes.{Bytes}

pub record RpcHeader : Type 0 where
  pub service_name : Bytes
  pub method_name : Bytes
  pub args_size : ℕ

-- Services, methods and requests as protobuf sees them. `read_varint32` gives the number and the
-- stream behind it, `read_string` the bytes, the stream behind them and whether all were there.
pub record Protobuf (S M Req Resp : Type 0) : Type 0 where
  pub name_of : S → Bytes
  pub methods_of : S → List (Bytes × M)
  pub read_varint32 : Bytes → ℕ × Bytes
  pub read_string : ℕ → Bytes → Bytes × Bytes × Bool
  pub serialize_header : RpcHeader → Option Bytes
  pub parse_header : Bytes → Option RpcHeader
  pub parse_request : S → M → Bytes → Option Req
  pub parse_response : Bytes → Option Resp

-- What protobuf documents: a byte below 128 is a varint by itself, a string is read if all of its
-- bytes are there, and no message begins with a zero, since no field has the number 0.
pub record IsProtobuf {S M Req Resp : Type 0} (pb : Protobuf S M Req Resp) : Type 0 where
  pub read_varint32-byte :
      (b : ℕ) (rest : Bytes) → b < 128 → pb.read_varint32 (b ∷ rest) ≡ (b, rest)
  pub read_string-take :
      (n : ℕ) (bytes : Bytes)
      → n ≤ length bytes
      → pb.read_string n bytes ≡ (take n bytes, drop n bytes, true)
  pub parse_header-zero : (bytes : Bytes) → pb.parse_header (0 ∷ bytes) ≡ none

infixl 5 ◌>>=◌
abbrev pub ◌>>=◌ : {A B : Type 0} → Option A → (A → Option B) → Option B
none >>= f = none
some a >>= f = f a
