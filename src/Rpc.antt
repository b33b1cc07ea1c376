-- ===== src/Rpc.antt =====
-- The JSON-RPC servers of src/rpc/info.rs and src/rpc/listener.rs, and the error codes of
-- src/rpc/json.rs. An `i32` is a signed number; of its bounds nothing is used. `RpcResult` has
-- jsonrpsee's error.
pub mod Codes
use Prim.Native.String.{String}
use p2pradio.Prelude.{
  ℕ, suc, ◌+◌, ◌≤◌, Bool, leb, ◌&&◌, if◌then◌else◌, Option, none, some, Result, ok, err,
}

-- `negsuc n` is -(n + 1)
pub data ℤ : Type 0 where
  pos : ℕ → ℤ
  negsuc : ℕ → ℤ

abbrev pub pos_part : ℤ → ℕ
pos_part (pos n) = n
pos_part (negsuc n) = 0

abbrev pub neg_part : ℤ → ℕ
neg_part (pos n) = 0
neg_part (negsuc n) = suc n

infix 50 ◌≤ℤ◌
abbrev pub ◌≤ℤ◌ : ℤ → ℤ → Type 0
a ≤ℤ b = pos_part a + neg_part b ≤ pos_part b + neg_part a

abbrev pub leb_ℤ : ℤ → ℤ → Bool
leb_ℤ a b = leb (pos_part a + neg_part b) (pos_part b + neg_part a)

abbrev pub parse_error : ℤ
parse_error = negsuc 32699

abbrev pub invalid_request : ℤ
invalid_request = negsuc 32599

abbrev pub method_not_found : ℤ
method_not_found = negsuc 32600

abbrev pub invalid_params : ℤ
invalid_params = negsuc 32601

abbrev pub internal_error : ℤ
internal_error = negsuc 32602

-- `server_error`; without a result it panics, which is an error of compilation for a constant
unfoldable pub server_error : ℤ → Option ℤ
server_error code =
    if leb_ℤ (negsuc 32098) code && leb_ℤ code (negsuc 31999) then some code else none

abbrev pub failed_send_file_ref : Option ℤ
failed_send_file_ref = server_error (negsuc 32098)

abbrev pub failed_recv_file_feed : Option ℤ
failed_recv_file_feed = server_error (negsuc 32097)

abbrev pub file_err : Option ℤ
file_err = server_error (negsuc 32096)

pub record InfoRpcImpl (PeerId : Type 0) : Type 0 where
  pub peer_id : PeerId

-- the method `info_peerId`; `to_base58` is the peer's, `E` the error of `RpcResult`
unfoldable pub info_peer_id :
    {PeerId E : Type 0} → (PeerId → String) → InfoRpcImpl PeerId → Result String E
info_peer_id to_base58 self = ok (to_base58 self.peer_id)

pub record ListenerRpcImpl (SocketAddr : Type 0) : Type 0 where
  pub local_addr : SocketAddr

-- the method `listener_localAddr`
unfoldable pub listener_local_addr :
    {SocketAddr E : Type 0} → ListenerRpcImpl SocketAddr → Result SocketAddr E
listener_local_addr self = ok self.local_addr
