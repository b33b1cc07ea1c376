-- ===== src/Cli.antt =====
-- The command line of src/cli.rs: what clap parses it into, and the parser of socket addresses. Texts
-- are lists of scalar values. Name resolution and `eyre::Error` are parameters.
pub mod Addresses
use p2pradio.Prelude.{ℕ, Option, none, some, List, [], ◌∷◌, ◌++◌, Result, ok, err}
use p2pradio.Errors.{Foreign}
use p2pradio.Ogg.{ok_or}

pub record Listener (PeerId : Type 0) : Type 0 where
  pub streamer_peer_id : PeerId

pub record Streamer : Type 0 where
  pub url : List ℕ

pub data Variant (PeerId : Type 0) : Type 0 where
  listener : Listener PeerId → Variant PeerId
  streamer : Streamer → Variant PeerId

pub record Cli (PeerId SocketAddr : Type 0) : Type 0 where
  pub command : Variant PeerId
  pub rpc : SocketAddr
  pub http : SocketAddr
  pub topic : Option (List ℕ)

-- `eyre::Error`
pub record Eyre (F : Foreign) : Type 1 where
  pub Report : Type 0
  pub msg : List ℕ → Report
  pub from_io : F.IoError → Report
  pub wrap_err : Report → List ℕ → Report

-- `iter.next()`
abbrev pub next : {A : Type 0} → List A → Option A
next [] = none
next (a ∷ rest) = some a

-- `format!("\"{value}\"")`
abbrev pub quoted : List ℕ → List ℕ
quoted value = b'"' ∷ value ++ b'"' ∷ []

module _ {F : Foreign} (Y : Eyre F) {SocketAddr : Type 0} where
  -- the argument is `value.to_socket_addrs()`
  unfoldable pub socketaddr_value_parser :
      (List ℕ → Result (List SocketAddr) F.IoError) → List ℕ → Result SocketAddr Y.Report
  socketaddr_value_parser to_socket_addrs value = elim (to_socket_addrs value) [
    | ok iter ↦ ok_or (next iter) (Y.msg (quoted value))
    | err e ↦ err (Y.wrap_err (Y.from_io e) (quoted value))
  ]
