-- ===== src/Program.antt =====
-- The program from its command line to its exit: src/main.rs, and `Node` with the contexts of its two
-- kinds in src/node.rs. What other crates do at the start of a node is the record `Outside`; how the
-- tasks of a node end is an argument. There is one cancellation token, which all contexts share.
pub mod Starting
pub mod Outcome
pub mod Stops
pub mod Shutdown
pub mod Quiet
mod Tests
use Prim.Native.String.{String}
use mathlib.Core.Option
use p2pradio.Prelude.{ℕ, Option, none, some, List, [], ◌∷◌, Bool, true, false, Result, ok, err}
use p2pradio.Errors.{Foreign, AppError, TaskRet}
use p2pradio.Network.{Network}
use p2pradio.Channel.{Mpsc, Broadcast}
use p2pradio.Codec.{Message}
use p2pradio.Swarm.{Swarm}
use p2pradio.Swarm.Building.{Libp2p, build_swarm}
use p2pradio.Swarm.Services.{
  StreamerSwarmService, ListenerSwarmService, new_streamer_swarm, new_listener_swarm,
  streamer_peer_id, listener_peer_id,
}
use p2pradio.Rpc.{InfoRpcImpl}
use p2pradio.Cli.{Cli, Variant, listener, streamer}
use p2pradio.Encoder.{new as new_encoding_backend}
use p2pradio.Node.{
  StreamerTask, ListenerTask, run_streamer_node, run_listener_node, StreamerServerService,
  ListenerServerService, start_info_server, new_streamer_server, create_listener_server,
  new_streamer_node, new_listener_node, start, start_listener, Halt,
}

-- sockets, jsonrpsee's server, libp2p, channels of a capacity, and GStreamer's pipelines
pub record Outside {F : Foreign} (N : Network F) (M : Mpsc Message) (A : Mpsc (List ℕ))
    (B : Broadcast (List ℕ)) : Type 1 where
  pub SocketAddr : Type 0
  pub TcpListener : Type 0
  pub bind : SocketAddr → Result TcpListener F.IoError
  pub RpcServer : Type 0
  pub ServerHandle : Type 0
  pub build : SocketAddr → Result RpcServer F.IoError
  pub server_addr : RpcServer → Result SocketAddr F.IoError
  pub start_server : RpcServer → InfoRpcImpl N.PeerId → ServerHandle
  pub new_topic : List ℕ → N.Topic
  pub libp2p : Libp2p N
  -- the new identity
  pub key : libp2p.Key
  pub listening : Result (Unit {0}) String
  pub gossip_channel : ℕ → M.Chan
  pub audio_channel : ℕ → A.Chan
  pub broadcast_channel : ℕ → B.Chan
  pub Encoding : Type 0
  pub Decoding : Type 0
  pub init_gst : Result (Unit {0}) F.AnyhowError
  pub create_icecast_pipeline : List ℕ → Result Encoding F.AnyhowError
  -- `none` is a panic
  pub new_decoding_backend : B.Chan → Option (Result Decoding F.AnyhowError)

module _ {F : Foreign} {N : Network F} {M : Mpsc Message} {A : Mpsc (List ℕ)}
    {B : Broadcast (List ℕ)} (O : Outside N M A B) where
  open O use {SocketAddr, TcpListener, ServerHandle, Encoding, Decoding}

  -- what the builder chain of `init_swarm` returns
  abbrev pub built : Result (Swarm N) F.BehaviourBuilderError
  built = build_swarm O.libp2p O.key

  pub record StreamerNodeCtx : Type 0 where
    pub topic : N.Topic
    pub url : List ℕ
    pub rpc_addr : SocketAddr
    pub http_addr : SocketAddr

  pub record ListenerNodeCtx : Type 0 where
    pub topic : N.Topic
    pub rpc_addr : SocketAddr
    pub listener_addr : SocketAddr
    pub streamer_peer_id : N.PeerId

  -- the swarm, the server and the backend of a streamer
  abbrev pub StreamerNode : Type 0
  StreamerNode =
      StreamerSwarmService N M × StreamerServerService F TcpListener ServerHandle × Encoding

  -- the swarm and the server of a listener
  abbrev pub ListenerNode : Type 0
  ListenerNode =
      ListenerSwarmService N M × ListenerServerService F A B Decoding TcpListener ServerHandle

  -- `StreamerNode::new`
  unfoldable pub new_streamer : StreamerNodeCtx → Result StreamerNode (AppError F)
  new_streamer ctx =
      new_streamer_node F
        (new_streamer_swarm N M built O.listening ctx.topic (O.gossip_channel 100))
        (λ swarm_service. new_streamer_server F (O.bind ctx.http_addr) (
          start_info_server F (O.build ctx.rpc_addr) O.server_addr (λ server.
            O.start_server server (record { peer_id = streamer_peer_id N M swarm_service }))))
        (new_encoding_backend F O.init_gst O.create_icecast_pipeline ctx.url)

  -- `ListenerNode::new`
  unfoldable pub new_listener : ListenerNodeCtx → Result ListenerNode (Halt F)
  new_listener ctx =
      new_listener_node F
        (new_listener_swarm N M built O.listening ctx.topic (O.gossip_channel 100)
          ctx.streamer_peer_id)
        (λ swarm_service.
          create_listener_server F A B O.audio_channel O.broadcast_channel
            (O.bind ctx.listener_addr) O.new_decoding_backend
            (start_info_server F (O.build ctx.rpc_addr) O.server_addr (λ server.
              O.start_server server (record { peer_id = listener_peer_id N M swarm_service }))))

  pub record Node : Type 0 where
    pub topic : N.Topic
    pub rpc_addr : SocketAddr
    pub http_addr : SocketAddr
    pub variant : Variant N.PeerId

  -- `Node::new`
  unfoldable pub new_node :
      N.Topic → SocketAddr → SocketAddr → Variant N.PeerId → Result Node (AppError F)
  new_node topic rpc_addr http_addr variant =
      ok (record { topic = topic; rpc_addr = rpc_addr; http_addr = http_addr; variant = variant })

  -- what `tracing::error!` logs at the end
  pub data Logged : Type 0 where
    finished_unexpectedly : Logged
    program_panic : AppError F → Logged

  -- The process's result, what it logged, and whether it cancelled the token at the end.
  pub record Exit : Type 0 where
    pub result : Result (Unit {0}) (AppError F)
    pub logged : List Logged
    pub cancelled : Bool

  -- the `match` on what the node returned
  unfoldable pub report : TaskRet F (AppError F) → List Logged
  report none = []
  report (some (ok v)) = finished_unexpectedly ∷ []
  report (some (err e)) = program_panic e ∷ []

  module _ (streamer_ends : StreamerNode → StreamerTask F)
      (listener_ends : ListenerNode → ListenerTask F) where
    -- the `match` of `Node::start`; `none` is a panic
    unfoldable pub start_variant : Variant N.PeerId → Node → Option (TaskRet F (AppError F))
    start_variant (streamer s) node = some (
        start F
          (new_streamer (record {
            topic = node.topic;
            url = s.url;
            rpc_addr = node.rpc_addr;
            http_addr = node.http_addr;
          }))
          (λ n. run_streamer_node F (streamer_ends n)))
    start_variant (listener l) node =
        start_listener F
          (new_listener (record {
            topic = node.topic;
            rpc_addr = node.rpc_addr;
            listener_addr = node.http_addr;
            streamer_peer_id = l.streamer_peer_id;
          }))
          (λ n. run_listener_node F (listener_ends n))

    -- `Node::start`
    unfoldable pub start_node : Node → Option (TaskRet F (AppError F))
    unfolding start_variant
    start_node node = start_variant node.variant node

    -- from `Node::new` on, where `?` returns its error; a panic ends the process without an `Exit`
    unfoldable pub run_program : Result Node (AppError F) → Option Exit
    run_program (err e) = some (record { result = err e; logged = []; cancelled = false })
    run_program (ok node) =
        Option.map {B = Exit}
          (λ ret. record { result = ok tt; logged = report ret; cancelled = true })
          (start_node node)

    unfoldable pub main : Cli N.PeerId SocketAddr → Option Exit
    unfolding run_program new_node
    main cli = elim cli.topic [
      | none ↦ some (record {
        result = err (AppError.other "missing --topic");
        logged = [];
        cancelled = false;
      })
      | some topic ↦ run_program (new_node (O.new_topic topic) cli.rpc cli.http cli.command)
    ]
