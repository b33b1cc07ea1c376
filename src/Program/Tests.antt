-- ===== src/Program/Tests.antt =====
-- The program of Program.antt over the network of Network/Tables.antt: addresses are numbers, and 13
-- is taken.
mod Stopping
use p2pradio.Prelude.{
  ℕ, ◌≡◌, ◌⊎◌, refl, none, some, List, [], ◌∷◌, false, Result, ok, err, ◌==◌, if◌then◌else◌,
}
use p2pradio.Errors.{AppError}
use p2pradio.Network.Tables.{texts, tables}
use p2pradio.Channel.{Mpsc, Broadcast}
use p2pradio.Channel.Logs.{log_mpsc, log_broadcast}
use p2pradio.Codec.{Message}
use p2pradio.Swarm.Building.{Libp2p, ValidationMode}
use p2pradio.Rpc.{InfoRpcImpl}
use p2pradio.Cli.{
  Cli, Listener, Streamer, Eyre, listener, streamer, socketaddr_value_parser, quoted,
}
use p2pradio.Encoder.{run, main_loop_ended}
use p2pradio.Node.{
  StreamerTask, ListenerTask, run_streamer_node, run_listener_node, panicked, failed,
}
use Prim.Native.String.{String}
use p2pradio.Program.{
  Outside, StreamerNode, ListenerNode, StreamerNodeCtx, ListenerNodeCtx, Logged, program_panic,
  main,
}
use p2pradio.Program.Starting.{IsStreamer, StreamerFails, IsListener, ListenerFails}
use p2pradio.Program.Outcome.{IsReport, ends_with, main_streamer, main_listener}

abbrev pub M : Mpsc Message
M = log_mpsc Message

abbrev pub A : Mpsc (List ℕ)
A = log_mpsc (List ℕ)

abbrev pub B : Broadcast (List ℕ)
B = log_broadcast (List ℕ) 100

abbrev pub open_socket : ℕ → Result ℕ ℕ
open_socket address = if address == 13 then err 98 else ok address

abbrev libp2p_tables : Libp2p tables
libp2p_tables = record {
  Key = ℕ;
  PublicKey = ℕ;
  public = λ key. key;
  to_peer_id = λ key. key;
  Config = ValidationMode;
  ConfigError = ℕ;
  build_config = λ names mode. ok mode;
  io_other = λ e. e;
  GossipsubError = ℕ;
  new_gossipsub = λ authenticity config.
      ok (record { explicit = λ q. false; blacklisted = λ q. false; log = [] });
  Identify = ℕ;
  new_identify = λ key. key;
  Ping = ℕ;
  new_ping = 0;
  Mdns = ℕ;
  new_mdns = λ peer. ok peer;
  Kademlia = ℕ;
  new_kademlia = λ peer. peer;
  Boxed = ℕ;
  from_io = λ e. e;
  from_gossipsub = λ e. e;
  builder_error = λ e. e;
}

abbrev pub outside : Outside tables M A B
outside = record {
  SocketAddr = ℕ;
  TcpListener = ℕ;
  bind = open_socket;
  RpcServer = ℕ;
  ServerHandle = ℕ × InfoRpcImpl ℕ;
  build = open_socket;
  server_addr = λ server. ok server;
  start_server = λ server methods. (server, methods);
  new_topic = λ text. 5;
  libp2p = libp2p_tables;
  key = 7;
  listening = ok tt;
  gossip_channel = λ capacity. ([], false);
  audio_channel = λ capacity. ([], false);
  broadcast_channel = λ capacity. [];
  Encoding = List ℕ;
  Decoding = ℕ;
  init_gst = ok tt;
  create_icecast_pipeline = λ url. ok url;
  new_decoding_backend = λ dec_tx. some (ok 1);
}

-- both nodes are cancelled; in the streamer's the encoder ends first
abbrev pub encoder_first : StreamerNode outside → StreamerTask texts
encoder_first node = StreamerTask.backend (ok (run texts main_loop_ended))

abbrev pub swarm_first : ListenerNode outside → ListenerTask texts
swarm_first node = ListenerTask.swarm (ok none)

abbrev icecast : Streamer
icecast = record { url = b'u' ∷ [] }

abbrev on_air_args : Cli ℕ ℕ
on_air_args = record {
  command = streamer icecast;
  rpc = 7890;
  http = 10909;
  topic = some (b't' ∷ []);
}

abbrev streamer_ctx : StreamerNodeCtx outside
streamer_ctx = record { topic = 5; url = b'u' ∷ []; rpc_addr = 7890; http_addr = 10909 }

main_streamer_example :
    ((n : StreamerNode outside) × (log : List (Logged outside)) × IsStreamer outside streamer_ctx n
      × IsReport outside (run_streamer_node texts (encoder_first n)) log
      × (main outside encoder_first swarm_first on_air_args ≡ some (ends_with outside log)))
    ⊎ ((e : AppError texts) × StreamerFails outside streamer_ctx e
        × (main outside encoder_first swarm_first on_air_args
            ≡ some (ends_with outside (program_panic e ∷ []))))
main_streamer_example =
    main_streamer outside encoder_first swarm_first on_air_args (b't' ∷ []) icecast refl refl

abbrev pub fan : Listener ℕ
fan = record { streamer_peer_id = 1 }

-- the HTTP address is taken
abbrev pub fan_args : Cli ℕ ℕ
fan_args = record { command = listener fan; rpc = 7890; http = 13; topic = some (b't' ∷ []) }

abbrev listener_ctx : ListenerNodeCtx outside
listener_ctx = record { topic = 5; rpc_addr = 7890; listener_addr = 13; streamer_peer_id = 1 }

main_listener_example :
    ((n : ListenerNode outside) × (log : List (Logged outside)) × IsListener outside listener_ctx n
      × IsReport outside (run_listener_node texts (swarm_first n)) log
      × (main outside encoder_first swarm_first fan_args ≡ some (ends_with outside log)))
    ⊎ ((e : AppError texts) × ListenerFails outside listener_ctx (failed e)
        × (main outside encoder_first swarm_first fan_args
            ≡ some (ends_with outside (program_panic e ∷ []))))
    ⊎ (ListenerFails outside listener_ctx panicked
        × (outside.new_decoding_backend [] ≡ none)
        × (main outside encoder_first swarm_first fan_args ≡ none))
main_listener_example =
    main_listener outside encoder_first swarm_first fan_args (b't' ∷ []) fan refl refl

-- An error of `eyre` as its texts, the innermost first.
abbrev reports : Eyre texts
reports = record {
  Report = List (List ℕ);
  msg = λ text. text ∷ [];
  from_io = λ e. (e ∷ []) ∷ [];
  wrap_err = λ report text. text ∷ report;
}

abbrev nowhere : List ℕ → Result (List ℕ) ℕ
nowhere value = err 2

unresolved :
    socketaddr_value_parser reports nowhere (b'h' ∷ []) ≡ err (quoted (b'h' ∷ []) ∷ (2 ∷ []) ∷ [])
unfolding socketaddr_value_parser
unresolved = refl
