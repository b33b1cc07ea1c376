-- ===== src/Node/Tests.antt =====
-- Nodes and servers of src/node.rs and src/rpc/mod.rs that cannot be made, and how nodes end.
use Prim.Native.String.{String}
use p2pradio.Prelude.{ℕ, ◌≡◌, refl, Option, none, some, false, List, [], ok, err, Result}
use p2pradio.Errors.{AppError, TaskRet, task_exited, handle_to_main_handle}
use p2pradio.Network.Tables.{texts}
use p2pradio.Channel.{Mpsc, Broadcast}
use p2pradio.Channel.Logs.{log_mpsc, log_broadcast}
use p2pradio.Node.{
  Halt, panicked, failed, unwinding, ListenerServerService, start, new_streamer_node,
  ListenerServerTask, ListenerTask, run_listener_server, run_listener_node, new_listener_node,
  create_listener_server, new_listener_server, start_info_server,
}
use p2pradio.Node.Making.{made}

-- the RPC server has stopped
stopped_rpc :
    run_listener_node texts
      (ListenerTask.server (ok (run_listener_server texts ListenerServerTask.server_handle)))
    ≡ some (err task_exited)
unfolding run_listener_node run_listener_server handle_to_main_handle
stopped_rpc = refl

abbrev a_swarm : Result ℕ (AppError texts)
a_swarm = ok 7

-- the HTTP socket is taken, and the URL would have been empty
abbrev no_server : ℕ → Result ℕ (AppError texts)
no_server peer = err (AppError.io 98)

abbrev no_backend : Result ℕ (AppError texts)
no_backend = err (AppError.anyhow "Url is empty")

abbrev never : ℕ × ℕ × ℕ → TaskRet texts (AppError texts)
never services = none

taken_socket :
    start texts (new_streamer_node texts a_swarm no_server no_backend) never
    ≡ some (err (AppError.io 98))
unfolding start new_streamer_node
taken_socket = refl

abbrev A : Mpsc (List ℕ)
A = log_mpsc (List ℕ)

abbrev B : Broadcast (List ℕ)
B = log_broadcast (List ℕ) 100

abbrev socket : Result ℕ ℕ
socket = ok 3

-- the pipeline of the decoding backend could not be made
abbrev no_pipeline : List (List ℕ) → Option (Result ℕ String)
no_pipeline dec_tx = some (err "BoolError")

-- GStreamer could not be initialized
abbrev no_gst : List (List ℕ) → Option (Result ℕ String)
no_gst dec_tx = none

abbrev started : ℕ → ℕ → ℕ
started swarm server = 4

made_with :
    (List (List ℕ) → Option (Result ℕ String))
    → Result (ℕ × ListenerServerService texts A B ℕ ℕ ℕ) (Halt texts)
made_with new_decoding =
    made texts A B (λ capacity. ([], false)) (λ capacity. []) a_swarm socket new_decoding socket
      (λ server. socket) started

no_decoder :
    (made_with no_pipeline ≡ err (failed (AppError.anyhow "BoolError")))
    × (made_with no_gst ≡ err panicked)
unfolding made_with new_listener_node create_listener_server new_listener_server start_info_server
    unwinding
no_decoder = (refl, refl)
