-- ===== src/Node.antt =====
-- src/node.rs and the servers of src/rpc/mod.rs: which services a node has, and how it ends. A node's
-- tasks run at once; its `select!` takes the one that finishes first, which is the argument here. What
-- a task is made of is the result of each `new`; the contexts are in Program.antt.
pub mod Ending
pub mod Making
pub mod Serving
mod Tests
use p2pradio.Prelude.{ℕ, Option, none, some, List, [], ◌∷◌, Result, ok, err, map_err, ◌>>=◌}
use p2pradio.Channel.{Mpsc, Broadcast}
use p2pradio.Http.{
  AxumServerStreamerService, new_axum_streamer, AxumServerListenerService, new_axum_listener,
}
use p2pradio.Bridge.{Bridge, new as new_bridge}
use p2pradio.Errors.{
  Foreign, AppError, TaskRet, Joined, task_exited, handle_to_main_handle,
  handle_loop_cannot_fail_handle,
}

module _ (F : Foreign) where
  -- why a listener's node is not made: its task panics, or an error is returned
  pub data Halt : Type 0 where
    panicked : Halt
    failed : AppError F → Halt

  -- what `DecodingBackend::new` comes to; `none` is its panic
  unfoldable pub unwinding : {D : Type 0} → Option (Result D F.AnyhowError) → Result D Halt
  unwinding none = err panicked
  unwinding (some (ok d)) = ok d
  unwinding (some (err e)) = err (failed (AppError.anyhow e))

  -- the tasks of `StreamerServerService::run`
  pub data StreamerServerTask : Type 0 where
    stopped : StreamerServerTask
    server_listener : Joined F (TaskRet F ⊥) → StreamerServerTask
    cancelled : StreamerServerTask

  unfoldable pub run_streamer_server : StreamerServerTask → TaskRet F (AppError F)
  run_streamer_server stopped = some (err task_exited)
  run_streamer_server (server_listener res) = handle_to_main_handle F AppError.unreachable res
  run_streamer_server cancelled = none

  -- the tasks of `ListenerServerService::run`
  pub data ListenerServerTask : Type 0 where
    backend : Joined F (TaskRet F F.AnyhowError) → ListenerServerTask
    axum_server : Joined F (TaskRet F ⊥) → ListenerServerTask
    gossip_backend_bridge : Joined F (TaskRet F ⊥) → ListenerServerTask
    server_handle : ListenerServerTask

  unfoldable pub run_listener_server : ListenerServerTask → TaskRet F (AppError F)
  run_listener_server (backend res) = handle_to_main_handle F AppError.anyhow res
  run_listener_server (axum_server res) = handle_to_main_handle F AppError.unreachable res
  run_listener_server (gossip_backend_bridge res) = handle_loop_cannot_fail_handle F res
  run_listener_server server_handle = some (err task_exited)

  -- the tasks of `StreamerNode::run`
  pub data StreamerTask : Type 0 where
    swarm : Joined F (TaskRet F ⊥) → StreamerTask
    server : Joined F (TaskRet F (AppError F)) → StreamerTask
    backend : Joined F (TaskRet F (AppError F)) → StreamerTask

  unfoldable pub run_streamer_node : StreamerTask → TaskRet F (AppError F)
  run_streamer_node (swarm res) = handle_loop_cannot_fail_handle F res
  run_streamer_node (server res) = handle_to_main_handle F (λ e. e) res
  run_streamer_node (backend res) = handle_to_main_handle F (λ e. e) res

  -- the tasks of `ListenerNode::run`
  pub data ListenerTask : Type 0 where
    swarm : Joined F (TaskRet F ⊥) → ListenerTask
    server : Joined F (TaskRet F (AppError F)) → ListenerTask

  unfoldable pub run_listener_node : ListenerTask → TaskRet F (AppError F)
  run_listener_node (swarm res) = handle_loop_cannot_fail_handle F res
  run_listener_node (server res) = handle_to_main_handle F (λ e. e) res

  -- `start_info_server`: the server that `ServerBuilder::build` returns, its `local_addr`, which is
  -- logged, and the handle that `start` returns for it
  unfoldable pub start_info_server :
      {R X H : Type 0}
      → Result R F.IoError
      → (R → Result X F.IoError)
      → (R → H)
      → Result H (AppError F)
  start_info_server build local_addr start_server = do
    rpc_server ← map_err AppError.io build
    addr ← map_err AppError.io (local_addr rpc_server)
    ok (start_server rpc_server)

  pub record StreamerServerService (L H : Type 0) : Type 0 where
    pub server_listener : AxumServerStreamerService L
    pub server_handle : H

  -- `StreamerServerService::new`: a socket, the service of Axum and the RPC server
  unfoldable pub new_streamer_server :
      {L H : Type 0}
      → Result L F.IoError
      → Result H (AppError F)
      → Result (StreamerServerService L H) (AppError F)
  new_streamer_server bind start_rpc = do
    listener ← map_err AppError.io bind
    server_listener_ ← map_err AppError.unreachable (new_axum_streamer listener)
    handle ← start_rpc
    ok (record { server_listener = server_listener_; server_handle = handle })

  module _ (A : Mpsc (List ℕ)) (B : Broadcast (List ℕ)) where
    -- Both channels are fresh; the headers and the title are shared between the services.
    pub record ListenerServerService (D L H : Type 0) : Type 0 where
      pub decoding_backend : D
      pub axum_server : AxumServerListenerService B L
      pub gossip_backend : Bridge A
      pub server_handle : H

    abbrev unreached : ⊥ → Halt
    unreached e = failed (AppError.unreachable e)

    -- `ListenerServerService::new`: the decoding backend, which is given the broadcast channel, the
    -- services of Axum and of the bridge, and the RPC server; `audio` and `broadcast` make the two
    -- channels of a capacity
    unfoldable pub new_listener_server :
        {D L H : Type 0}
        → (ℕ → A.Chan)
        → (ℕ → B.Chan)
        → List (List ℕ)
        → List ℕ
        → L
        → (B.Chan → Option (Result D F.AnyhowError))
        → Result H (AppError F)
        → Result (ListenerServerService D L H) Halt
    new_listener_server audio broadcast headers title listener new_decoding start_rpc = do
      let audio_tx = audio 100
      let dec_tx = broadcast 100
      decoding ← unwinding (new_decoding dec_tx)
      axum ← map_err unreached (new_axum_listener B listener headers dec_tx title)
      gossip ← map_err unreached (new_bridge A audio_tx title)
      handle ← map_err failed start_rpc
      ok (record {
        decoding_backend = decoding;
        axum_server = axum;
        gossip_backend = gossip;
        server_handle = handle;
      })

    unfoldable pub create_listener_server :
        {D L H : Type 0}
        → (ℕ → A.Chan)
        → (ℕ → B.Chan)
        → Result L F.IoError
        → (B.Chan → Option (Result D F.AnyhowError))
        → Result H (AppError F)
        → Result (ListenerServerService D L H) Halt
    create_listener_server audio broadcast bind new_decoding start_rpc = do
      listener ← map_err (λ e. failed (AppError.io e)) bind
      new_listener_server audio broadcast [] [] listener new_decoding start_rpc

  -- `StreamerNode::new`, with the results of `StreamerSwarmService::new`, `StreamerServerService::new`
  -- and `EncodingBackend::new`; the server is told the swarm's peer
  unfoldable pub new_streamer_node :
      {S V B : Type 0}
      → Result S (AppError F)
      → (S → Result V (AppError F))
      → Result B (AppError F)
      → Result (S × V × B) (AppError F)
  new_streamer_node new_swarm new_server new_backend = do
    swarm_service ← new_swarm
    streamer_server ← new_server swarm_service
    backend_ ← new_backend
    ok (swarm_service, streamer_server, backend_)

  -- `ListenerNode::new`
  unfoldable pub new_listener_node :
      {S V : Type 0} → Result S (AppError F) → (S → Result V Halt) → Result (S × V) Halt
  new_listener_node new_swarm new_server = do
    swarm_service ← map_err failed new_swarm
    streamer_server ← new_server swarm_service
    ok (swarm_service, streamer_server)

  -- the branch of `Node::start` for a streamer: a node that was not made, or its run
  unfoldable pub start :
      {N : Type 0} → Result N (AppError F) → (N → TaskRet F (AppError F)) → TaskRet F (AppError F)
  start (ok node) run = run node
  start (err e) run = some (err e)

  -- the branch of a listener, whose panic while it is made is `none`
  unfoldable pub start_listener :
      {N : Type 0} → Result N Halt → (N → TaskRet F (AppError F)) → Option (TaskRet F (AppError F))
  start_listener (ok node) run = some (run node)
  start_listener (err panicked) run = none
  start_listener (err (failed e)) run = some (some (err e))
