-- ===== src/Http/Ending.antt =====
-- How the HTTP servers of src/rpc/mod.rs end, and with them the servers of both nodes.
use p2pradio.Prelude.{◌≡◌, refl, Option, none, some, Result, ok, err}
use p2pradio.Errors.{Foreign, AppError, TaskRet, task_panicked, handle_to_main_handle}
use p2pradio.Node.{
  run_streamer_server, server_listener, run_listener_server, axum_server, run_streamer_node,
  run_listener_node, StreamerTask, ListenerTask,
}
use p2pradio.Http.{run_axum, spawned}

module _ (F : Foreign) (panic : F.JoinError) where
  -- how a node ends with the task of its HTTP server
  abbrev pub outcome : Option (Result (Unit {0}) F.IoError) → TaskRet F (AppError F)
  outcome none = none
  outcome (some served) = some (err (task_panicked panic))

  -- A streamer's node, or a listener's, whose HTTP server finishes first ends as cancelled where the
  -- server was cancelled; where Axum returned, with an error or without, the node ends with the panic
  -- of that task.
  pub http_server_ending :
      (served : Option (Result (Unit {0}) F.IoError))
      → (run_streamer_node F (
            StreamerTask.server
              (ok (run_streamer_server F (server_listener (spawned F panic (run_axum F served))))))
          ≡ outcome served)
        × (run_listener_node F (
              ListenerTask.server
                (ok (run_listener_server F (axum_server (spawned F panic (run_axum F served))))))
            ≡ outcome served)
  unfolding run_axum run_streamer_server run_listener_server run_streamer_node run_listener_node
      handle_to_main_handle
  http_server_ending none = (refl, refl)
  http_server_ending (some (ok u)) = (refl, refl)
  http_server_ending (some (err e)) = (refl, refl)
