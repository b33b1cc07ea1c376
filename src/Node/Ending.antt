-- ===== src/Node/Ending.antt =====
-- How the nodes of src/node.rs end: as their first finished task did, through the servers of
-- src/rpc/mod.rs and the handlers of src/utils.rs.
use p2pradio.Prelude.{◌≡◌, ◌⊎◌, inl, inr, refl, none, some, Result, Result-cases, ok, err}
use p2pradio.Errors.{
  Foreign, AppError, TaskRet, task_panicked, task_exited, handle_to_main_handle,
  handle_loop_cannot_fail_handle,
}
use p2pradio.Node.{
  ListenerServerTask, axum_server, gossip_backend_bridge, server_handle, run_listener_server,
  ListenerTask, run_listener_node, start, new_streamer_node,
}

module _ (F : Foreign) where
  -- why a listener's server is not cancelled
  pub data ServerFails : ListenerServerTask F → AppError F → Type 0 where
    decoding_failed :
        (x : F.AnyhowError)
        → ServerFails (ListenerServerTask.backend (ok (some (err x)))) (AppError.anyhow x)
    decoding_panicked :
        (p : F.JoinError) → ServerFails (ListenerServerTask.backend (err p)) (task_panicked p)
    axum_panicked : (p : F.JoinError) → ServerFails (axum_server (err p)) (task_panicked p)
    bridge_panicked :
        (p : F.JoinError) → ServerFails (gossip_backend_bridge (err p)) (task_panicked p)
    rpc_stopped : ServerFails server_handle task_exited

  -- the first task of a listener's server was cancelled
  pub data ServerCancelled : ListenerServerTask F → Type 0 where
    decoding : ServerCancelled (ListenerServerTask.backend (ok none))
    axum : ServerCancelled (axum_server (ok none))
    bridge : ServerCancelled (gossip_backend_bridge (ok none))

  -- A listener node whose server finishes first ends in one of two ways: as cancelled, where the
  -- server's first task was, or with an error that is the decoding backend's own, a panic of one of
  -- the server's tasks, or `TaskExited` where the RPC server has stopped.
  pub run_listener_node-server :
      (task : ListenerServerTask F)
      → let ending = run_listener_node F (ListenerTask.server (ok (run_listener_server F task))) in
        (ServerCancelled task × (ending ≡ none))
        ⊎ ((e : AppError F) × ServerFails task e × (ending ≡ some (err e)))
  unfolding run_listener_node run_listener_server handle_to_main_handle
      handle_loop_cannot_fail_handle
  run_listener_node-server (ListenerServerTask.backend (ok none)) = inl (decoding, refl)
  run_listener_node-server (ListenerServerTask.backend (ok (some (err x)))) =
      inr (_, decoding_failed x, refl)
  run_listener_node-server (ListenerServerTask.backend (ok (some (ok v)))) = absurd v
  run_listener_node-server (ListenerServerTask.backend (err p)) = inr (_, decoding_panicked p, refl)
  run_listener_node-server (axum_server (ok none)) = inl (axum, refl)
  run_listener_node-server (axum_server (ok (some (err v)))) = absurd v
  run_listener_node-server (axum_server (ok (some (ok v)))) = absurd v
  run_listener_node-server (axum_server (err p)) = inr (_, axum_panicked p, refl)
  run_listener_node-server (gossip_backend_bridge (ok none)) = inl (bridge, refl)
  run_listener_node-server (gossip_backend_bridge (ok (some (err v)))) = absurd v
  run_listener_node-server (gossip_backend_bridge (ok (some (ok v)))) = absurd v
  run_listener_node-server (gossip_backend_bridge (err p)) = inr (_, bridge_panicked p, refl)
  run_listener_node-server server_handle = inr (_, rpc_stopped, refl)

module _ (F : Foreign) {S V B : Type 0} (new_swarm : Result S (AppError F))
    (new_server : S → Result V (AppError F)) (new_backend : Result B (AppError F)) where
  -- the first service of a streamer's node that cannot be made
  pub data StartFails : AppError F → Type 0 where
    swarm_failed : (e : AppError F) → new_swarm ≡ err e → StartFails e
    server_failed :
        (s : S) (e : AppError F) → new_swarm ≡ ok s → new_server s ≡ err e → StartFails e
    backend_failed :
        (s : S) (v : V) (e : AppError F)
        → new_swarm ≡ ok s
        → new_server s ≡ ok v
        → new_backend ≡ err e
        → StartFails e

  -- A streamer's node runs with its three services where all of them can be made; otherwise it ends at
  -- once with the error of the first that cannot, in the order of swarm, server and backend.
  pub start-new_streamer_node :
      (run : S × V × B → TaskRet F (AppError F))
      → let ending = start F (new_streamer_node F new_swarm new_server new_backend) run in
        ((s : S) × (v : V) × (b : B) × (new_swarm ≡ ok s)
          × (new_server s ≡ ok v)
          × (new_backend ≡ ok b)
          × (ending ≡ run (s, v, b)))
        ⊎ ((e : AppError F) × StartFails e × (ending ≡ some (err e)))
  unfolding start new_streamer_node
  start-new_streamer_node run = elim (Result-cases new_swarm) [
    | inr (e, p) ↦ inr (e, swarm_failed e p, rw (p, start) refl)
    | inl (s, p) ↦ elim (Result-cases (new_server s)) [
      | inr (e, q) ↦ inr (e, server_failed s e p q, rw (p, start) (rw (q, start) refl))
      | inl (v, q) ↦ elim (Result-cases new_backend) [
        | inr (e, r) ↦
            inr (e, backend_failed s v e p q r, rw (p, start) (rw (q, start) (rw (r, start) refl)))
        | inl (b, r) ↦ inl (s, v, b, p, q, r, rw (p, start) (rw (q, start) (rw (r, start) refl)))
      ]
    ]
  ]
