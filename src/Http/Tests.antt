-- ===== src/Http/Tests.antt =====
-- The HTTP servers of Http.antt on concrete runs.
use p2pradio.Prelude.{ℕ, ◌≡◌, refl, Option, some, List, [], ◌∷◌, Result, ok, err}
use p2pradio.Errors.{task_panicked, handle_to_main_handle}
use p2pradio.Network.Tables.{texts}
use p2pradio.Node.{run_streamer_server, server_listener, run_streamer_node, StreamerTask}
use p2pradio.Http.{run_axum, spawned, metrics_response, metrics_content_type}

-- Axum returned the error 24, and the task's panic is 6
abbrev served : Option (Result (Unit {0}) ℕ)
served = some (err 24)

panics :
    run_streamer_node texts (
      StreamerTask.server (
        ok (run_streamer_server texts (server_listener (spawned texts 6 (run_axum texts served))))))
    ≡ some (err (task_panicked 6))
unfolding run_streamer_node run_streamer_server run_axum handle_to_main_handle
panics = refl

-- the registry as its text
abbrev registry : Result (List ℕ) ℕ
registry = ok (b'#' ∷ [])

abbrev encoded : List ℕ → Result (List ℕ) ℕ
encoded text = ok text

metrics : metrics_response registry encoded ≡ some (200, metrics_content_type, b'#' ∷ [])
unfolding metrics_response
metrics = refl
