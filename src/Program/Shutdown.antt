-- ===== src/Program/Shutdown.antt =====
-- How the nodes of src/node.rs stop, whichever of their tasks ends first, and what src/main.rs makes of
-- it.
use Prim.Native.String.{String}
use p2pradio.Prelude.{
  ℕ, ◌≡◌, ◌⊎◌, inl, inr, refl, Bool, true, none, some, List, [], ◌∷◌, Result, ok, err,
}
use p2pradio.Errors.{
  Foreign, AppError, TaskRet, task_panicked, task_exited, handle_to_main_handle,
  handle_loop_cannot_fail_handle,
}
use p2pradio.Network.{Network}
use p2pradio.Channel.{Mpsc}
use p2pradio.Codec.{Message}
use p2pradio.Swarm.{Swarm, StreamerInput, ListenerInput, run_streamer, run_listener}
use p2pradio.Encoder.{Gst, State, Error, process_url, main_loop_ended, msg_loop_ended}
use p2pradio.Http.{run_axum}
use p2pradio.Node.{
  StreamerServerTask, ListenerServerTask, StreamerTask, ListenerTask, run_streamer_server,
  run_listener_server, run_streamer_node, run_listener_node,
}
use p2pradio.Program.Stops.{
  StreamerAllowed, ListenerAllowed, BridgeAllowed, StreamerStops, ListenerStops,
  StreamerServerStops, ListenerServerStops,
}

module _ {F : Foreign} where
  -- the task of a streamer's RPC server that ends by itself, and the error that belongs to it
  pub data StreamerServerError : StreamerServerTask F → AppError F → Type 0 where
    rpc_stopped : StreamerServerError StreamerServerTask.stopped task_exited
    axum_panicked :
        (p : F.JoinError)
        → StreamerServerError (StreamerServerTask.server_listener (err p)) (task_panicked p)

  -- the task of a streamer's node that ends by itself, and the error that belongs to it
  pub data StreamerError : StreamerTask F → AppError F → Type 0 where
    swarm_panicked :
        (p : F.JoinError) → StreamerError (StreamerTask.swarm (err p)) (task_panicked p)
    server_failed :
        {task : StreamerServerTask F} {e : AppError F}
        → StreamerServerError task e
        → StreamerError (StreamerTask.server (ok (run_streamer_server F task))) e
    server_panicked :
        (p : F.JoinError) → StreamerError (StreamerTask.server (err p)) (task_panicked p)
    main_loop_left :
        StreamerError
          (StreamerTask.backend (ok (p2pradio.Encoder.run F main_loop_ended)))
          (AppError.anyhow (F.new_anyhow "Main loop encoding terminated"))
    msg_loop_left :
        StreamerError
          (StreamerTask.backend (ok (p2pradio.Encoder.run F msg_loop_ended)))
          (AppError.anyhow (F.new_anyhow "Message loop encoding terminated"))
    backend_panicked :
        (p : F.JoinError) → StreamerError (StreamerTask.backend (err p)) (task_panicked p)

  module _ {G : Gst} (into : Error G → F.AnyhowError) where
    -- the task of a listener's server that ends by itself, and the error that belongs to it
    pub data ListenerServerError : ListenerServerTask F → AppError F → Type 0 where
      decoder_finished :
          (u : Unit {0})
          → ListenerServerError
              (ListenerServerTask.backend (ok (p2pradio.Decoder.run F G into (some (ok u)))))
              (AppError.anyhow (F.new_anyhow "Pipeline finished unexpectedly"))
      decoder_failed :
          (x : Error G)
          → ListenerServerError
              (ListenerServerTask.backend (ok (p2pradio.Decoder.run F G into (some (err x)))))
              (AppError.anyhow (into x))
      decoder_panicked :
          (p : F.JoinError)
          → ListenerServerError (ListenerServerTask.backend (err p)) (task_panicked p)
      axum_panicked :
          (p : F.JoinError)
          → ListenerServerError (ListenerServerTask.axum_server (err p)) (task_panicked p)
      bridge_panicked :
          (p : F.JoinError)
          → ListenerServerError (ListenerServerTask.gossip_backend_bridge (err p)) (task_panicked p)
      rpc_stopped : ListenerServerError ListenerServerTask.server_handle task_exited

    -- the task of a listener's node that ends by itself, and the error that belongs to it
    pub data ListenerError : ListenerTask F → AppError F → Type 0 where
      swarm_panicked :
          (p : F.JoinError) → ListenerError (ListenerTask.swarm (err p)) (task_panicked p)
      server_failed :
          {task : ListenerServerTask F} {e : AppError F}
          → ListenerServerError task e
          → ListenerError (ListenerTask.server (ok (run_listener_server F task))) e
      server_panicked :
          (p : F.JoinError) → ListenerError (ListenerTask.server (err p)) (task_panicked p)

  module _ (token : Bool) (N : Network F) where
    -- The loop of a swarm ends only as cancelled, and once the token is.
    swarm_cancelled :
        (inputs : List (StreamerInput N)) (swarm : Swarm N) (topic : N.Topic) (ret : TaskRet F ⊥)
        → StreamerAllowed token inputs
        → (run_streamer N inputs swarm topic).1 ≡ some ret
        → (ret ≡ none) × (token ≡ true)
    unfolding run_streamer
    swarm_cancelled [] swarm topic ret h e = cc
    swarm_cancelled (StreamerInput.publish m ∷ inputs) swarm topic ret h e =
        swarm_cancelled inputs _ topic ret h e
    swarm_cancelled (StreamerInput.event v ∷ inputs) swarm topic ret h e =
        swarm_cancelled inputs _ topic ret h e
    swarm_cancelled (StreamerInput.cancelled ∷ inputs) swarm topic ret h e = (cc, h)

    hearing_cancelled :
        (M : Mpsc Message) (inputs : List (ListenerInput N)) (s : Swarm N × M.Chan)
        (streamer : N.PeerId) (ret : TaskRet F ⊥)
        → ListenerAllowed token inputs
        → (run_listener N M inputs s streamer).1 ≡ some ret
        → (ret ≡ none) × (token ≡ true)
    unfolding run_listener
    hearing_cancelled M [] s streamer ret h e = cc
    hearing_cancelled M (ListenerInput.event v ∷ inputs) s streamer ret h e =
        hearing_cancelled M inputs _ streamer ret h e
    hearing_cancelled M (ListenerInput.cancelled ∷ inputs) s streamer ret h e = (cc, h)

    bridge_cancelled :
        (A : Mpsc (List ℕ)) (inputs : List p2pradio.Bridge.Input) (b : p2pradio.Bridge.Bridge A)
        (ret : TaskRet F ⊥)
        → BridgeAllowed token inputs
        → (p2pradio.Bridge.run A F inputs b).1 ≡ some ret
        → (ret ≡ none) × (token ≡ true)
    unfolding p2pradio.Bridge.run
    bridge_cancelled A [] b ret h e = cc
    bridge_cancelled A (p2pradio.Bridge.received m ∷ inputs) b ret h e =
        bridge_cancelled A inputs _ ret h e
    bridge_cancelled A (p2pradio.Bridge.cancelled ∷ inputs) b ret h e = (cc, h)

    module _ (G : Gst) (M : Mpsc Message) (A : Mpsc (List ℕ)) (to_string : Message → String)
        (set : State → Result (Unit {0}) G.StateChangeError) (into : Error G → F.AnyhowError) where
      abbrev pub Stops : (AppError F → Type 0) → TaskRet F (AppError F) → Type 0
      Stops Expected ending =
          ((ending ≡ none) × (token ≡ true))
          ⊎ ((e : AppError F) × Expected e × (ending ≡ some (err e)))

      run_streamer_server-StreamerServerStops :
          (task : StreamerServerTask F)
          → StreamerServerStops token N G M A to_string set into task
          → Stops
              (StreamerError (StreamerTask.server (ok (run_streamer_server F task))))
              (run_streamer_node F (StreamerTask.server (ok (run_streamer_server F task))))
      unfolding run_streamer_node run_streamer_server handle_to_main_handle run_axum
      run_streamer_server-StreamerServerStops _ StreamerServerStops.rpc_stopped =
          inr (_, StreamerError.server_failed StreamerServerError.rpc_stopped, refl)
      run_streamer_server-StreamerServerStops _ (StreamerServerStops.served none p h) =
          inl (refl, h)
      run_streamer_server-StreamerServerStops _ (StreamerServerStops.served (some (ok u)) p h) =
          inr (_, StreamerError.server_failed (StreamerServerError.axum_panicked p), refl)
      run_streamer_server-StreamerServerStops _ (StreamerServerStops.served (some (err x)) p h) =
          inr (_, StreamerError.server_failed (StreamerServerError.axum_panicked p), refl)
      run_streamer_server-StreamerServerStops _ (StreamerServerStops.cancelled h) = inl (refl, h)

      pub run_streamer_node-StreamerStops :
          (task : StreamerTask F)
          → StreamerStops token N G M A to_string set into task
          → Stops (StreamerError task) (run_streamer_node F task)
      unfolding run_streamer_node handle_to_main_handle handle_loop_cannot_fail_handle
          p2pradio.Encoder.run process_url
      run_streamer_node-StreamerStops _ (StreamerStops.swarm_ended inputs swarm topic ret h e) =
          let (same, token_is) = swarm_cancelled inputs swarm topic ret h e in
          rw (same, run_streamer_node) (inl (refl, token_is))
      run_streamer_node-StreamerStops _ (StreamerStops.swarm_panicked p) =
          inr (_, StreamerError.swarm_panicked p, refl)
      run_streamer_node-StreamerStops _ (StreamerStops.server_ended task h) =
          run_streamer_server-StreamerServerStops task h
      run_streamer_node-StreamerStops _ (StreamerStops.server_panicked p) =
          inr (_, StreamerError.server_panicked p, refl)
      run_streamer_node-StreamerStops _ (StreamerStops.main_loop_left inputs res e) =
          inr (_, StreamerError.main_loop_left, refl)
      run_streamer_node-StreamerStops _ (StreamerStops.msg_loop_left inputs tx res e) =
          inr (_, StreamerError.msg_loop_left, refl)
      run_streamer_node-StreamerStops _ (StreamerStops.backend_panicked p) =
          inr (_, StreamerError.backend_panicked p, refl)

      run_listener_server-ListenerServerStops :
          (task : ListenerServerTask F)
          → ListenerServerStops token N G M A to_string set into task
          → Stops
              (ListenerError into (ListenerTask.server (ok (run_listener_server F task))))
              (run_listener_node F (ListenerTask.server (ok (run_listener_server F task))))
      unfolding run_listener_node run_listener_server handle_to_main_handle run_axum
          handle_loop_cannot_fail_handle p2pradio.Decoder.run
      run_listener_server-ListenerServerStops _ (ListenerServerStops.decoded none h) = inl (refl, h)
      run_listener_server-ListenerServerStops _ (ListenerServerStops.decoded (some (ok u)) h) =
          inr (_, ListenerError.server_failed (ListenerServerError.decoder_finished u), refl)
      run_listener_server-ListenerServerStops _ (ListenerServerStops.decoded (some (err x)) h) =
          inr (_, ListenerError.server_failed (ListenerServerError.decoder_failed x), refl)
      run_listener_server-ListenerServerStops _ (ListenerServerStops.decoding_panicked p) =
          inr (_, ListenerError.server_failed (ListenerServerError.decoder_panicked p), refl)
      run_listener_server-ListenerServerStops _ (ListenerServerStops.served none p h) =
          inl (refl, h)
      run_listener_server-ListenerServerStops _ (ListenerServerStops.served (some (ok u)) p h) =
          inr (_, ListenerError.server_failed (ListenerServerError.axum_panicked p), refl)
      run_listener_server-ListenerServerStops _ (ListenerServerStops.served (some (err x)) p h) =
          inr (_, ListenerError.server_failed (ListenerServerError.axum_panicked p), refl)
      run_listener_server-ListenerServerStops _
            (ListenerServerStops.bridge_ended inputs b ret h e) =
          let (same, token_is) = bridge_cancelled A inputs b ret h e in
          rw (same, run_listener_node) (inl (refl, token_is))
      run_listener_server-ListenerServerStops _ (ListenerServerStops.bridge_panicked p) =
          inr (_, ListenerError.server_failed (ListenerServerError.bridge_panicked p), refl)
      run_listener_server-ListenerServerStops _ ListenerServerStops.rpc_stopped =
          inr (_, ListenerError.server_failed ListenerServerError.rpc_stopped, refl)

      pub run_listener_node-ListenerStops :
          (task : ListenerTask F)
          → ListenerStops token N G M A to_string set into task
          → Stops (ListenerError into task) (run_listener_node F task)
      unfolding run_listener_node handle_to_main_handle handle_loop_cannot_fail_handle
      run_listener_node-ListenerStops _ (ListenerStops.swarm_ended inputs s streamer ret h e) =
          let (same, token_is) = hearing_cancelled M inputs s streamer ret h e in
          rw (same, run_listener_node) (inl (refl, token_is))
      run_listener_node-ListenerStops _ (ListenerStops.swarm_panicked p) =
          inr (_, ListenerError.swarm_panicked p, refl)
      run_listener_node-ListenerStops _ (ListenerStops.server_ended task h) =
          run_listener_server-ListenerServerStops task h
      run_listener_node-ListenerStops _ (ListenerStops.server_panicked p) =
          inr (_, ListenerError.server_panicked p, refl)
