-- ===== src/Program/Stops.antt =====
-- The first task of a node that ends, and how: the loops of src/p2p/swarm.rs, src/rpc/mod.rs and
-- src/backend/ as they run, under the handlers of src/node.rs. A branch for a cancellation is taken
-- only once the token is cancelled, which the argument `token` tells. Any task may panic.
use Prim.Native.String.{String}
use p2pradio.Prelude.{ℕ, ◌≡◌, Bool, true, Option, none, some, List, [], ◌∷◌, Result, ok, err}
use p2pradio.Errors.{Foreign, TaskRet}
use p2pradio.Network.{Network}
use p2pradio.Channel.{Mpsc}
use p2pradio.Codec.{Message}
use p2pradio.Swarm.{Swarm, StreamerInput, ListenerInput, run_streamer, run_listener}
use p2pradio.Bridge.{Bridge}
use p2pradio.Encoder.{
  Gst, State, Error, BusInput, main_loop, msg_loop, main_loop_ended, msg_loop_ended,
}
use p2pradio.Http.{run_axum, spawned}
use p2pradio.Node.{
  StreamerServerTask, ListenerServerTask, StreamerTask, ListenerTask, run_streamer_server,
  run_listener_server,
}

module _ (token : Bool) where
  -- no branch for a cancellation is taken before the token is cancelled
  abbrev pub StreamerAllowed : {F : Foreign} {N : Network F} → List (StreamerInput N) → Type 0
  StreamerAllowed [] = Unit
  StreamerAllowed (StreamerInput.publish m ∷ inputs) = StreamerAllowed inputs
  StreamerAllowed (StreamerInput.event e ∷ inputs) = StreamerAllowed inputs
  StreamerAllowed (StreamerInput.cancelled ∷ inputs) = token ≡ true

  abbrev pub ListenerAllowed : {F : Foreign} {N : Network F} → List (ListenerInput N) → Type 0
  ListenerAllowed [] = Unit
  ListenerAllowed (ListenerInput.event e ∷ inputs) = ListenerAllowed inputs
  ListenerAllowed (ListenerInput.cancelled ∷ inputs) = token ≡ true

  abbrev pub BridgeAllowed : List p2pradio.Bridge.Input → Type 0
  BridgeAllowed [] = Unit
  BridgeAllowed (p2pradio.Bridge.received m ∷ inputs) = BridgeAllowed inputs
  BridgeAllowed (p2pradio.Bridge.cancelled ∷ inputs) = token ≡ true

  abbrev pub WhenCancelled : {A : Type 0} → Option A → Type 0
  WhenCancelled none = token ≡ true
  WhenCancelled (some a) = Unit

  module _ {F : Foreign} (N : Network F) (G : Gst) (M : Mpsc Message) (A : Mpsc (List ℕ))
      (to_string : Message → String) (set : State → Result (Unit {0}) G.StateChangeError)
      (into : Error G → F.AnyhowError) where
    -- the first task of `StreamerServerService::run`
    pub data StreamerServerStops : StreamerServerTask F → Type 0 where
      rpc_stopped : StreamerServerStops StreamerServerTask.stopped
      served :
          (res : Option (Result (Unit {0}) F.IoError)) (panic : F.JoinError)
          → WhenCancelled res
          → StreamerServerStops
              (StreamerServerTask.server_listener (spawned F panic (run_axum F res)))
      cancelled : token ≡ true → StreamerServerStops StreamerServerTask.cancelled

    -- the first task of `StreamerNode::run`
    pub data StreamerStops : StreamerTask F → Type 0 where
      swarm_ended :
          (inputs : List (StreamerInput N)) (swarm : Swarm N) (topic : N.Topic) (ret : TaskRet F ⊥)
          → StreamerAllowed inputs
          → (run_streamer N inputs swarm topic).1 ≡ some ret
          → StreamerStops (StreamerTask.swarm (ok ret))
      swarm_panicked : (p : F.JoinError) → StreamerStops (StreamerTask.swarm (err p))
      server_ended :
          (task : StreamerServerTask F)
          → StreamerServerStops task
          → StreamerStops (StreamerTask.server (ok (run_streamer_server F task)))
      server_panicked : (p : F.JoinError) → StreamerStops (StreamerTask.server (err p))
      main_loop_left :
          (inputs : List (BusInput G)) (res : Result (Unit {0}) (Error G))
          → (main_loop G set inputs).1 ≡ some res
          → StreamerStops (StreamerTask.backend (ok (p2pradio.Encoder.run F main_loop_ended)))
      msg_loop_left :
          (inputs : List p2pradio.Encoder.Input) (tx : M.Chan)
          → (res : Result (Unit {0}) (p2pradio.Errors.AppError F))
          → (msg_loop F M to_string inputs tx).1 ≡ some res
          → StreamerStops (StreamerTask.backend (ok (p2pradio.Encoder.run F msg_loop_ended)))
      backend_panicked : (p : F.JoinError) → StreamerStops (StreamerTask.backend (err p))

    -- the first task of `ListenerServerService::run`
    pub data ListenerServerStops : ListenerServerTask F → Type 0 where
      decoded :
          (res : Option (Result (Unit {0}) (Error G)))
          → WhenCancelled res
          → ListenerServerStops
              (ListenerServerTask.backend (ok (p2pradio.Decoder.run F G into res)))
      decoding_panicked :
          (p : F.JoinError) → ListenerServerStops (ListenerServerTask.backend (err p))
      served :
          (res : Option (Result (Unit {0}) F.IoError)) (panic : F.JoinError)
          → WhenCancelled res
          → ListenerServerStops (ListenerServerTask.axum_server (spawned F panic (run_axum F res)))
      bridge_ended :
          (inputs : List p2pradio.Bridge.Input) (b : Bridge A) (ret : TaskRet F ⊥)
          → BridgeAllowed inputs
          → (p2pradio.Bridge.run A F inputs b).1 ≡ some ret
          → ListenerServerStops (ListenerServerTask.gossip_backend_bridge (ok ret))
      bridge_panicked :
          (p : F.JoinError) → ListenerServerStops (ListenerServerTask.gossip_backend_bridge (err p))
      rpc_stopped : ListenerServerStops ListenerServerTask.server_handle

    -- the first task of `ListenerNode::run`
    pub data ListenerStops : ListenerTask F → Type 0 where
      swarm_ended :
          (inputs : List (ListenerInput N)) (s : Swarm N × M.Chan) (streamer : N.PeerId)
          → (ret : TaskRet F ⊥) → ListenerAllowed inputs
          → (run_listener N M inputs s streamer).1 ≡ some ret
          → ListenerStops (ListenerTask.swarm (ok ret))
      swarm_panicked : (p : F.JoinError) → ListenerStops (ListenerTask.swarm (err p))
      server_ended :
          (task : ListenerServerTask F)
          → ListenerServerStops task
          → ListenerStops (ListenerTask.server (ok (run_listener_server F task)))
      server_panicked : (p : F.JoinError) → ListenerStops (ListenerTask.server (err p))
