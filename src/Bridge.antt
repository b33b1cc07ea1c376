-- ===== src/Bridge.antt =====
-- `GossipBackendBridge` of src/rpc/mod.rs: it takes messages from the swarm's channel, hands audio to
-- the decoding backend and keeps the title for the HTTP server.
pub mod Relay
mod Tests
use p2pradio.Prelude.{Option, none, some, List, [], ◌∷◌, ℕ, Result, ok, err}
use p2pradio.Errors.{Foreign, TaskRet}
use p2pradio.Channel.{Mpsc}
use p2pradio.Codec.{Message, audio_packet, metadata}

-- What the loop meets: the value of `recv`, where `none` is a closed channel, or a cancellation.
pub data Input : Type 0 where
  received : Option Message → Input
  cancelled : Input

module _ (A : Mpsc (List ℕ)) where
  open A use {Chan, send}

  pub record Bridge : Type 0 where
    pub app_src_tx : Chan
    pub title : List ℕ

  -- `GossipBackendBridge::new`, which cannot fail; the receiver is where the inputs of `run` come from
  unfoldable pub new : Chan → List ℕ → Result Bridge ⊥
  new app_src_tx title = ok (record { app_src_tx = app_src_tx; title = title })

  -- one round of the loop; `.ok()` drops the error of `send`
  unfoldable pub step : Option Message → Bridge → Bridge
  step none b = b
  step (some (audio_packet bytes)) b = elim (send bytes b.app_src_tx) [
    | ok tx ↦ record b { app_src_tx = tx }
    | err back ↦ b
  ]
  step (some (metadata m)) b = record b { title = m.title }

  -- `run`; without a result the loop is still running when the inputs end
  unfoldable pub run : (F : Foreign) → List Input → Bridge → Bridge × Option (TaskRet F ⊥)
  run F [] b = (b, none)
  run F (received msg ∷ inputs) b = run F inputs (step msg b)
  run F (cancelled ∷ inputs) b = (b, some none)
