-- ===== src/Tasks/Listener.antt =====
-- A listener's node while it runs: the swarm's loop of src/p2p/swarm.rs, the bridge of src/rpc/mod.rs
-- and the loop of src/backend/ogg_dec.rs, with the two channels between them.
mod Rounds
pub mod Steps
pub mod Flow
pub mod Drain
use p2pradio.Prelude.{ℕ, false, ◌≡◌, ◌⊎◌, Option, none, some, List, [], ◌∷◌, ◌++◌, Result, ok}
use p2pradio.Errors.{Foreign}
use p2pradio.Network.{Network}
use p2pradio.Channel.{Mpsc, Bounded, HasRoom}
use p2pradio.Codec.{Message}
use p2pradio.Encoder.{Gst}
use p2pradio.Swarm.{Swarm, SwarmEvent, process_listener_event}
use p2pradio.Bridge.{Bridge, step}
use p2pradio.Decoder.{AppSrc, process_bytes}

-- `mpsc::channel(100)` of `ListenerNode::new`
abbrev pub gossip_sub_capacity : ℕ
gossip_sub_capacity = 100

-- `mpsc::channel(100)` of `ListenerServerService::new`
abbrev pub audio_capacity : ℕ
audio_capacity = 100

module _ {F : Foreign} (N : Network F) (M : Mpsc Message) (A : Mpsc (List ℕ))
    (gossip : Bounded M gossip_sub_capacity) (audio : Bounded A audio_capacity) (G : Gst)
    (P : AppSrc) (with_size : ℕ → Result (Option (Option (Unit {0}))) G.BoolError)
    (streamer : N.PeerId) where
  -- `arrived` and `message` are what the swarm's loop and the bridge have taken and not yet dealt
  -- with, while they wait for room
  pub record Node : Type 0 where
    pub arrived : Option (SwarmEvent N)
    pub swarm : Swarm N
    pub gossip_tx : M.Chan
    pub message : Option Message
    pub bridge : Bridge A
    pub src : P.Src

  -- the rest of a round of the swarm's loop
  abbrev pub swarm_round : SwarmEvent N → Node → Swarm N × M.Chan
  swarm_round e n = process_listener_event N M (n.swarm, n.gossip_tx) streamer e

  -- the rest of a round of the bridge
  abbrev pub bridge_round : Message → Node → Bridge A
  bridge_round m n = step A (some m) n.bridge

  -- the node after any interleaving of its tasks, with the events that the swarm's loop has handled
  pub data Reach (start : Node) : List (SwarmEvent N) → Node → Type 0 where
    here : Reach start [] start
    arrives :
        {events : List (SwarmEvent N)} {n : Node}
        → Reach start events n
        → n.arrived ≡ none
        → (e : SwarmEvent N) → Reach start events (record n { arrived = some e })
    -- there is room, or nothing is to be sent
    handled :
        {events : List (SwarmEvent N)} {n : Node}
        → Reach start events n
        → (e : SwarmEvent N) → n.arrived ≡ some e
        → HasRoom gossip n.gossip_tx ⊎ ((swarm_round e n).1 ≡ n.gossip_tx)
        → Reach start (events ++ e ∷ []) (record n {
          arrived = none;
          swarm = (swarm_round e n).0;
          gossip_tx = (swarm_round e n).1;
        })
    received :
        {events : List (SwarmEvent N)} {n : Node}
        → Reach start events n
        → n.message ≡ none
        → (m : Message) (rest : M.Chan) → gossip.recv n.gossip_tx ≡ some (m, rest)
        → Reach start events (record n { gossip_tx = rest; message = some m })
    relayed :
        {events : List (SwarmEvent N)} {n : Node}
        → Reach start events n
        → (m : Message) → n.message ≡ some m
        → HasRoom audio n.bridge.app_src_tx ⊎ ((bridge_round m n).app_src_tx ≡ n.bridge.app_src_tx)
        → Reach start events (record n { message = none; bridge = bridge_round m n })
    -- a packet that the appsrc accepts; otherwise the loop is left
    pushed :
        {events : List (SwarmEvent N)} {n : Node}
        → Reach start events n
        → (bytes : List ℕ) (rest : A.Chan) → audio.recv n.bridge.app_src_tx ≡ some (bytes, rest)
        → (process_bytes G P with_size bytes n.src).1 ≡ ok false
        → Reach start events (record n {
          bridge = record n.bridge { app_src_tx = rest };
          src = (process_bytes G P with_size bytes n.src).0;
        })
