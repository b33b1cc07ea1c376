-- ===== src/Tasks/Streamer.antt =====
-- A streamer's node while it runs: the sink's callback of src/backend/icecast_ogg.rs, `msg_loop` of
-- src/backend/mod.rs and the swarm's loop of src/p2p/swarm.rs, with the two channels between them.
pub mod Rounds
pub mod Steps
mod Sends
pub mod Flow
pub mod Drain
use Prim.Native.String.{String}
use p2pradio.Prelude.{ℕ, ◌≡◌, ◌⊎◌, Option, none, some, List, [], ◌∷◌, ◌++◌}
use p2pradio.Errors.{Foreign}
use p2pradio.Network.{Network}
use p2pradio.Channel.{Mpsc, Bounded, HasRoom}
use p2pradio.Codec.{Message}
use p2pradio.Ogg.{Sample}
use p2pradio.Encoder.{Input, buffer, changed, msg_loop, sink_sample}
use p2pradio.Swarm.{Swarm, SwarmEvent, StreamerInput, run_streamer}

-- `flume::bounded(100)` of `create_icecast_pipeline`
abbrev pub sink_capacity : ℕ
sink_capacity = 100

-- `mpsc::channel(100)` of `StreamerNode::new`
abbrev pub gossip_pub_capacity : ℕ
gossip_pub_capacity = 100

module _ {F : Foreign} (N : Network F) (S : Mpsc (List ℕ)) (M : Mpsc Message)
    (sink : Bounded S sink_capacity) (gossip : Bounded M gossip_pub_capacity)
    (to_string : Message → String) (topic : N.Topic) where
  -- `hand` is what `msg_loop` has taken and not yet sent, while it waits for room
  pub record Node : Type 0 where
    pub sink_tx : S.Chan
    pub hand : Option Input
    pub gossip_tx : M.Chan
    pub swarm : Swarm N

  -- one round of `msg_loop`, after it has taken its input
  abbrev pub msg_round : Input → M.Chan → M.Chan
  msg_round i tx = (msg_loop F M to_string (i ∷ []) tx).0

  -- one round of the swarm's loop
  abbrev pub swarm_round : StreamerInput N → Swarm N → Swarm N
  swarm_round i s = (run_streamer N (i ∷ []) s topic).0

  -- the node after any interleaving of its tasks, with the samples that GStreamer has handed to the
  -- sink's callback and the inputs that `msg_loop` has taken
  pub data Reach (start : Node) : List (Option Sample) → List Input → Node → Type 0 where
    here : Reach start [] [] start
    sampled :
        {samples : List (Option Sample)} {inputs : List Input} {n : Node}
        → Reach start samples inputs n
        → HasRoom sink n.sink_tx
        → (s : Option Sample)
        → Reach start
            (samples ++ s ∷ [])
            inputs
            (record n { sink_tx = (sink_sample S s n.sink_tx).0 })
    buffered :
        {samples : List (Option Sample)} {inputs : List Input} {n : Node}
        → Reach start samples inputs n
        → n.hand ≡ none
        → (buf : List ℕ) (rest : S.Chan) → sink.recv n.sink_tx ≡ some (buf, rest)
        → Reach start samples
            (inputs ++ buffer buf ∷ [])
            (record n { sink_tx = rest; hand = some (buffer buf) })
    titled :
        {samples : List (Option Sample)} {inputs : List Input} {n : Node}
        → Reach start samples inputs n
        → n.hand ≡ none
        → (title : Option (List ℕ))
        → Reach start samples
            (inputs ++ changed title ∷ [])
            (record n { hand = some (changed title) })
    -- the rest of the round: there is room, or nothing is to be sent
    sent :
        {samples : List (Option Sample)} {inputs : List Input} {n : Node}
        → Reach start samples inputs n
        → (i : Input) → n.hand ≡ some i
        → HasRoom gossip n.gossip_tx ⊎ (msg_round i n.gossip_tx ≡ n.gossip_tx)
        → Reach start samples inputs (record n { hand = none; gossip_tx = msg_round i n.gossip_tx })
    offered :
        {samples : List (Option Sample)} {inputs : List Input} {n : Node}
        → Reach start samples inputs n
        → (m : Message) (rest : M.Chan) → gossip.recv n.gossip_tx ≡ some (m, rest)
        → Reach start samples inputs
            (record n { gossip_tx = rest; swarm = swarm_round (StreamerInput.publish m) n.swarm })
    network :
        {samples : List (Option Sample)} {inputs : List Input} {n : Node}
        → Reach start samples inputs n
        → (e : SwarmEvent N)
        → Reach start samples inputs
            (record n { swarm = swarm_round (StreamerInput.event e) n.swarm })

  -- what the swarm's loop has taken in a run
  abbrev pub taken :
      {start n : Node} {samples : List (Option Sample)} {inputs : List Input}
      → Reach start samples inputs n
      → List (StreamerInput N)
  taken here = []
  taken (sampled r room s) = taken r
  taken (buffered r idle buf rest got) = taken r
  taken (titled r idle title) = taken r
  taken (sent r i in_hand ready) = taken r
  taken (offered r m rest got) = taken r ++ StreamerInput.publish m ∷ []
  taken (network r e) = taken r ++ StreamerInput.event e ∷ []
