-- ===== src/Tasks/Streamer/Flow.antt =====
-- What flows through a streamer's node, whatever the order in which its tasks run.
use Prim.Native.String.{String}
use p2pradio.Prelude.{ℕ, ◌≤◌, ◌≡◌, ap, sym, ◌∙◌, false, Option, List, ◌++◌, map, length}
use p2pradio.Errors.{Foreign}
use p2pradio.Network.{Network}
use p2pradio.Channel.{Mpsc, Bounded}
use p2pradio.Codec.{Message, encode}
use p2pradio.Ogg.{Sample}
use p2pradio.Encoder.{Input}
use p2pradio.Encoder.Loops.{messages, is_over, readable}
use p2pradio.Swarm.{Swarm, StreamerInput}
use p2pradio.Swarm.Streamer
use p2pradio.Swarm.Streamer.{accepted, run_streamer-published}
use p2pradio.Tasks.Streamer.{
  sink_capacity, gossip_pub_capacity, Node, Reach, here, sampled, buffered, titled, sent, offered,
  network, taken,
}
use p2pradio.Tasks.Streamer.Rounds.{buffers}
use p2pradio.Tasks.Streamer.Steps.{Runs, here-Runs, sampled-Runs, buffered-Runs, titled-Runs}
use p2pradio.Tasks.Streamer.Sends.{sent-Runs, offered-Runs, network-Runs}
pub use p2pradio.Tasks.Streamer.Steps.{IsFresh, IsOpen, fresh-IsOpen, in_hand}

module _ {F : Foreign} (N : Network F) (S : Mpsc (List ℕ)) (M : Mpsc Message)
    (sink : Bounded S sink_capacity) (gossip : Bounded M gossip_pub_capacity)
    (to_string : Message → String) (topic : N.Topic) where
  abbrev State : Type 0
  State = Node N S M sink gossip to_string topic

  pub Reach-Runs :
      {start n : State} {samples : List (Option Sample)} {inputs : List Input}
      → IsOpen N S M sink gossip to_string topic start
      → (r : Reach N S M sink gossip to_string topic start samples inputs n)
      → Runs N S M sink gossip to_string topic start samples inputs
          (taken N S M sink gossip to_string topic r)
          n
  Reach-Runs opened here = here-Runs N S M sink gossip to_string topic _ opened
  Reach-Runs opened (sampled r room s) =
      sampled-Runs N S M sink gossip to_string topic _ (Reach-Runs opened r) s room
  Reach-Runs opened (buffered r idle buf rest got) =
      buffered-Runs N S M sink gossip to_string topic _ (Reach-Runs opened r) buf rest idle got
  Reach-Runs opened (titled r idle title) =
      titled-Runs N S M sink gossip to_string topic _ (Reach-Runs opened r) title idle
  Reach-Runs opened (sent r i in_it ready) =
      sent-Runs N S M sink gossip to_string topic _ (Reach-Runs opened r) i in_it ready
  Reach-Runs opened (offered r m rest got) =
      offered-Runs N S M sink gossip to_string topic _ (Reach-Runs opened r) m rest got
  Reach-Runs opened (network r e) =
      network-Runs N S M sink gossip to_string topic _ (Reach-Runs opened r) e

  -- What flows in a run from `start`; `tasks` is what the swarm's loop has taken.
  pub record Flows (start : State) (samples : List (Option Sample)) (inputs : List Input)
      (tasks : List (StreamerInput N)) (n : State) : Type 0 where
    pub sink_flow :
        sink.held start.sink_tx ++ readable S samples ≡ buffers inputs ++ sink.held n.sink_tx
    pub sink_fits : length (sink.held n.sink_tx) ≤ sink_capacity
    pub gossip_flow :
        (gossip.held start.gossip_tx ++ in_hand N S M sink gossip to_string topic start.hand)
          ++ messages F M to_string inputs
        ≡ Streamer.offered N tasks
          ++ (gossip.held n.gossip_tx ++ in_hand N S M sink gossip to_string topic n.hand)
    pub gossip_fits : length (gossip.held n.gossip_tx) ≤ gossip_pub_capacity
    pub published :
        N.published n.swarm.gossipsub
        ≡ N.published start.swarm.gossipsub ++ map encode (accepted N topic tasks start.swarm)

  -- In a streamer's node, whatever the order of its tasks' rounds, from a state whose channels are open and hold at most 100:
  -- the buffers that waited and those of the samples are those that `msg_loop` has taken and those that
  -- wait, in order; the messages that waited or were in hand and those of what it took are what the
  -- swarm's loop took to publish, what waits and what it has in hand, in order; neither channel holds
  -- more than 100; and what is published more is the encodings of just those messages that gossipsub
  -- accepted of those the swarm's loop took, in order.
  pub Reach-Flows :
      {start n : State} {samples : List (Option Sample)} {inputs : List Input}
      → IsOpen N S M sink gossip to_string topic start
      → (r : Reach N S M sink gossip to_string topic start samples inputs n)
      → Flows start samples inputs (taken N S M sink gossip to_string topic r) n
  Reach-Flows {start = start} opened r =
      let f = Reach-Runs opened r in
      record {
        sink_flow = f.sink_flow;
        sink_fits = f.still.sink_fits;
        gossip_flow = f.gossip_flow;
        gossip_fits = f.still.gossip_fits;
        published =
            ap (λ s. N.published s.gossipsub) (sym f.swarm_ran)
            ∙ (run_streamer-published N (taken N S M sink gossip to_string topic r) start.swarm
                topic).0;
      }

  -- From a fresh node the flows are these.
  pub record FreshFlows (samples : List (Option Sample)) (inputs : List Input)
      (tasks : List (StreamerInput N)) (swarm : Swarm N) (n : State) : Type 0 where
    pub sink_flow : readable S samples ≡ buffers inputs ++ sink.held n.sink_tx
    pub gossip_flow :
        messages F M to_string inputs
        ≡ Streamer.offered N tasks
          ++ (gossip.held n.gossip_tx ++ in_hand N S M sink gossip to_string topic n.hand)
    pub published : N.published n.swarm.gossipsub ≡ map encode (accepted N topic tasks swarm)
    pub going : is_over F M to_string inputs ≡ false

  pub Reach-FreshFlows :
      {start n : State} {samples : List (Option Sample)} {inputs : List Input}
      → IsFresh N S M sink gossip to_string topic start
      → (r : Reach N S M sink gossip to_string topic start samples inputs n)
      → FreshFlows samples inputs (taken N S M sink gossip to_string topic r) start.swarm n
  Reach-FreshFlows {start = start} {samples = samples} {inputs = inputs} fresh r =
      let opened = fresh-IsOpen N S M sink gossip to_string topic start fresh in
      let f = Reach-Flows opened r in
      let tasks = taken N S M sink gossip to_string topic r in
      let programme = messages F M to_string inputs in
      let in_hand = in_hand N S M sink gossip to_string topic in
      record {
        sink_flow = ap (λ l. l ++ readable S samples) (sym fresh.sink_empty) ∙ f.sink_flow;
        gossip_flow =
            ap (λ h. in_hand h ++ programme) (sym fresh.nothing_taken)
            ∙ ap (λ l. (l ++ in_hand start.hand) ++ programme) (sym fresh.gossip_empty)
            ∙ f.gossip_flow;
        published =
            f.published
            ∙ ap (λ l. l ++ map encode (accepted N topic tasks start.swarm)) fresh.silent;
        going = (Reach-Runs opened r).going;
      }
