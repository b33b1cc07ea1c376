-- ===== src/Tasks/Listener/Flow.antt =====
-- What flows through a listener's node, whatever the order in which its tasks run.
use p2pradio.Prelude.{ℕ, Option, List, Result}
use p2pradio.Errors.{Foreign}
use p2pradio.Network.{Network}
use p2pradio.Channel.{Mpsc, Bounded}
use p2pradio.Codec.{Message}
use p2pradio.Encoder.{Gst}
use p2pradio.Swarm.{SwarmEvent}
use p2pradio.Decoder.{AppSrc}
use p2pradio.Tasks.Listener.{
  gossip_sub_capacity, audio_capacity, Node, Reach, here, arrives, handled, received, relayed,
  pushed,
}
use p2pradio.Tasks.Listener.Steps.{
  fresh-Flows, arrives-Flows, handled-Flows, received-Flows, relayed-Flows, pushed-Flows,
}
pub use p2pradio.Tasks.Listener.Steps.{Flows, IsFresh, in_hand}

module _ {F : Foreign} (N : Network F) (M : Mpsc Message) (A : Mpsc (List ℕ))
    (gossip : Bounded M gossip_sub_capacity) (audio : Bounded A audio_capacity) (G : Gst)
    (P : AppSrc) (with_size : ℕ → Result (Option (Option (Unit {0}))) G.BoolError)
    (streamer : N.PeerId) where
  -- Whatever the order of the tasks' rounds, from a fresh node: the handled events bring certain
  -- messages; those are what the bridge has relayed, what it has in hand and what waits, in order; the
  -- audio of the relayed ones is what the appsrc was given and what waits for it, in order; the title
  -- is the last one relayed, or the first; neither channel holds more than 100, and neither closes.
  pub Reach-ListenerFlows :
      {start n : Node N M A gossip audio G P with_size streamer} {events : List (SwarmEvent N)}
      → IsFresh N M A gossip audio G P with_size streamer start
      → Reach N M A gossip audio G P with_size streamer start events n
      → Flows N M A gossip audio G P with_size streamer start.bridge.title events n
  Reach-ListenerFlows fresh here = fresh-Flows N M A gossip audio G P with_size streamer _ fresh
  Reach-ListenerFlows fresh (arrives r idle e) =
      arrives-Flows N M A gossip audio G P with_size streamer _ (Reach-ListenerFlows fresh r) e
  Reach-ListenerFlows fresh (handled r e taken ready) =
      handled-Flows N M A gossip audio G P with_size streamer _ (Reach-ListenerFlows fresh r) e
        ready
  Reach-ListenerFlows fresh (received r idle m rest got) =
      received-Flows N M A gossip audio G P with_size streamer _ (Reach-ListenerFlows fresh r) m
        rest idle got
  Reach-ListenerFlows fresh (relayed r m taken ready) =
      relayed-Flows N M A gossip audio G P with_size streamer _ (Reach-ListenerFlows fresh r) m
        taken ready
  Reach-ListenerFlows fresh (pushed r bytes rest got went) =
      pushed-Flows N M A gossip audio G P with_size streamer _ (Reach-ListenerFlows fresh r) bytes
        rest got went
