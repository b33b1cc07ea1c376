-- ===== src/Tasks/Shown.antt =====
-- The title from the tags of the streamer's source to the listener's display.
use Prim.Native.String.{String}
use p2pradio.Prelude.{false, none, ℕ, ◌≡◌, ◌∙◌, Option, List, [], Result, All}
use p2pradio.Errors.{Foreign}
use p2pradio.Network.{Network}
use p2pradio.Channel.{Mpsc, Bounded, Watch}
use p2pradio.Codec.{Message, IsMessage}
use p2pradio.Ogg.{Sample}
use p2pradio.Encoder.{Gst, Input, BusInput}
use p2pradio.Encoder.Loops.{messages, readable, titles_before}
use p2pradio.Swarm.{SwarmEvent}
use p2pradio.Swarm.Streamer as SwarmStreamer
use p2pradio.Swarm.Streamer.{accepted}
use p2pradio.Swarm.Heard.{heard}
use p2pradio.Decoder.{AppSrc}
use p2pradio.Tasks.Streamer.{sink_capacity, gossip_pub_capacity}
use p2pradio.Tasks.Listener.{gossip_sub_capacity, audio_capacity}
use p2pradio.Tasks.Streamer
use p2pradio.Tasks.Streamer.Flow as StreamerFlow
use p2pradio.Tasks.Listener
use p2pradio.Tasks.Listener.Flow as ListenerFlow
use p2pradio.Tasks.Listener.Drain as ListenerDrain
use p2pradio.Tasks.Titles.{Watched}
use p2pradio.Tasks.Latest.{Watched-IsKept, last_of, last_title-messages}
use p2pradio.Tasks.Complete.{Reach-complete}

module _ {F : Foreign} (N : Network F) (S A : Mpsc (List ℕ)) (M : Mpsc Message)
    (sink : Bounded S sink_capacity) (gossip_pub : Bounded M gossip_pub_capacity)
    (gossip_sub : Bounded M gossip_sub_capacity) (audio : Bounded A audio_capacity)
    (to_string : Message → String) (topic : N.Topic) (G : Gst) (P : AppSrc)
    (with_size : ℕ → Result (Option (Option (Unit {0}))) G.BoolError) (streamer : N.PeerId)
    (W : Watch (Option (List ℕ))) where
  abbrev StreamerNode : Type 0
  StreamerNode = Streamer.Node N S M sink gossip_pub to_string topic

  abbrev ListenerNode : Type 0
  ListenerNode = Listener.Node N M A gossip_sub audio G P with_size streamer

  -- A streamer and a listener run from fresh nodes, each with its tasks in any order, and the
  -- streamer takes its titles from the tags on the bus through the watch channel; gossipsub has
  -- accepted all that the streamer published in this run, the titles that are sent are well formed,
  -- and the appsrc accepts what it is given now and goes on so as it is given more. When nothing waits
  -- in the streamer any more, nor is to be seen in the watch channel, and the listener has heard from
  -- the streamer itself just what was published, the listener can go on from where it is, without
  -- another event, until the appsrc was given the buffers of all the samples that the encoder could
  -- read, in order and nothing else, and the title shown is that of the last tag that came with one,
  -- or the one that it started with.
  pub Watched-complete :
      {streaming : StreamerNode} (brought : List (BusInput G)) (w : W.Chan)
      (samples : List (Option Sample)) (inputs : List Input) (streaming' : StreamerNode)
      (r : Streamer.Reach N S M sink gossip_pub to_string topic streaming samples inputs streaming')
      {listening listening' : ListenerNode} {events : List (SwarmEvent N)}
      → Watched N S M sink gossip_pub to_string topic G W brought w samples inputs streaming' r
      → W.has_changed w ≡ false
      → (let tasks = Streamer.taken N S M sink gossip_pub to_string topic r in
          accepted N topic tasks streaming.swarm ≡ SwarmStreamer.offered N tasks)
      → (playing : P.Src → Type 0) → ListenerDrain.IsPlaying G P with_size playing
      → StreamerFlow.IsFresh N S M sink gossip_pub to_string topic streaming
      → sink.held streaming'.sink_tx ≡ []
      → streaming'.hand ≡ none
      → gossip_pub.held streaming'.gossip_tx ≡ []
      → All IsMessage (messages F M to_string inputs)
      → ListenerFlow.IsFresh N M A gossip_sub audio G P with_size streamer listening
      → Listener.Reach N M A gossip_sub audio G P with_size streamer listening events listening'
      → playing listening'.src
      → heard N M streamer events ≡ N.published streaming'.swarm.gossipsub
      → (done : ListenerNode) × Listener.Reach N M A gossip_sub audio G P with_size streamer
          listening' [] done
        × (P.pushed done.src ≡ readable S samples)
        × (done.bridge.title ≡ last_of listening.bridge.title (titles_before brought))
  Watched-complete brought w samples inputs t r {listening = start} watched seen all_accepted
        playing willing fresh emptied idle sent_all well fresh' r' plays h =
      let flows = StreamerFlow.Reach-FreshFlows N S M sink gossip_pub to_string topic fresh r in
      let kept =
        Watched-IsKept N S M sink gossip_pub to_string topic G W brought w samples inputs t r
          watched in
      let (done, reached, played, shown) =
        Reach-complete N S A M sink gossip_pub gossip_sub audio to_string topic G P with_size
          streamer playing willing fresh r all_accepted emptied idle sent_all well fresh' r' plays
          h in
      (
        done,
        reached,
        played,
        shown
            ∙ last_title-messages F M to_string start.bridge.title inputs flows.going
            ∙ kept.seen seen start.bridge.title,
      )
