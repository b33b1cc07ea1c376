-- ===== src/Tasks/Complete.antt =====
-- A streamer's node that has sent all that came in, and a listener's node that has heard it all.
use Prim.Native.String.{[], String}
use p2pradio.Prelude.{
  All-left, All-IsSublist, subst, ap, none, ℕ, ◌≡◌, sym, ◌∙◌, Option, List, ◌++◌, Result, All,
}
use p2pradio.Errors.{Foreign}
use p2pradio.Network.{Network}
use p2pradio.Channel.{Mpsc, Bounded}
use p2pradio.Codec.{Message, IsMessage}
use p2pradio.Ogg.{Sample}
use p2pradio.Encoder.{Gst, Input}
use p2pradio.Encoder.Loops.{messages, readable}
use p2pradio.Swarm.{SwarmEvent}
use p2pradio.Swarm.Streamer as SwarmStreamer
use p2pradio.Swarm.Streamer.{accepted, accepted-IsSublist}
use p2pradio.Swarm.Heard.{heard, Delivers-heard}
use p2pradio.Tasks.Radio.{audio_packets-messages}
use p2pradio.Bridge.Relay.{audio_packets, last_title}
use p2pradio.Decoder.{AppSrc}
use p2pradio.Tasks.Streamer.{sink_capacity, gossip_pub_capacity}
use p2pradio.Tasks.Streamer.Rounds.{buffers}
use p2pradio.Tasks.Listener.{gossip_sub_capacity, audio_capacity}
use p2pradio.Tasks.Streamer
use p2pradio.Tasks.Streamer.Flow as StreamerFlow
use p2pradio.Tasks.Listener
use p2pradio.Tasks.Listener.Flow as ListenerFlow
use p2pradio.Prelude.{append-nil, [], none}
use p2pradio.Tasks.Listener.Drain as ListenerDrain

module _ {F : Foreign} (N : Network F) (S A : Mpsc (List ℕ)) (M : Mpsc Message)
    (sink : Bounded S sink_capacity) (gossip_pub : Bounded M gossip_pub_capacity)
    (gossip_sub : Bounded M gossip_sub_capacity) (audio : Bounded A audio_capacity)
    (to_string : Message → String) (topic : N.Topic) (G : Gst) (P : AppSrc)
    (with_size : ℕ → Result (Option (Option (Unit {0}))) G.BoolError) (streamer : N.PeerId) where
  abbrev StreamerNode : Type 0
  StreamerNode = Streamer.Node N S M sink gossip_pub to_string topic

  abbrev ListenerNode : Type 0
  ListenerNode = Listener.Node N M A gossip_sub audio G P with_size streamer

  -- A streamer and a listener run from fresh nodes, each with its tasks in any order, where the titles
  -- are well formed, and the appsrc accepts what it is given now and goes on so as it is given more;
  -- gossipsub may refuse messages. When the listener has heard from the streamer itself just what was
  -- published, the listener can go on from where it is, without another event, until the appsrc was
  -- given the audio of just those messages that gossipsub accepted, in order and nothing else, and the
  -- title is the last one of them, or the one that it started with.
  pub Reach-heard :
      {streaming streaming' : StreamerNode} {samples : List (Option Sample)} {inputs : List Input}
      {listening listening' : ListenerNode} {events : List (SwarmEvent N)}
      → (playing : P.Src → Type 0) → ListenerDrain.IsPlaying G P with_size playing
      → StreamerFlow.IsFresh N S M sink gossip_pub to_string topic streaming
      → (r : Streamer.Reach N S M sink gossip_pub to_string topic streaming samples inputs
          streaming')
      → All IsMessage (messages F M to_string inputs)
      → ListenerFlow.IsFresh N M A gossip_sub audio G P with_size streamer listening
      → Listener.Reach N M A gossip_sub audio G P with_size streamer listening events listening'
      → playing listening'.src
      → heard N M streamer events ≡ N.published streaming'.swarm.gossipsub
      → let sent =
          accepted N topic
            (Streamer.taken N S M sink gossip_pub to_string topic r)
            streaming.swarm in
        (done : ListenerNode) × Listener.Reach N M A gossip_sub audio G P with_size streamer
          listening' [] done
        × (P.pushed done.src ≡ audio_packets sent)
        × (done.bridge.title ≡ last_title listening.bridge.title sent)
  Reach-heard {streaming = streaming} {listening = start} {events = events} playing willing fresh r
        well fresh' r' plays h =
      let f = StreamerFlow.Reach-FreshFlows N S M sink gossip_pub to_string topic fresh r in
      let tasks = Streamer.taken N S M sink gossip_pub to_string topic r in
      let offered = SwarmStreamer.offered N tasks in
      let sent = accepted N topic tasks streaming.swarm in
      let (done, ms, reached, no_message, no_hand, no_audio, brought, played, shown) =
        ListenerDrain.Reach-played N M A gossip_sub audio G P with_size streamer playing willing
          fresh' r' plays in
      let well_sent : All IsMessage sent =
        All-IsSublist IsMessage (accepted-IsSublist N topic tasks streaming.swarm)
          (All-left IsMessage offered _ (subst (All IsMessage) f.gossip_flow well)) in
      let same : ms ≡ sent =
        Delivers-heard N M streamer events ms sent well_sent (h ∙ f.published) brought in
      (
        done,
        reached,
        played ∙ ap audio_packets same,
        shown ∙ ap (last_title start.bridge.title) same,
      )

  -- A streamer and a listener run from fresh nodes, each with its tasks in any order, where gossipsub
  -- has accepted all that the streamer published in this run, the titles are well formed, and the appsrc
  -- accepts what it is given now and goes on so as it is given more. When nothing waits in the streamer
  -- any more, and the listener has heard from the streamer itself just what was published, the listener
  -- can go on from where it is, without another event, until the appsrc was given the buffers of all the samples that the encoder could read, in order and nothing else, and the title is
  -- the last one of the programme, or the one that it started with.
  pub Reach-complete :
      {streaming streaming' : StreamerNode} {samples : List (Option Sample)} {inputs : List Input}
      {listening listening' : ListenerNode} {events : List (SwarmEvent N)}
      → (playing : P.Src → Type 0) → ListenerDrain.IsPlaying G P with_size playing
      → StreamerFlow.IsFresh N S M sink gossip_pub to_string topic streaming
      → (r : Streamer.Reach N S M sink gossip_pub to_string topic streaming samples inputs
          streaming')
      → (let tasks = Streamer.taken N S M sink gossip_pub to_string topic r in
          accepted N topic tasks streaming.swarm ≡ SwarmStreamer.offered N tasks)
      → sink.held streaming'.sink_tx ≡ []
      → streaming'.hand ≡ none
      → gossip_pub.held streaming'.gossip_tx ≡ []
      → All IsMessage (messages F M to_string inputs)
      → ListenerFlow.IsFresh N M A gossip_sub audio G P with_size streamer listening
      → Listener.Reach N M A gossip_sub audio G P with_size streamer listening events listening'
      → playing listening'.src
      → heard N M streamer events ≡ N.published streaming'.swarm.gossipsub
      → (done : ListenerNode) × Listener.Reach N M A gossip_sub audio G P with_size streamer
          listening' [] done
        × (P.pushed done.src ≡ readable S samples)
        × (done.bridge.title ≡ last_title listening.bridge.title (messages F M to_string inputs))
  Reach-complete {streaming = streaming} {streaming' = t} {inputs = inputs} {listening = start}
        playing willing fresh r all_accepted emptied idle sent_all well fresh' r' plays h =
      let f = StreamerFlow.Reach-FreshFlows N S M sink gossip_pub to_string topic fresh r in
      let tasks = Streamer.taken N S M sink gossip_pub to_string topic r in
      let offered = SwarmStreamer.offered N tasks in
      let in_hand = StreamerFlow.in_hand N S M sink gossip_pub to_string topic in
      let (done, reached, played, shown) =
        Reach-heard playing willing fresh r well fresh' r' plays h in
      let whole : accepted N topic tasks streaming.swarm ≡ messages F M to_string inputs =
        all_accepted
        ∙ sym (
            f.gossip_flow
            ∙ ap (◌++◌ offered) (ap (λ l. l ++ in_hand t.hand) sent_all ∙ ap in_hand idle)
            ∙ append-nil offered) in
      (
        done,
        reached,
        played
            ∙ ap audio_packets whole
            ∙ audio_packets-messages F M to_string inputs f.going
            ∙ sym (f.sink_flow ∙ ap (◌++◌ (buffers inputs)) emptied ∙ append-nil (buffers inputs)),
        shown ∙ ap (last_title start.bridge.title) whole,
      )
