-- ===== src/Tasks/Radio.antt =====
-- A streamer's node and a listener's node at once, and the network between them.
use Prim.Native.String.{String}
use p2pradio.Prelude.{
  ℕ, ◌≡◌, refl, ap, sym, ◌∙◌, false, Option, none, some, List, [], ◌∷◌, ◌++◌, Result, map, All,
  IsPrefix, IsPrefix-trans, map_split, All-left, append_assoc, map-append, subst,
}
use p2pradio.Errors.{Foreign}
use p2pradio.Network.{Network}
use p2pradio.Channel.{Mpsc, Bounded}
use p2pradio.Codec.{Message, audio_packet, metadata, encode, IsMessage}
use p2pradio.Ogg.{Sample}
use p2pradio.Encoder.{Gst, Input, buffer, changed, closed}
use p2pradio.Encoder.Loops.{messages, is_over, readable}
use p2pradio.Swarm.{SwarmEvent}
use p2pradio.Swarm.Streamer as SwarmStreamer
use p2pradio.Swarm.Streamer.{accepted}
use p2pradio.Swarm.Heard.{heard, Delivers-heard}
use p2pradio.Bridge.Relay.{audio_packets, last_title}
use p2pradio.Decoder.{AppSrc}
use p2pradio.Tasks.Streamer.{sink_capacity, gossip_pub_capacity}
use p2pradio.Tasks.Streamer.Rounds.{buffers}
use p2pradio.Tasks.Listener.{gossip_sub_capacity, audio_capacity}
use p2pradio.Tasks.Streamer
use p2pradio.Tasks.Streamer.Flow as StreamerFlow
use p2pradio.Tasks.Listener
use p2pradio.Tasks.Listener.Flow as ListenerFlow

audio_packets-append_all :
    (ms ns : List Message) → audio_packets (ms ++ ns) ≡ audio_packets ms ++ audio_packets ns
audio_packets-append_all [] ns = refl
audio_packets-append_all (audio_packet bytes ∷ ms) ns =
    ap (◌∷◌ bytes) (audio_packets-append_all ms ns)
audio_packets-append_all (metadata d ∷ ms) ns = audio_packets-append_all ms ns

audio_packets-IsPrefix :
    (ms ns : List Message) → IsPrefix ms ns → IsPrefix (audio_packets ms) (audio_packets ns)
audio_packets-IsPrefix ms ns (rest, e) =
    (audio_packets rest, sym (audio_packets-append_all ms rest) ∙ ap audio_packets e)

pub audio_packets-messages :
    (F : Foreign) (M : Mpsc Message) (to_string : Message → String) (inputs : List Input)
    → is_over F M to_string inputs ≡ false
    → audio_packets (messages F M to_string inputs) ≡ buffers inputs
audio_packets-messages F M to_string [] h = refl
audio_packets-messages F M to_string (closed ∷ inputs) h = cc
audio_packets-messages F M to_string (buffer buf ∷ inputs) h =
    ap (◌∷◌ buf) (audio_packets-messages F M to_string inputs h)
audio_packets-messages F M to_string (changed none ∷ inputs) h =
    audio_packets-messages F M to_string inputs h
audio_packets-messages F M to_string (changed (some title) ∷ inputs) h =
    audio_packets-messages F M to_string inputs h

module _ {F : Foreign} (N : Network F) (S A : Mpsc (List ℕ)) (M : Mpsc Message)
    (sink : Bounded S sink_capacity) (gossip_pub : Bounded M gossip_pub_capacity)
    (gossip_sub : Bounded M gossip_sub_capacity) (audio : Bounded A audio_capacity)
    (to_string : Message → String) (topic : N.Topic) (G : Gst) (P : AppSrc)
    (with_size : ℕ → Result (Option (Option (Unit {0}))) G.BoolError) (streamer : N.PeerId) where
  abbrev StreamerNode : Type 0
  StreamerNode = Streamer.Node N S M sink gossip_pub to_string topic

  abbrev ListenerNode : Type 0
  ListenerNode = Listener.Node N M A gossip_sub audio G P with_size streamer

  -- the messages that have reached the bridge and gone through it, and what became of them
  pub record IsTunedIn (samples : List (Option Sample)) (inputs : List Input) (title : List ℕ)
      (n : ListenerNode) : Type 0 where
    pub relayed : List Message
    pub in_order : IsPrefix relayed (messages F M to_string inputs)
    pub shown : n.bridge.title ≡ last_title title relayed
    pub played : audio_packets relayed ≡ P.pushed n.src ++ audio.held n.bridge.app_src_tx
    pub heard_live : IsPrefix (P.pushed n.src) (readable S samples)

  -- A streamer and a listener run from fresh nodes, each with its tasks in any order, where gossipsub
  -- has accepted all that the streamer published in this run and the titles are well formed. If what the listener hears from the
  -- streamer itself is, in order, the front of what the streamer has published, then the messages that
  -- went through the bridge are the front of the programme, the title shown is their last or the one
  -- before, their audio is what the appsrc was given and then what waits for it, and what the appsrc was
  -- given is the front of the buffers of the samples that the encoder could read.
  pub Reach-IsTunedIn :
      {streaming streaming' : StreamerNode} {samples : List (Option Sample)} {inputs : List Input}
      {listening listening' : ListenerNode} {events : List (SwarmEvent N)}
      → StreamerFlow.IsFresh N S M sink gossip_pub to_string topic streaming
      → (r : Streamer.Reach N S M sink gossip_pub to_string topic streaming samples inputs
          streaming')
      → (let tasks = Streamer.taken N S M sink gossip_pub to_string topic r in
          accepted N topic tasks streaming.swarm ≡ SwarmStreamer.offered N tasks)
      → All IsMessage (messages F M to_string inputs)
      → ListenerFlow.IsFresh N M A gossip_sub audio G P with_size streamer listening
      → Listener.Reach N M A gossip_sub audio G P with_size streamer listening events listening'
      → IsPrefix (heard N M streamer events) (N.published streaming'.swarm.gossipsub)
      → IsTunedIn samples inputs listening.bridge.title listening'
  Reach-IsTunedIn {streaming = streaming} {streaming' = t} {samples = samples} {inputs = inputs}
        {listening' = n} {events = events} fresh r all_accepted well fresh' r' (later, h) =
      let f = StreamerFlow.Reach-FreshFlows N S M sink gossip_pub to_string topic fresh r in
      let g =
        ListenerFlow.Reach-ListenerFlows N M A gossip_sub audio G P with_size streamer fresh' r' in
      let programme = messages F M to_string inputs in
      let waiting =
        gossip_pub.held t.gossip_tx
        ++ StreamerFlow.in_hand N S M sink gossip_pub to_string topic t.hand in
      let offered =
        SwarmStreamer.offered N (Streamer.taken N S M sink gossip_pub to_string topic r) in
      let (front, same, (tail, p)) = map_split encode programme (heard N M streamer events) _ (
        ap (map encode) f.gossip_flow
        ∙ map-append encode offered waiting
        ∙ ap (λ l. l ++ map encode waiting) (sym (h ∙ f.published ∙ ap (map encode) all_accepted))
        ∙ append_assoc _ later (map encode waiting)) in
      let brought =
        Delivers-heard N M streamer events g.messages front
          (All-left IsMessage front tail (subst (All IsMessage) (sym p) well)) same g.delivers in
      let in_order : IsPrefix g.relayed programme =
        IsPrefix-trans g.relayed front programme (_, sym g.message_flow ∙ brought) (tail, p) in
      record {
        relayed = g.relayed;
        in_order = in_order;
        shown = g.title_eq;
        played = g.audio_flow;
        heard_live =
            IsPrefix-trans (P.pushed n.src) (audio_packets g.relayed) (readable S samples)
              (_, sym g.audio_flow)
              (IsPrefix-trans (audio_packets g.relayed) (buffers inputs) (readable S samples)
                (subst (IsPrefix (audio_packets g.relayed))
                  (audio_packets-messages F M to_string inputs f.going)
                  (audio_packets-IsPrefix g.relayed programme in_order))
                (_, sym f.sink_flow));
      }
