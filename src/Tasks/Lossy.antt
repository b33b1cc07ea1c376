-- ===== src/Tasks/Lossy.antt =====
-- A streamer's node and a listener's node at once, where the network between them loses messages.
use Prim.Native.String.{String}
use p2pradio.Prelude.{ℕ, ◌≡◌, refl, sym, ◌∙◌, Option, List, ◌++◌, Result, map, All, subst}
use p2pradio.Errors.{Foreign}
use p2pradio.Network.{Network}
use p2pradio.Channel.{Mpsc, Bounded}
use p2pradio.Codec.{Message, audio_packet, metadata, encode, IsMessage}
use p2pradio.Ogg.{Sample}
use p2pradio.Encoder.{Gst, Input}
use p2pradio.Encoder.Loops.{messages, readable}
use p2pradio.Swarm.{SwarmEvent}
use p2pradio.Swarm.Streamer as SwarmStreamer
use p2pradio.Swarm.Streamer.{accepted-IsSublist}
use p2pradio.Swarm.Heard.{heard, Delivers-heard}
use p2pradio.Tasks.Radio.{audio_packets-messages}
use p2pradio.Prelude.{
  IsSublist, nil, keep, drop_one, IsSublist-append, IsSublist-trans, map-IsSublist, All-IsSublist,
  IsSublist-map,
}
use p2pradio.Bridge.Relay.{audio_packets, last_title}
use p2pradio.Decoder.{AppSrc}
use p2pradio.Tasks.Streamer.{sink_capacity, gossip_pub_capacity}
use p2pradio.Tasks.Streamer.Rounds.{buffers}
use p2pradio.Tasks.Listener.{gossip_sub_capacity, audio_capacity}
use p2pradio.Tasks.Streamer
use p2pradio.Tasks.Streamer.Flow as StreamerFlow
use p2pradio.Tasks.Listener
use p2pradio.Tasks.Listener.Flow as ListenerFlow

audio_packets-IsSublist :
    {ms ns : List Message} → IsSublist ms ns → IsSublist (audio_packets ms) (audio_packets ns)
audio_packets-IsSublist nil = nil
audio_packets-IsSublist (keep {x = audio_packet bytes} p) = keep (audio_packets-IsSublist p)
audio_packets-IsSublist (keep {x = metadata d} p) = audio_packets-IsSublist p
audio_packets-IsSublist (drop_one {x = audio_packet bytes} p) = drop_one (audio_packets-IsSublist p)
audio_packets-IsSublist (drop_one {x = metadata d} p) = audio_packets-IsSublist p

module _ {F : Foreign} (N : Network F) (S A : Mpsc (List ℕ)) (M : Mpsc Message)
    (sink : Bounded S sink_capacity) (gossip_pub : Bounded M gossip_pub_capacity)
    (gossip_sub : Bounded M gossip_sub_capacity) (audio : Bounded A audio_capacity)
    (to_string : Message → String) (topic : N.Topic) (G : Gst) (P : AppSrc)
    (with_size : ℕ → Result (Option (Option (Unit {0}))) G.BoolError) (streamer : N.PeerId) where
  abbrev StreamerNode : Type 0
  StreamerNode = Streamer.Node N S M sink gossip_pub to_string topic

  abbrev ListenerNode : Type 0
  ListenerNode = Listener.Node N M A gossip_sub audio G P with_size streamer

  -- the messages that have gone through the bridge, and what became of them
  pub record IsLossy (samples : List (Option Sample)) (inputs : List Input) (title : List ℕ)
      (n : ListenerNode) : Type 0 where
    pub relayed : List Message
    pub some_in_order : IsSublist relayed (messages F M to_string inputs)
    pub shown : n.bridge.title ≡ last_title title relayed
    pub played : audio_packets relayed ≡ P.pushed n.src ++ audio.held n.bridge.app_src_tx
    pub some_played : IsSublist (P.pushed n.src) (readable S samples)

  -- Where gossipsub may refuse messages, the network may lose them, or the listener comes late: a
  -- streamer and a listener run from fresh nodes, each with its tasks in any order, where the titles are
  -- well formed. If what the listener hears from the streamer itself is some of what the
  -- streamer has published, in order, then the messages that went through the bridge are some of the
  -- programme, in order, the title shown is their last or the one before, their audio is what the
  -- appsrc was given and then what waits for it, and what the appsrc was given is some of the buffers
  -- of the samples that the encoder could read, in order, none twice.
  pub Reach-IsLossy :
      {streaming streaming' : StreamerNode} {samples : List (Option Sample)} {inputs : List Input}
      {listening listening' : ListenerNode} {events : List (SwarmEvent N)}
      → StreamerFlow.IsFresh N S M sink gossip_pub to_string topic streaming
      → Streamer.Reach N S M sink gossip_pub to_string topic streaming samples inputs streaming'
      → All IsMessage (messages F M to_string inputs)
      → ListenerFlow.IsFresh N M A gossip_sub audio G P with_size streamer listening
      → Listener.Reach N M A gossip_sub audio G P with_size streamer listening events listening'
      → IsSublist (heard N M streamer events) (N.published streaming'.swarm.gossipsub)
      → IsLossy samples inputs listening.bridge.title listening'
  Reach-IsLossy {streaming = streaming} {streaming' = t} {samples = samples} {inputs = inputs}
        {listening' = n} {events = events} fresh r well fresh' r' h =
      let f = StreamerFlow.Reach-FreshFlows N S M sink gossip_pub to_string topic fresh r in
      let tasks = Streamer.taken N S M sink gossip_pub to_string topic r in
      let g =
        ListenerFlow.Reach-ListenerFlows N M A gossip_sub audio G P with_size streamer fresh' r' in
      let programme = messages F M to_string inputs in
      let published = N.published t.swarm.gossipsub in
      let whole : IsSublist published (map encode programme) =
        subst (λ l. IsSublist l (map encode programme)) (sym f.published)
          (IsSublist-map encode (
            IsSublist-trans (accepted-IsSublist N topic tasks streaming.swarm) (
              subst (IsSublist (SwarmStreamer.offered N tasks)) (sym f.gossip_flow)
                (IsSublist-append (SwarmStreamer.offered N tasks) _)))) in
      let (part, same, within) =
        map-IsSublist encode programme (heard N M streamer events) _ refl
          (IsSublist-trans h whole) in
      let brought =
        Delivers-heard N M streamer events g.messages part (All-IsSublist IsMessage within well)
          same g.delivers in
      let relayed_part : IsSublist g.relayed part =
        subst (IsSublist g.relayed) (sym g.message_flow ∙ brought) (IsSublist-append g.relayed _) in
      let some_in_order = IsSublist-trans relayed_part within in
      let some_buffers : IsSublist (audio_packets g.relayed) (buffers inputs) =
        subst (IsSublist (audio_packets g.relayed))
          (audio_packets-messages F M to_string inputs f.going)
          (audio_packets-IsSublist some_in_order) in
      record {
        relayed = g.relayed;
        some_in_order = some_in_order;
        shown = g.title_eq;
        played = g.audio_flow;
        some_played =
            IsSublist-trans
              (subst (IsSublist (P.pushed n.src)) (sym g.audio_flow)
                (IsSublist-append (P.pushed n.src) _))
              (subst (IsSublist (audio_packets g.relayed)) (sym f.sink_flow)
                (IsSublist-trans some_buffers (IsSublist-append (buffers inputs) _)));
      }
