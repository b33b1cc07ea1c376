-- ===== src/Tasks/Tests.antt =====
-- Runs of the nodes of Tasks/ over the channels of Channel/Queues.antt and the network of
-- Network/Tables.antt. Peer 1 is the streamer.
mod Lossy
mod Drain
mod Titles
use Prim.Native.String.{String}
use p2pradio.Prelude.{ℕ, refl, false, Option, none, some, List, [], ◌∷◌, inl, arith}
use p2pradio.Network.Tables.{tables}
use p2pradio.Channel.{Mpsc, Bounded}
use p2pradio.Channel.Queues.{queue_mpsc, queue_bounded, empty}
use p2pradio.Codec.{decode, decode_bin, Message, audio_packet, encode, encode_bin}
use p2pradio.Text.{as_bytes, encode_utf8}
use p2pradio.Ogg.{Sample, read_sample}
use p2pradio.Encoder.{Input, buffer, changed, sink_sample, msg_loop, send_or_other}
use p2pradio.Swarm.{
  StreamerInput, Swarm, SwarmEvent, behaviour, gossipsub, message, process_listener_event,
  process_listener_behavior_event, process_gossip_sub_event, accept, accept_decoded, forward,
  run_streamer, publish_data, process_streamer_event,
}
use p2pradio.Tasks.Streamer.{Node, Reach, here, sampled, buffered, titled, sent, offered, network}
use p2pradio.Bridge.{step}
use p2pradio.Decoder.{process_bytes, new_buffer}
use p2pradio.Decoder.Sources.{G, source, room}
use p2pradio.Swarm.Heard.{heard}
use p2pradio.Tasks.Listener
use p2pradio.Tasks.Listener.Flow
use p2pradio.Prelude.{nil, keep, drop_one}
use p2pradio.Tasks.Lossy.{IsLossy, Reach-IsLossy}
use p2pradio.Tasks.Radio.{IsTunedIn, Reach-IsTunedIn}
use p2pradio.Tasks.Streamer.Flow.{Flows, IsFresh, IsOpen, fresh-IsOpen, Reach-Flows}

abbrev S : Mpsc (List ℕ)
S = queue_mpsc (List ℕ)

abbrev M : Mpsc Message
M = queue_mpsc Message

abbrev sink : Bounded S 100
sink = queue_bounded (List ℕ) 100

abbrev gossip : Bounded M 100
gossip = queue_bounded Message 100

abbrev text : Message → String
text m = "channel closed"

abbrev silent : Swarm tables
silent = record {
  gossipsub = record { explicit = λ q. false; blacklisted = λ q. false; log = [] };
  local_peer_id = 1;
}

abbrev StreamerState : Type 0
StreamerState = Node tables S M sink gossip text 0

abbrev fresh : StreamerState
fresh = record { sink_tx = empty; hand = none; gossip_tx = empty; swarm = silent }

abbrev sample : Option Sample
sample = some (record { buffer = some (record { content = some (some (1 ∷ [])); header = false }) })

abbrev on_air : Swarm tables
on_air = record silent {
  gossipsub = record silent.gossipsub { log = encode (audio_packet (1 ∷ [])) ∷ [] };
}

-- one packet is published, and a title is in hand
abbrev reached : StreamerState
reached = record {
  sink_tx = record { log = (1 ∷ []) ∷ []; waiting = []; closed = false };
  hand = some (changed (some (65 ∷ [])));
  gossip_tx = record { log = audio_packet (1 ∷ []) ∷ []; waiting = []; closed = false };
  swarm = on_air;
}

abbrev inputs : List Input
inputs = buffer (1 ∷ []) ∷ changed (some (65 ∷ [])) ∷ []

fresh-IsFresh : IsFresh tables S M sink gossip text 0 fresh
fresh-IsFresh = record {
  sink_open = refl;
  sink_empty = refl;
  nothing_taken = refl;
  gossip_open = refl;
  gossip_empty = refl;
  silent = refl;
}

interleaved : Reach tables S M sink gossip text 0 fresh (sample ∷ []) inputs reached
unfolding sink_sample read_sample msg_loop send_or_other run_streamer publish_data
    process_streamer_event encode encode_bin as_bytes encode_utf8
interleaved =
    titled
      (offered
        (sent
          (network (buffered (sampled here (omega arith) sample) refl (1 ∷ []) _ refl)
            SwarmEvent.other)
          (buffer (1 ∷ [])) refl (inl (omega arith)))
        (audio_packet (1 ∷ [])) _ refl)
      refl (some (65 ∷ []))

fresh-IsOpen_lem : IsOpen tables S M sink gossip text 0 fresh
fresh-IsOpen_lem = fresh-IsOpen tables S M sink gossip text 0 fresh fresh-IsFresh

abbrev swarm_tasks : List (StreamerInput tables)
swarm_tasks =
    StreamerInput.event SwarmEvent.other ∷ StreamerInput.publish (audio_packet (1 ∷ [])) ∷ []

Reach-Flows_example :
    Flows tables S M sink gossip text 0 fresh (sample ∷ []) inputs swarm_tasks reached
unfolding interleaved
Reach-Flows_example = Reach-Flows tables S M sink gossip text 0 fresh-IsOpen_lem interleaved

abbrev A : Mpsc (List ℕ)
A = queue_mpsc (List ℕ)

abbrev audio : Bounded A 100
audio = queue_bounded (List ℕ) 100

abbrev ListenerState : Type 0
ListenerState = Listener.Node tables M A gossip audio G source room 1

abbrev tuned : Swarm tables
tuned = record silent { local_peer_id = 7 }

abbrev waiting : ListenerState
waiting = record {
  arrived = none;
  swarm = tuned;
  gossip_tx = empty;
  message = none;
  bridge = record { app_src_tx = empty; title = [] };
  src = [];
}

abbrev packet_event : SwarmEvent tables
packet_event = behaviour (
    gossipsub (
      message 1 4 (record {
        source = none;
        content = encode (audio_packet (1 ∷ []));
        sequence_number = some 9;
        topic = 0;
      })))

-- the packet is played, and another event has arrived
abbrev playing_state : ListenerState
playing_state = record {
  arrived = some SwarmEvent.other;
  swarm = tuned;
  gossip_tx = record { log = audio_packet (1 ∷ []) ∷ []; waiting = []; closed = false };
  message = none;
  bridge = record {
    app_src_tx = record { log = (1 ∷ []) ∷ []; waiting = []; closed = false };
    title = [];
  };
  src = (1 ∷ []) ∷ [];
}

waiting-IsFresh : Flow.IsFresh tables M A gossip audio G source room 1 waiting
waiting-IsFresh = record {
  nothing_taken = refl;
  gossip_open = refl;
  gossip_empty = refl;
  audio_open = refl;
  audio_empty = refl;
  silent = refl;
}

listened :
    Listener.Reach tables M A gossip audio G source room 1 waiting (packet_event ∷ []) playing_state
unfolding process_listener_event process_listener_behavior_event process_gossip_sub_event accept
    accept_decoded forward decode decode_bin encode encode_bin as_bytes encode_utf8 step
    process_bytes new_buffer
listened =
    Listener.arrives
      (Listener.pushed
        (Listener.relayed
          (Listener.received
            (Listener.handled (Listener.arrives Listener.here refl packet_event) packet_event refl
              (inl (omega arith)))
            refl (audio_packet (1 ∷ [])) _ refl)
          (audio_packet (1 ∷ [])) refl (inl (omega arith)))
        (1 ∷ []) _ refl refl)
      refl SwarmEvent.other

Reach-ListenerFlows_example :
    Flow.Flows tables M A gossip audio G source room 1 [] (packet_event ∷ []) playing_state
Reach-ListenerFlows_example =
    Flow.Reach-ListenerFlows tables M A gossip audio G source room 1 waiting-IsFresh listened

Reach-IsTunedIn_example :
    IsTunedIn tables S A M sink gossip gossip audio text 0 G source room 1
      (sample ∷ [])
      inputs
      []
      playing_state
unfolding heard interleaved process_streamer_event encode
Reach-IsTunedIn_example =
    Reach-IsTunedIn tables S A M sink gossip gossip audio text 0 G source room 1 fresh-IsFresh
      interleaved refl (tt, ((inl (omega arith), tt), tt)) waiting-IsFresh listened ([], refl)
