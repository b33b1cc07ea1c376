-- ===== src/Tasks/Tests/Drain.antt =====
-- Nodes that go on until nothing waits.
use p2pradio.Prelude.{some, map, ◌≡◌, refl, false, none, List, [], ◌∷◌, inl, arith}
use p2pradio.Network.Tables.{texts, tables}
use p2pradio.Channel.Queues.{empty}
use p2pradio.Codec.{decode, decode_bin, Message, audio_packet, encode, encode_bin}
use p2pradio.Text.{as_bytes, encode_utf8}
use p2pradio.Encoder.{Input}
use p2pradio.Swarm.{
  message, gossipsub, behaviour, SwarmEvent, process_listener_event,
  process_listener_behavior_event, process_gossip_sub_event, accept, accept_decoded, forward,
}
use p2pradio.Tasks.Streamer.{Reach, taken}
use p2pradio.Swarm.{process_streamer_event}
use p2pradio.Swarm.Streamer.{offered, accepted}
use p2pradio.Codec.{metadata}
use p2pradio.Decoder.Sources.{G, room}
use p2pradio.Tasks.Listener
use p2pradio.Tasks.Listener.Flow as ListenerFlow
use p2pradio.Tasks.Tests.{
  silent, S, M, A, sink, gossip, audio, text, StreamerState, sample, fresh-IsFresh, packet_event,
  interleaved, tuned, reached, on_air,
}
use p2pradio.Decoder.Sources.{eager, Playing, eager-IsPlaying}
use p2pradio.Tasks.Streamer.Rounds.{buffers}
use p2pradio.Encoder.Loops.{messages, readable}
use p2pradio.Swarm.Heard.{heard}
use p2pradio.Ogg.{read_sample}
use p2pradio.Tasks.Complete.{Reach-heard, Reach-complete}
use p2pradio.Tasks.Tests.Lossy.{sent_both, both_accepted}
use p2pradio.Tasks.Streamer.Drain.{Reach-drained}
use p2pradio.Tasks.Listener.Drain.{Reach-played}
use p2pradio.Swarm.Forward.{Delivers}
use p2pradio.Bridge.Relay.{audio_packets, last_title}

-- the title that is in hand is published
Reach-drained_example :
    (more : List Input) × (n' : StreamerState) × (q : Reach tables S M sink gossip text 0 reached []
      more n')
    × (n'.sink_tx.waiting ≡ [])
    × (n'.hand ≡ none)
    × (n'.gossip_tx.waiting ≡ [])
    × (readable S (sample ∷ []) ≡ (1 ∷ []) ∷ buffers more)
    × (audio_packet (1 ∷ []) ∷ metadata (record { title = 65 ∷ [] }) ∷ messages texts M text more
        ≡ audio_packet (1 ∷ []) ∷ offered tables (taken tables S M sink gossip text 0 q))
    × (n'.swarm.gossipsub.log
        ≡ map encode (
            audio_packet (1 ∷ [])
            ∷ accepted tables 0 (taken tables S M sink gossip text 0 q) on_air))
unfolding interleaved process_streamer_event encode
Reach-drained_example = Reach-drained tables S M sink gossip text 0 fresh-IsFresh interleaved

abbrev pub EagerState : Type 0
EagerState = Listener.Node tables M A gossip audio G eager room 1

abbrev pub ready_to_play : EagerState
ready_to_play = record {
  arrived = none;
  swarm = tuned;
  gossip_tx = empty;
  message = none;
  bridge = record { app_src_tx = empty; title = [] };
  src = [];
}

abbrev packet_waits : EagerState
packet_waits = record ready_to_play {
  gossip_tx = record {
    log = audio_packet (1 ∷ []) ∷ [];
    waiting = audio_packet (1 ∷ []) ∷ [];
    closed = false;
  };
}

pub ready-IsFresh : ListenerFlow.IsFresh tables M A gossip audio G eager room 1 ready_to_play
ready-IsFresh = record {
  nothing_taken = refl;
  gossip_open = refl;
  gossip_empty = refl;
  audio_open = refl;
  audio_empty = refl;
  silent = refl;
}

arrived_packet :
    Listener.Reach tables M A gossip audio G eager room 1 ready_to_play
      (packet_event ∷ [])
      packet_waits
unfolding process_listener_event process_listener_behavior_event process_gossip_sub_event accept
    accept_decoded forward decode decode_bin encode encode_bin as_bytes encode_utf8
arrived_packet =
    Listener.handled (Listener.arrives Listener.here refl packet_event) packet_event refl
      (inl (omega arith))

-- the packet that waits is played
Reach-played_example :
    (n' : EagerState) × (messages : List Message) × Listener.Reach tables M A gossip audio G eager
      room 1 packet_waits [] n'
    × (n'.gossip_tx.waiting ≡ [])
    × (n'.message ≡ none)
    × (n'.bridge.app_src_tx.waiting ≡ [])
    × Delivers tables M 1 (packet_event ∷ []) messages
    × (n'.src ≡ audio_packets messages)
    × (n'.bridge.title ≡ last_title [] messages)
Reach-played_example =
    Reach-played tables M A gossip audio G eager room 1 Playing eager-IsPlaying ready-IsFresh
      arrived_packet tt

-- a streamer that has sent both packets, and a listener that has heard them
abbrev first_event : SwarmEvent tables
first_event = behaviour (
    gossipsub (
      message 1 3 (record {
        source = none;
        content = encode (audio_packet (2 ∷ []));
        sequence_number = some 8;
        topic = 0;
      })))

abbrev packets_wait : EagerState
packets_wait = record ready_to_play {
  gossip_tx = record {
    log = audio_packet (2 ∷ []) ∷ audio_packet (1 ∷ []) ∷ [];
    waiting = audio_packet (2 ∷ []) ∷ audio_packet (1 ∷ []) ∷ [];
    closed = false;
  };
}

arrived_both :
    Listener.Reach tables M A gossip audio G eager room 1 ready_to_play
      (first_event ∷ packet_event ∷ [])
      packets_wait
unfolding process_listener_event process_listener_behavior_event process_gossip_sub_event accept
    accept_decoded forward decode decode_bin encode encode_bin as_bytes encode_utf8
arrived_both =
    let first =
      Listener.handled (Listener.arrives Listener.here refl first_event) first_event refl
        (inl (omega arith)) in
    Listener.handled (Listener.arrives first refl packet_event) packet_event refl
      (inl (omega arith))

Reach-complete_example :
    (done : EagerState) × Listener.Reach tables M A gossip audio G eager room 1 packets_wait [] done
    × (done.src ≡ (2 ∷ []) ∷ (1 ∷ []) ∷ [])
    × (done.bridge.title ≡ [])
unfolding heard read_sample
Reach-complete_example =
    Reach-complete tables S A M sink gossip gossip audio text 0 G eager room 1 Playing
      eager-IsPlaying fresh-IsFresh sent_both both_accepted refl refl refl (tt, (tt, tt))
      ready-IsFresh arrived_both tt refl

Reach-heard_example :
    let sent = accepted tables 0 (taken tables S M sink gossip text 0 sent_both) silent in
    (done : EagerState) × Listener.Reach tables M A gossip audio G eager room 1 packets_wait [] done
    × (done.src ≡ audio_packets sent)
    × (done.bridge.title ≡ last_title [] sent)
unfolding heard
Reach-heard_example =
    Reach-heard tables S A M sink gossip gossip audio text 0 G eager room 1 Playing eager-IsPlaying
      fresh-IsFresh sent_both (tt, (tt, tt)) ready-IsFresh arrived_both tt refl
