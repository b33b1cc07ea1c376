-- ===== src/Tasks/Tests/Lossy.antt =====
-- A listener that hears the second of two packets.
use p2pradio.Prelude.{◌≡◌, refl, false, Option, none, some, List, [], ◌∷◌, inl, arith}
use p2pradio.Network.Tables.{tables}
use p2pradio.Codec.{audio_packet, encode, encode_bin}
use p2pradio.Text.{as_bytes, encode_utf8}
use p2pradio.Ogg.{Sample, read_sample}
use p2pradio.Encoder.{Input, buffer, sink_sample, msg_loop, send_or_other}
use p2pradio.Swarm.{run_streamer, publish_data, process_streamer_event}
use p2pradio.Tasks.Streamer.{Reach, here, sampled, buffered, sent, taken}
use p2pradio.Tasks.Streamer
use p2pradio.Swarm.Streamer.{accepted, offered}
use p2pradio.Decoder.Sources.{G, source, room}
use p2pradio.Swarm.Heard.{heard}
use p2pradio.Prelude.{nil, keep, drop_one}
use p2pradio.Tasks.Lossy.{IsLossy, Reach-IsLossy}
use p2pradio.Tasks.Tests.{
  S, M, A, sink, gossip, audio, text, silent, StreamerState, fresh, sample, fresh-IsFresh,
  waiting-IsFresh, playing_state, listened,
}

abbrev pub other_sample : Option Sample
other_sample =
    some (record { buffer = some (record { content = some (some (2 ∷ [])); header = false }) })

-- two packets are published, the one that the listener hears and one before it
abbrev pub both : StreamerState
both = record {
  sink_tx = record { log = (2 ∷ []) ∷ (1 ∷ []) ∷ []; waiting = []; closed = false };
  hand = none;
  gossip_tx = record {
    log = audio_packet (2 ∷ []) ∷ audio_packet (1 ∷ []) ∷ [];
    waiting = [];
    closed = false;
  };
  swarm = record silent {
    gossipsub = record silent.gossipsub {
      log = encode (audio_packet (2 ∷ [])) ∷ encode (audio_packet (1 ∷ [])) ∷ [];
    };
  };
}

abbrev pub both_inputs : List Input
both_inputs = buffer (2 ∷ []) ∷ buffer (1 ∷ []) ∷ []

pub sent_both :
    Reach tables S M sink gossip text 0 fresh (other_sample ∷ sample ∷ []) both_inputs both
unfolding sink_sample read_sample msg_loop send_or_other run_streamer publish_data
    process_streamer_event encode encode_bin as_bytes encode_utf8
sent_both =
    let queued = sampled (sampled here (omega arith) other_sample) (omega arith) sample in
    let first =
      sent (buffered queued refl (2 ∷ []) _ refl) (buffer (2 ∷ [])) refl (inl (omega arith)) in
    let second =
      sent (buffered first refl (1 ∷ []) _ refl) (buffer (1 ∷ [])) refl (inl (omega arith)) in
    Streamer.offered (Streamer.offered second (audio_packet (2 ∷ [])) _ refl)
      (audio_packet (1 ∷ [])) _ refl

-- gossipsub refused neither packet
pub both_accepted :
    let tasks = taken tables S M sink gossip text 0 sent_both in
    accepted tables 0 tasks silent ≡ offered tables tasks
unfolding sent_both process_streamer_event encode
both_accepted = refl

Reach-IsLossy_example :
    IsLossy tables S A M sink gossip gossip audio text 0 G source room 1
      (other_sample ∷ sample ∷ [])
      both_inputs
      []
      playing_state
unfolding heard
Reach-IsLossy_example =
    Reach-IsLossy tables S A M sink gossip gossip audio text 0 G source room 1 fresh-IsFresh
      sent_both (tt, (tt, tt)) waiting-IsFresh listened (drop_one (keep nil))
