-- ===== src/Tasks/Tests/Titles.antt =====
-- Two titles that come at once, of which the second is sent and shown.
use p2pradio.Prelude.{ℕ, ◌≡◌, refl, false, Option, none, some, List, [], ◌∷◌, inl, arith}
use p2pradio.Network.Tables.{tables}
use p2pradio.Channel.{Watch}
use p2pradio.Channel.Logs.{flag_watch}
use p2pradio.Channel.Queues.{empty}
use p2pradio.Codec.{Message, metadata, encode, encode_bin, decode, decode_bin}
use p2pradio.Text.{as_bytes, encode_utf8, from_utf8}
use p2pradio.Encoder.{
  Input, changed, msg_loop, send_or_other, BusInput, bus, tag, bus_loop, process_message,
}
use p2pradio.Encoder.Loops.{titles_before}
use p2pradio.Swarm.{
  SwarmEvent, behaviour, gossipsub, message, run_streamer, publish_data, process_streamer_event,
  process_listener_event, process_listener_behavior_event, process_gossip_sub_event, accept,
  accept_decoded, forward,
}
use p2pradio.Swarm.Heard.{heard}
use p2pradio.Decoder.Sources.{G, room, eager, Playing, eager-IsPlaying}
use p2pradio.Tasks.Streamer.{Reach}
use p2pradio.Tasks.Listener
use p2pradio.Tasks.Titles
use p2pradio.Tasks.Latest.{IsKept, taken, Watched-IsKept}
use p2pradio.Tasks.Shown.{Watched-complete}
use p2pradio.Tasks.Tests.{
  S, M, A, sink, gossip, audio, text, silent, StreamerState, fresh, fresh-IsFresh,
}
use p2pradio.Tasks.Tests.Drain.{EagerState, ready_to_play, ready-IsFresh}

abbrev W : Watch (Option (List ℕ))
W = flag_watch (Option (List ℕ))

abbrev song : List ℕ
song = 66 ∷ []

abbrev tags : List (BusInput G)
tags = bus (tag (some (65 ∷ []))) ∷ bus (tag (some song)) ∷ []

abbrev title_inputs : List Input
title_inputs = changed (some song) ∷ []

abbrev song_message : Message
song_message = metadata (record { title = song })

abbrev titled_state : StreamerState
titled_state = record {
  sink_tx = empty;
  hand = none;
  gossip_tx = record { log = song_message ∷ []; waiting = []; closed = false };
  swarm = record silent { gossipsub = record silent.gossipsub { log = encode song_message ∷ [] } };
}

run :
    (r : Reach tables S M sink gossip text 0 fresh [] title_inputs titled_state) × Titles.Watched
      tables S M sink gossip text 0 G W tags
      (some song, false)
      []
      title_inputs
      titled_state
      r
unfolding msg_loop send_or_other run_streamer publish_data process_streamer_event encode encode_bin
    as_bytes encode_utf8 bus_loop process_message
run =
    let both_came =
      Titles.bus_read (Titles.bus_read Titles.here refl (bus (tag (some (65 ∷ []))))) refl
        (bus (tag (some song))) in
    (
      _,
      Titles.offered
          (Titles.sent (Titles.titled both_came refl refl) (changed (some song)) refl
            (inl (omega arith)))
          song_message _ refl,
    )

Watched-IsKept_example :
    IsKept tables S M sink gossip text 0 G W
      (titles_before tags)
      (taken title_inputs)
      (some song, false)
Watched-IsKept_example =
    Watched-IsKept tables S M sink gossip text 0 G W tags (some song, false) [] title_inputs
      titled_state run.0 run.1

abbrev song_event : SwarmEvent tables
song_event = behaviour (
    gossipsub (
      message 1 3 (record {
        source = none;
        content = encode song_message;
        sequence_number = some 8;
        topic = 0;
      })))

abbrev song_waits : EagerState
song_waits = record ready_to_play {
  gossip_tx = record { log = song_message ∷ []; waiting = song_message ∷ []; closed = false };
}

arrived_song :
    Listener.Reach tables M A gossip audio G eager room 1 ready_to_play (song_event ∷ []) song_waits
unfolding process_listener_event process_listener_behavior_event process_gossip_sub_event accept
    accept_decoded forward decode decode_bin encode encode_bin as_bytes encode_utf8 from_utf8
arrived_song =
    Listener.handled (Listener.arrives Listener.here refl song_event) song_event refl
      (inl (omega arith))

Watched-complete_example :
    (done : EagerState) × Listener.Reach tables M A gossip audio G eager room 1 song_waits [] done
    × (done.src ≡ [])
    × (done.bridge.title ≡ song)
unfolding heard run
Watched-complete_example =
    Watched-complete tables S A M sink gossip gossip audio text 0 G eager room 1 W tags
      (some song, false) [] title_inputs titled_state run.0 run.1 refl refl Playing eager-IsPlaying
      fresh-IsFresh refl refl refl ((inl (omega arith), tt), tt) ready-IsFresh arrived_song tt refl
