-- ===== src/Radio/Tests.antt =====
-- The chain of Radio.antt over the network of Network/Tables.antt. Peer 1 is the streamer.
use p2pradio.Prelude.{◌≡◌, refl, false, none, List, [], ◌∷◌}
use p2pradio.Network.Tables.{texts, tables}
use p2pradio.Channel.{Mpsc}
use p2pradio.Channel.Logs.{log_mpsc}
use p2pradio.Codec.{Message, audio_packet, metadata}
use p2pradio.Swarm.{Swarm}
use Prim.Native.String.{String}
use p2pradio.Prelude.{some}
use p2pradio.Text.{as_bytes, encode_utf8}
use p2pradio.Codec.{encode, encode_bin}
use p2pradio.Swarm.{
  SwarmEvent, StreamerInput, publish, event, run_streamer, publish_data, process_streamer_event,
}
use p2pradio.Encoder.{Input, buffer, changed, msg_loop, send_or_other}

abbrev M : Mpsc Message
M = log_mpsc Message

abbrev tx : M.Chan
tx = ([], false)

abbrev start : Swarm tables
start = record {
  gossipsub = record { explicit = λ q. false; blacklisted = λ q. false; log = [] };
  local_peer_id = 7;
}

abbrev text : Message → String
text m = "channel closed"

-- what the encoder takes: a packet, a new title, and another packet
abbrev inputs : List Input
inputs = buffer (1 ∷ []) ∷ changed (some (65 ∷ [])) ∷ changed none ∷ buffer (2 ∷ []) ∷ []

abbrev tasks : List (StreamerInput tables)
tasks =
    publish (audio_packet (1 ∷ []))
    ∷ event SwarmEvent.other
    ∷ publish (metadata (record { title = 65 ∷ [] }))
    ∷ publish (audio_packet (2 ∷ []))
    ∷ []

encoder_sent : (msg_loop texts M text inputs tx).0 ≡ (
  audio_packet (1 ∷ []) ∷ metadata (record { title = 65 ∷ [] }) ∷ audio_packet (2 ∷ []) ∷ [],
  false,
)
unfolding msg_loop send_or_other
encoder_sent = refl

streamer_published :
    (run_streamer tables tasks start 0).0.gossipsub.log
    ≡ (0 ∷ 1 ∷ []) ∷ (1 ∷ 65 ∷ []) ∷ (0 ∷ 2 ∷ []) ∷ []
unfolding run_streamer publish_data process_streamer_event encode encode_bin as_bytes encode_utf8
streamer_published = refl
