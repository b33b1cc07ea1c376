-- ===== src/Swarm/Tests.antt =====
-- The swarm of src/p2p/swarm.rs over the network of Network/Tables.antt. Peer 1 is the streamer.
use p2pradio.Prelude.{
  Result, ok, ℕ, ◌≡◌, ◌↔◌, refl, true, false, not, ◌&&◌, ◌||◌, none, some, List, [], ◌∷◌, arith,
  map,
}
use p2pradio.Network.Tables.{tables}
use p2pradio.Channel.{Mpsc}
use p2pradio.Channel.Logs.{log_mpsc}
use p2pradio.Codec.{decode, Message, audio_packet, metadata, encode}
use p2pradio.Swarm.{
  Swarm, discovered, expired, message, GossipMessage, SwarmEvent, behaviour, mdns, gossipsub,
  StreamerInput, publish, event, cancelled, message_id, process_mdns_event, add_peers, remove_peers,
  init_swarm, tune_in, process_gossip_sub_event, run_listener, run_streamer, process_listener_event,
  process_listener_behavior_event, accept, accept_decoded, forward,
}
use p2pradio.Swarm.Services.{new_streamer_swarm, new_listener_swarm}
use Prim.Native.String.{String}
use p2pradio.Swarm.MessageId.{message_id-injective}
use p2pradio.Swarm.Peers.{untrusted_relay}
use p2pradio.Swarm.Explicit.{latest_news, run_streamer-latest_news}
use p2pradio.Swarm.Forward.{Delivers, events, run_listener-Delivers}
use p2pradio.Swarm.Streamer.{run_streamer-published}

abbrev M : Mpsc Message
M = log_mpsc Message

abbrev start : Swarm tables
start = record {
  gossipsub = record { explicit = λ q. false; blacklisted = λ q. false; log = [] };
  local_peer_id = 7;
}

abbrev tx : M.Chan
tx = ([], false)

-- audio that the streamer wrote
abbrev packet : GossipMessage tables
packet = record { source = some 1; content = 0 ∷ 42 ∷ []; sequence_number = some 5; topic = 0 }

abbrev arrivals : List (SwarmEvent tables)
arrivals =
    behaviour (mdns (discovered ((2, 0) ∷ [])))
    ∷ behaviour (gossipsub (message 1 0 packet))
    ∷ behaviour (gossipsub (message 2 1 packet))
    ∷ SwarmEvent.other
    ∷ []

-- the packet that comes through peer 2 is lost, and peer 2 is on the blacklist
run_arrivals :
    (run_listener tables M (events tables M 1 arrivals) (start, tx) 1).0.1
    ≡ (audio_packet (42 ∷ []) ∷ [], false)
unfolding run_listener process_listener_event process_listener_behavior_event
    process_gossip_sub_event accept accept_decoded forward decode
run_arrivals = refl

message_id-injective_example :
    (message_id tables packet ≡ message_id tables (record packet { source = none }))
    ↔ (packet.sequence_number ≡ some 5)
message_id-injective_example =
    message_id-injective tables packet (record packet { source = none }) (omega arith) (omega arith)

discovered_then_expired :
    let found = process_mdns_event tables start (discovered ((2, 0) ∷ (3, 0) ∷ [])) in
    let left = process_mdns_event tables found (expired ((2, 0) ∷ [])) in
    (found.gossipsub.explicit 2 ≡ true)
    × (left.gossipsub.explicit 2 ≡ false)
    × (left.gossipsub.explicit 3 ≡ true)
unfolding process_mdns_event add_peers remove_peers
discovered_then_expired = (refl, refl, refl)

untrusted_relay_example :
    let after = process_gossip_sub_event tables M (start, tx) (message 2 0 packet) 1 in
    (after.1 ≡ tx)
    × ((q : ℕ)
        → (after.0.gossipsub.blacklisted q ≡ (tables.peer_eq 2 q || false))
          × (after.0.gossipsub.explicit q ≡ (not (tables.peer_eq 2 q) && false)))
untrusted_relay_example = untrusted_relay tables M start tx 2 1 0 packet (λ e. omega arith)

-- peer 2 is on the blacklist, the streamer is not
blacklisted_relay :
    let after = (run_listener tables M (events tables M 1 arrivals) (start, tx) 1).0.0.gossipsub in
    (after.blacklisted 1 ≡ false) × (after.blacklisted 2 ≡ true)
unfolding run_listener process_listener_event process_listener_behavior_event
    process_gossip_sub_event process_mdns_event add_peers
blacklisted_relay = (refl, refl)

run_listener-Delivers_example :
    (ms : List Message) × Delivers tables M 1 arrivals ms
    × ((run_listener tables M (events tables M 1 arrivals) (start, tx) 1).0.1.0 ≡ ms)
    × ((run_listener tables M (events tables M 1 arrivals) (start, tx) 1).1 ≡ none)
run_listener-Delivers_example = run_listener-Delivers tables M 1 arrivals (start, tx) refl

abbrev tasks : List (StreamerInput tables)
tasks =
    publish (audio_packet (1 ∷ []))
    ∷ event SwarmEvent.other
    ∷ publish (metadata (record { title = [] }))
    ∷ cancelled
    ∷ []

run_streamer-published_example :
    ((run_streamer tables tasks start 0).0.gossipsub.log
      ≡ map encode (audio_packet (1 ∷ []) ∷ metadata (record { title = [] }) ∷ []))
    × ((run_streamer tables tasks start 0).1 ≡ some none)
unfolding encode
run_streamer-published_example = run_streamer-published tables tasks start 0

abbrev built : Result (Swarm tables) ℕ
built = ok start

abbrev listening : Result (Unit {0}) String
listening = ok tt

subscribed_once :
    (new_streamer_swarm tables M built listening 0 ([], false)
      ≡ ok (record { swarm = start; topic = 0; gossip_pub_rx = ([], false) }))
    × (new_listener_swarm tables M built listening 0 ([], false) 1
        ≡ ok (record { swarm = start; gossip_sub_tx = ([], false); streamer_peer_id = 1 }))
unfolding new_streamer_swarm new_listener_swarm init_swarm tune_in
subscribed_once = (refl, refl)

-- peer 2 comes and goes while something is published
abbrev mentions : List (StreamerInput tables)
mentions =
    event (behaviour (mdns (discovered ((2, 0) ∷ (3, 0) ∷ []))))
    ∷ publish (audio_packet (1 ∷ []))
    ∷ event (behaviour (mdns (expired ((2, 0) ∷ []))))
    ∷ []

run_streamer-latest_news_example :
    (run_streamer tables mentions start 0).0.gossipsub.explicit 2
    ≡ latest_news tables 2 mentions false
run_streamer-latest_news_example = run_streamer-latest_news tables 2 mentions start 0
