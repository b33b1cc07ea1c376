-- ===== src/Swarm/Explicit.antt =====
-- The explicit peers of the streamer's gossipsub over a run of its loop in src/p2p/swarm.rs.
use p2pradio.Prelude.{ap, ◌∙◌, refl, ◌≡◌, Bool, not, ◌&&◌, ◌||◌, List, [], ◌∷◌}
use p2pradio.Errors.{Foreign}
use p2pradio.Network.{Network}
use p2pradio.Codec.{encode}
use p2pradio.Swarm.{
  Swarm, discovered, expired, BehaviorEvent, SwarmEvent, StreamerInput, publish, event, cancelled,
  behaviour, mdns, gossipsub, publish_data, process_streamer_event, process_streamer_behavior_event,
  run_streamer,
}
use p2pradio.Swarm.Peers.{listed, process_mdns_event_lem}

module _ {F : Foreign} (N : Network F) (q : N.PeerId) where
  -- the news of a peer in one event, where `known` tells of it before
  abbrev pub news : SwarmEvent N → Bool → Bool
  news (behaviour (mdns (discovered list))) known = listed N q list || known
  news (behaviour (mdns (expired list))) known = not (listed N q list) && known
  news (behaviour (gossipsub e)) known = known
  news (behaviour BehaviorEvent.other) known = known
  news SwarmEvent.other known = known

  -- the latest news of a peer before the loop is cancelled
  abbrev pub latest_news : List (StreamerInput N) → Bool → Bool
  latest_news [] known = known
  latest_news (publish m ∷ inputs) known = latest_news inputs known
  latest_news (event e ∷ inputs) known = latest_news inputs (news e known)
  latest_news (cancelled ∷ inputs) known = known

  explicit-event :
      (e : SwarmEvent N) (swarm : Swarm N)
      → N.is_explicit (process_streamer_event N swarm e).gossipsub q
        ≡ news e (N.is_explicit swarm.gossipsub q)
  unfolding process_streamer_event process_streamer_behavior_event
  explicit-event (behaviour (mdns (discovered list))) swarm =
      (process_mdns_event_lem N swarm list q).0
  explicit-event (behaviour (mdns (expired list))) swarm = (process_mdns_event_lem N swarm list q).1
  explicit-event (behaviour (gossipsub e)) swarm = refl
  explicit-event (behaviour BehaviorEvent.other) swarm = refl
  explicit-event SwarmEvent.other swarm = refl

  -- Over any inputs of the streamer's loop, published messages among them, a peer is an explicit peer
  -- of gossipsub exactly as the latest news of it from mDNS says: after it was discovered, until it has
  -- expired; a peer without news is as it was before.
  pub run_streamer-latest_news :
      (inputs : List (StreamerInput N)) (swarm : Swarm N) (topic : N.Topic)
      → N.is_explicit (run_streamer N inputs swarm topic).0.gossipsub q
        ≡ latest_news inputs (N.is_explicit swarm.gossipsub q)
  unfolding run_streamer publish_data
  run_streamer-latest_news [] swarm topic = refl
  run_streamer-latest_news (publish m ∷ inputs) swarm topic =
      run_streamer-latest_news inputs (publish_data N swarm topic (encode m)).0 topic
      ∙ ap (latest_news inputs) (N.explicit-publish topic (encode m) swarm.gossipsub q)
  run_streamer-latest_news (event e ∷ inputs) swarm topic =
      run_streamer-latest_news inputs (process_streamer_event N swarm e) topic
      ∙ ap (latest_news inputs) (explicit-event e swarm)
  run_streamer-latest_news (cancelled ∷ inputs) swarm topic = refl
