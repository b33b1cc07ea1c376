-- ===== src/Swarm.antt =====
-- src/p2p/swarm.rs: the event handlers of the streamer and of the listener, and their loops. libp2p
-- is the interface of Network.antt, the channel to the rest of the listener that of Channel.antt.
-- Of `RadioBehavior` only gossipsub is called; the other protocols only produce events. Each loop
-- runs over the list of what its `select!` takes, one entry for a ready branch.
pub mod Init
pub mod Building
pub mod Services
pub mod MessageId
pub mod Peers
pub mod Explicit
pub mod Forward
pub mod Heard
pub mod Streamer
mod Tests
use Prim.Native.String.{String}
use p2pradio.Prelude.{
  ℕ, ◌/◌, ◌%◌, ◌^◌, Bool, true, false, not, Option, none, some, List, [], ◌∷◌, ◌++◌, if◌then◌else◌,
  Result, ok, err, map_err, ◌>>=◌,
}
use p2pradio.Errors.{
  Foreign, AppError, GossipError, TaskRet, publish_error, subscription_error, already_subscribed,
}
use p2pradio.Network.{Network}
use p2pradio.Channel.{Mpsc}
use p2pradio.Codec.{DecodeError, Message, encode, decode}

-- `u64::to_be_bytes`
abbrev pub to_be_bytes : ℕ → List ℕ
to_be_bytes n =
    (n / 2 ^ 56 % 256)
    ∷ (n / 2 ^ 48 % 256)
    ∷ (n / 2 ^ 40 % 256)
    ∷ (n / 2 ^ 32 % 256)
    ∷ (n / 2 ^ 24 % 256)
    ∷ (n / 2 ^ 16 % 256)
    ∷ (n / 2 ^ 8 % 256)
    ∷ (n % 256)
    ∷ []

module _ {F : Foreign} (N : Network F) where
  open N use {PeerId, Multiaddr, Topic, Gossip}

  -- `gossipsub::Message`
  pub record GossipMessage : Type 0 where
    pub source : Option PeerId
    pub content : List ℕ
    pub sequence_number : Option ℕ
    pub topic : Topic

  -- `MessageId::new` of these bytes
  unfoldable pub message_id : GossipMessage → List ℕ
  message_id msg = elim msg.sequence_number [ none ↦ [] | some seq_no ↦ to_be_bytes seq_no ]

  -- `Swarm<RadioBehavior>`
  pub record Swarm : Type 0 where
    pub gossipsub : Gossip
    pub local_peer_id : PeerId

  pub data MdnsEvent : Type 0 where
    discovered : List (PeerId × Multiaddr) → MdnsEvent
    expired : List (PeerId × Multiaddr) → MdnsEvent

  pub data GossipEvent : Type 0 where
    message : PeerId → N.MessageId → GossipMessage → GossipEvent
    other : GossipEvent

  pub data BehaviorEvent : Type 0 where
    mdns : MdnsEvent → BehaviorEvent
    gossipsub : GossipEvent → BehaviorEvent
    other : BehaviorEvent

  pub data SwarmEvent : Type 0 where
    behaviour : BehaviorEvent → SwarmEvent
    other : SwarmEvent

  unfoldable pub tune_in : Swarm → Topic → Swarm × Result (Unit {0}) (GossipError F)
  tune_in swarm topic =
      let (g, result) = N.subscribe topic swarm.gossipsub in
      (
        record swarm { gossipsub = g },
        (do
          subscribed ← map_err subscription_error result
          if not subscribed then err already_subscribed else ok tt),
      )

  unfoldable pub publish_data : Swarm → Topic → List ℕ → Swarm × Result (Unit {0}) (GossipError F)
  publish_data swarm topic bytes =
      let (g, result) = N.publish topic bytes swarm.gossipsub in
      (record swarm { gossipsub = g }, (do id ← map_err publish_error result; ok tt))

  -- `init_swarm`. What the builder chain returns, and `listen_on` with its error as text, is given.
  unfoldable pub init_swarm :
      Result Swarm F.BehaviourBuilderError
      → Result (Unit {0}) String
      → Topic
      → Result Swarm (AppError F)
  unfolding tune_in
  init_swarm built listening topic = do
    swarm ← map_err AppError.behaviour_builder built
    listener_id ← map_err AppError.other listening
    let tuned = tune_in swarm topic
    subscribed ← map_err AppError.gossip_error tuned.1
    ok tuned.0

  unfoldable pub add_peers : List (PeerId × Multiaddr) → Gossip → Gossip
  add_peers [] g = g
  add_peers ((peer_id, addr) ∷ list) g = add_peers list (N.add_explicit_peer peer_id g)

  unfoldable pub remove_peers : List (PeerId × Multiaddr) → Gossip → Gossip
  remove_peers [] g = g
  remove_peers ((peer_id, addr) ∷ list) g = remove_peers list (N.remove_explicit_peer peer_id g)

  unfoldable pub process_mdns_event : Swarm → MdnsEvent → Swarm
  process_mdns_event swarm (discovered list) = record swarm {
    gossipsub = add_peers list swarm.gossipsub;
  }
  process_mdns_event swarm (expired list) = record swarm {
    gossipsub = remove_peers list swarm.gossipsub;
  }

  unfoldable pub process_streamer_behavior_event : Swarm → BehaviorEvent → Swarm
  process_streamer_behavior_event swarm (mdns e) = process_mdns_event swarm e
  process_streamer_behavior_event swarm _ = swarm

  unfoldable pub process_streamer_event : Swarm → SwarmEvent → Swarm
  process_streamer_event swarm (behaviour e) = process_streamer_behavior_event swarm e
  process_streamer_event swarm other = swarm

  module _ (M : Mpsc Message) where
    open M use {Chan, send}

    -- `if let Err(err) = gossip_sub_tx.send(msg).await`: the failure is logged and no more
    unfoldable pub forward : Message → Chan → Chan
    forward msg tx = elim (send msg tx) [ ok tx' ↦ tx' | err back ↦ tx ]

    unfoldable pub accept_decoded : Result Message DecodeError → Chan → Chan
    accept_decoded (ok m) tx = forward m tx
    accept_decoded (err e) tx = tx

    -- a message from the trusted peer: its sequence number has to be there, and it has to decode
    unfoldable pub accept : Option ℕ → List ℕ → Chan → Chan
    accept none content tx = tx
    accept (some seq_no) content tx = accept_decoded (decode content) tx

    unfoldable pub process_gossip_sub_event : Swarm × Chan → GossipEvent → PeerId → Swarm × Chan
    process_gossip_sub_event (swarm, tx) (message propagation_source id msg) streamer_peer_id =
        if not (N.peer_eq propagation_source streamer_peer_id)
        then (
          record swarm {
            gossipsub =
                N.remove_explicit_peer propagation_source
                  (N.blacklist_peer propagation_source swarm.gossipsub);
          },
          tx,
        )
        else (swarm, accept msg.sequence_number msg.content tx)
    process_gossip_sub_event (swarm, tx) other streamer_peer_id = (swarm, tx)

    unfoldable pub process_listener_behavior_event :
        Swarm × Chan → PeerId → BehaviorEvent → Swarm × Chan
    process_listener_behavior_event (swarm, tx) streamer_peer_id (mdns e) =
        (process_mdns_event swarm e, tx)
    process_listener_behavior_event s streamer_peer_id (gossipsub e) =
        process_gossip_sub_event s e streamer_peer_id
    process_listener_behavior_event s streamer_peer_id other = s

    unfoldable pub process_listener_event : Swarm × Chan → PeerId → SwarmEvent → Swarm × Chan
    process_listener_event s streamer_peer_id (behaviour e) =
        process_listener_behavior_event s streamer_peer_id e
    process_listener_event s streamer_peer_id other = s

  -- what the listener's `select!` takes
  pub data ListenerInput : Type 0 where
    event : SwarmEvent → ListenerInput
    cancelled : ListenerInput

  -- what the streamer's `select!` takes; a `recv` of `None` disables its branch
  pub data StreamerInput : Type 0 where
    publish : Message → StreamerInput
    event : SwarmEvent → StreamerInput
    cancelled : StreamerInput

  -- `StreamerSwarmService::run`; without a result the loop is still running when the inputs end. A
  -- failure to publish is logged and no more.
  unfoldable pub run_streamer : List StreamerInput → Swarm → Topic → Swarm × Option (TaskRet F ⊥)
  run_streamer [] swarm topic = (swarm, none)
  run_streamer (publish msg ∷ inputs) swarm topic =
      run_streamer inputs (publish_data swarm topic (encode msg)).0 topic
  run_streamer (event e ∷ inputs) swarm topic =
      run_streamer inputs (process_streamer_event swarm e) topic
  run_streamer (cancelled ∷ inputs) swarm topic = (swarm, some none)

  module _ (M : Mpsc Message) where
    -- `ListenerSwarmService::run`
    unfoldable pub run_listener :
        List ListenerInput → Swarm × M.Chan → PeerId → (Swarm × M.Chan) × Option (TaskRet F ⊥)
    run_listener [] s streamer_peer_id = (s, none)
    run_listener (event e ∷ inputs) s streamer_peer_id =
        run_listener inputs (process_listener_event M s streamer_peer_id e) streamer_peer_id
    run_listener (cancelled ∷ inputs) s streamer_peer_id = (s, some none)
