-- ===== src/Swarm/Building.antt =====
-- How the swarm of src/p2p/swarm.rs is built: the closure that `init_swarm` gives to libp2p's builder,
-- which makes the five protocols for a new identity. What libp2p makes is an interface; its boxed
-- errors are one type.
use p2pradio.Prelude.{
  ℕ, ◌≡◌, ◌⊎◌, inl, inr, refl, List, Result, Result-cases, ok, err, map_err, ◌>>=◌,
}
use p2pradio.Errors.{Foreign}
use p2pradio.Network.{Network}
use p2pradio.Swarm.{Swarm, GossipMessage, message_id}

-- `gossipsub::ValidationMode`
pub data ValidationMode : Type 0 where
  strict permissive anonymous no_validation : ValidationMode

-- `gossipsub::MessageAuthenticity`, as far as it is used
pub data MessageAuthenticity (Key : Type 0) : Type 0 where
  signed : Key → MessageAuthenticity Key

pub record Libp2p {F : Foreign} (N : Network F) : Type 1 where
  pub Key : Type 0
  pub PublicKey : Type 0
  pub public : Key → PublicKey
  pub to_peer_id : PublicKey → N.PeerId
  pub Config : Type 0
  pub ConfigError : Type 0
  -- `ConfigBuilder`, with what the program sets
  pub build_config : (GossipMessage N → List ℕ) → ValidationMode → Result Config ConfigError
  pub io_other : ConfigError → F.IoError
  pub GossipsubError : Type 0
  pub new_gossipsub : MessageAuthenticity Key → Config → Result N.Gossip GossipsubError
  pub Identify : Type 0
  pub new_identify : PublicKey → Identify
  pub Ping : Type 0
  pub new_ping : Ping
  pub Mdns : Type 0
  pub new_mdns : N.PeerId → Result Mdns F.IoError
  pub Kademlia : Type 0
  pub new_kademlia : N.PeerId → Kademlia
  -- `Box<dyn Error>` of the closure's errors, and the builder's error for it
  pub Boxed : Type 0
  pub from_io : F.IoError → Boxed
  pub from_gossipsub : GossipsubError → Boxed
  pub builder_error : Boxed → F.BehaviourBuilderError

module _ {F : Foreign} {N : Network F} (L : Libp2p N) where
  pub record RadioBehavior : Type 0 where
    pub identify : L.Identify
    pub ping : L.Ping
    pub gossipsub : N.Gossip
    pub mdns : L.Mdns
    pub kademlia : L.Kademlia

  -- the closure
  unfoldable pub radio_behavior : L.Key → Result RadioBehavior L.Boxed
  radio_behavior key = do
    let local_public_key = L.public key
    let local_id = L.to_peer_id local_public_key
    gossipsub_config ← map_err L.from_io (map_err L.io_other (L.build_config (message_id N) strict))
    gossip ← map_err L.from_gossipsub (L.new_gossipsub (signed key) gossipsub_config)
    mdns_ ← map_err L.from_io (L.new_mdns local_id)
    ok (record {
      identify = L.new_identify local_public_key;
      ping = L.new_ping;
      gossipsub = gossip;
      mdns = mdns_;
      kademlia = L.new_kademlia local_id;
    })

  -- `with_behaviour` and `build` for the new identity; of the behaviour only gossipsub is called later
  unfoldable pub build_swarm : L.Key → Result (Swarm N) F.BehaviourBuilderError
  build_swarm key = do
    behavior ← map_err L.builder_error (radio_behavior key)
    ok (record { gossipsub = behavior.gossipsub; local_peer_id = L.to_peer_id (L.public key) })

  -- the first protocol that cannot be made
  pub data BuildFails (key : L.Key) : F.BehaviourBuilderError → Type 0 where
    config_failed :
        (e : L.ConfigError)
        → L.build_config (message_id N) strict ≡ err e
        → BuildFails key (L.builder_error (L.from_io (L.io_other e)))
    gossipsub_failed :
        (c : L.Config) (e : L.GossipsubError)
        → L.build_config (message_id N) strict ≡ ok c
        → L.new_gossipsub (signed key) c ≡ err e
        → BuildFails key (L.builder_error (L.from_gossipsub e))
    mdns_failed :
        (c : L.Config) (g : N.Gossip) (e : F.IoError)
        → L.build_config (message_id N) strict ≡ ok c
        → L.new_gossipsub (signed key) c ≡ ok g
        → L.new_mdns (L.to_peer_id (L.public key)) ≡ err e
        → BuildFails key (L.builder_error (L.from_io e))

  -- The swarm's peer is that of its key, and its gossipsub signs with that key, validates strictly and
  -- names messages by `message_id`; otherwise the error is that of the first protocol that fails.
  pub build_swarm_lem :
      (key : L.Key)
      → ((s : Swarm N) × (c : L.Config) × (build_swarm key ≡ ok s)
          × (L.build_config (message_id N) strict ≡ ok c)
          × (L.new_gossipsub (signed key) c ≡ ok s.gossipsub)
          × (s.local_peer_id ≡ L.to_peer_id (L.public key)))
        ⊎ ((e : F.BehaviourBuilderError) × BuildFails key e × (build_swarm key ≡ err e))
  unfolding build_swarm radio_behavior
  build_swarm_lem key = elim (Result-cases (L.build_config (message_id N) strict)) [
    | inr (e, p) ↦ inr (_, config_failed e p, rw (p, build_swarm) refl)
    | inl (c, p) ↦ elim (Result-cases (L.new_gossipsub (signed key) c)) [
      | inr (e, q) ↦
          inr (_, gossipsub_failed c e p q, rw (p, build_swarm) (rw (q, build_swarm) refl))
      | inl (g, q) ↦ elim (Result-cases (L.new_mdns (L.to_peer_id (L.public key)))) [
        | inr (e, r) ↦ inr (
          _,
          mdns_failed c g e p q r,
          rw (p, build_swarm) (rw (q, build_swarm) (rw (r, build_swarm) refl)),
        )
        | inl (m, r) ↦ inl (
          record { gossipsub = g; local_peer_id = L.to_peer_id (L.public key) },
          c,
          rw (p, build_swarm) (rw (q, build_swarm) (rw (r, build_swarm) refl)),
          p,
          q,
          refl,
        )
      ]
    ]
  ]
