-- ===== src/Swarm/Services.antt =====
-- The services of src/p2p/swarm.rs: how the swarm of either node is made and what it runs.
use Prim.Native.String.{String}
use p2pradio.Prelude.{◌≡◌, ◌⊎◌, inl, inr, refl, true, Result, ok, err, ◌>>=◌}
use p2pradio.Errors.{Foreign, AppError}
use p2pradio.Network.{Network}
use p2pradio.Channel.{Mpsc}
use p2pradio.Codec.{Message}
use p2pradio.Swarm.{Swarm, init_swarm}
use p2pradio.Swarm.Init.{InitFails, init_swarm_lem}

module _ {F : Foreign} (N : Network F) (M : Mpsc Message) where
  pub record StreamerSwarmService : Type 0 where
    pub swarm : Swarm N
    pub topic : N.Topic
    pub gossip_pub_rx : M.Chan

  pub record ListenerSwarmService : Type 0 where
    pub swarm : Swarm N
    pub gossip_sub_tx : M.Chan
    pub streamer_peer_id : N.PeerId

  unfoldable pub streamer_peer_id : StreamerSwarmService → N.PeerId
  streamer_peer_id s = s.swarm.local_peer_id

  unfoldable pub listener_peer_id : ListenerSwarmService → N.PeerId
  listener_peer_id s = s.swarm.local_peer_id

  module _ (built : Result (Swarm N) F.BehaviourBuilderError) (listening : Result (Unit {0}) String)
      (topic : N.Topic) where
    -- `StreamerSwarmService::new`
    unfoldable pub new_streamer_swarm : M.Chan → Result StreamerSwarmService (AppError F)
    new_streamer_swarm gossip_pub_rx = do
      swarm ← init_swarm N built listening topic
      ok (record { swarm = swarm; topic = topic; gossip_pub_rx = gossip_pub_rx })

    -- `ListenerSwarmService::new`
    unfoldable pub new_listener_swarm : M.Chan → N.PeerId → Result ListenerSwarmService (AppError F)
    new_listener_swarm gossip_sub_tx streamer = do
      swarm ← init_swarm N built listening topic
      ok (record { swarm = swarm; gossip_sub_tx = gossip_sub_tx; streamer_peer_id = streamer })

    -- Both services are made from this swarm.
    pub record AreMade (s : Swarm N) (gossip_pub_rx gossip_sub_tx : M.Chan) (streamer : N.PeerId)
        (made : StreamerSwarmService) (made' : ListenerSwarmService) : Type 0 where
      pub was_built : built ≡ ok s
      pub listens : listening ≡ ok tt
      pub subscribed_now : (N.subscribe topic s.gossipsub).1 ≡ ok true
      pub streams : new_streamer_swarm gossip_pub_rx ≡ ok made
      pub hears : new_listener_swarm gossip_sub_tx streamer ≡ ok made'
      pub tuned : made.swarm.gossipsub ≡ (N.subscribe topic s.gossipsub).0
      pub same_swarm : made'.swarm ≡ made.swarm
      pub own_topic : made.topic ≡ topic
      pub publishes : made.gossip_pub_rx ≡ gossip_pub_rx
      pub sends : made'.gossip_sub_tx ≡ gossip_sub_tx
      pub follows : made'.streamer_peer_id ≡ streamer
      pub own_peer : streamer_peer_id made ≡ s.local_peer_id
      pub own_peer' : listener_peer_id made' ≡ s.local_peer_id

    -- Either both services can be made, with the topic newly subscribed, the channel, the topic and the
    -- streamer that they are given, and their own peer that of the swarm; or neither can, and both fail
    -- with the error of the first step that fails, where a topic that was subscribed before is an error.
    pub new_swarm_lem :
        (gossip_pub_rx gossip_sub_tx : M.Chan) (streamer : N.PeerId)
        → ((s : Swarm N) × (made : StreamerSwarmService) × (made' : ListenerSwarmService) × AreMade
              s gossip_pub_rx gossip_sub_tx streamer made made')
          ⊎ ((e : AppError F) × InitFails N built listening topic e
              × (new_streamer_swarm gossip_pub_rx ≡ err e)
              × (new_listener_swarm gossip_sub_tx streamer ≡ err e))
    unfolding new_streamer_swarm new_listener_swarm streamer_peer_id listener_peer_id
    new_swarm_lem gossip_pub_rx gossip_sub_tx streamer =
        elim (init_swarm_lem N built listening topic) [
          | inl (s, p, q, r, done) ↦
              let swarm = record s { gossipsub = (N.subscribe topic s.gossipsub).0 } in
              inl (
                s,
                record { swarm = swarm; topic = topic; gossip_pub_rx = gossip_pub_rx },
                record {
                  swarm = swarm;
                  gossip_sub_tx = gossip_sub_tx;
                  streamer_peer_id = streamer;
                },
                record {
                  was_built = p;
                  listens = q;
                  subscribed_now = r;
                  streams = rw done refl;
                  hears = rw done refl;
                  tuned = refl;
                  same_swarm = refl;
                  own_topic = refl;
                  publishes = refl;
                  sends = refl;
                  follows = refl;
                  own_peer = refl;
                  own_peer' = refl;
                },
              )
          | inr (e, why, failed) ↦ inr (e, why, rw failed refl, rw failed refl)
        ]
