-- ===== src/Program/Starting.antt =====
-- How the nodes of src/node.rs are made of their contexts: which addresses, topic, URL and peer the
-- services of a node get, and which step fails first.
use p2pradio.Prelude.{
  some, none, ℕ, ap, subst, ◌∙◌, ◌≡◌, ◌≢◌, ◌⊎◌, inl, inr, refl, List, [], true, ok, err,
}
use p2pradio.Errors.{Foreign, AppError}
use p2pradio.Network.{Network}
use p2pradio.Channel.{Mpsc, Broadcast}
use p2pradio.Codec.{Message}
use p2pradio.Swarm.{Swarm, message_id}
use p2pradio.Swarm.Building.{strict, signed, build_swarm_lem}
use p2pradio.Swarm.Init.{InitFails, init_swarm_lem}
use p2pradio.Swarm.Services.{
  ListenerSwarmService, new_streamer_swarm, new_listener_swarm, streamer_peer_id, listener_peer_id,
}
use p2pradio.Http.{metrics_router}
use p2pradio.Encoder.Making.{EncodingFails, new_encoding_backend_lem}
use p2pradio.Node.{new_streamer_node, new_listener_node, Halt, panicked, failed}
use p2pradio.Node.Serving.{ServingFails, new_streamer_server_lem}
use p2pradio.Node.Making.{server_of, made_lem, MakingFails, decoding_panicked}
use p2pradio.Program.{
  Outside, built, StreamerNode, ListenerNode, StreamerNodeCtx, ListenerNodeCtx, new_streamer,
  new_listener,
}

module _ {F : Foreign} {N : Network F} {M : Mpsc Message} {A : Mpsc (List ℕ)}
    {B : Broadcast (List ℕ)} (O : Outside N M A B) where
  -- The swarm's peer is that of the new key; its gossipsub signs with this key, validates strictly and
  -- names messages by `message_id`.
  abbrev pub IsSigned : Swarm N → Type 0
  IsSigned s =
      (c : O.libp2p.Config) × (O.libp2p.build_config (message_id N) strict ≡ ok c)
      × (O.libp2p.new_gossipsub (signed O.key) c ≡ ok s.gossipsub)
      × (s.local_peer_id ≡ O.libp2p.to_peer_id (O.libp2p.public O.key))

  built-IsSigned : (s : Swarm N) → built O ≡ ok s → IsSigned s
  built-IsSigned s e = elim (build_swarm_lem O.libp2p O.key) [
    | inl (s', c, p, q, r, i) ↦ let same : s' ≡ s = cc in subst IsSigned same (c, q, r, i)
    | inr (x, why, p) ↦ absurd cc
  ]

  -- the swarm was built, listens, and has subscribed to the topic
  abbrev pub IsTuned : N.Topic → Swarm N → Type 0
  IsTuned topic s =
      IsSigned s
      × (built O ≡ ok s)
      × (O.listening ≡ ok tt)
      × ((N.subscribe topic s.gossipsub).1 ≡ ok true)

  abbrev pub tuned : N.Topic → Swarm N → Swarm N
  tuned topic s = record s { gossipsub = (N.subscribe topic s.gossipsub).0 }

  -- A streamer's node: its swarm on the topic, with a queue of 100 messages; a socket on the HTTP
  -- address, with the metrics; a server on the RPC address, which tells the swarm's own peer; and the
  -- pipeline for the URL.
  pub data IsStreamer (ctx : StreamerNodeCtx O) : StreamerNode O → Type 0 where
    on_air :
        (s : Swarm N) (l : O.TcpListener) (r : O.RpcServer) (x : O.SocketAddr) (p : O.Encoding)
        → IsTuned ctx.topic s
        → O.bind ctx.http_addr ≡ ok l
        → O.build ctx.rpc_addr ≡ ok r
        → O.server_addr r ≡ ok x
        → ctx.url ≢ []
        → O.init_gst ≡ ok tt
        → O.create_icecast_pipeline ctx.url ≡ ok p
        → IsStreamer ctx (
          record {
            swarm = tuned ctx.topic s;
            topic = ctx.topic;
            gossip_pub_rx = O.gossip_channel 100;
          },
          record {
            server_listener = record { listener = l; router = metrics_router };
            server_handle = O.start_server r (record { peer_id = s.local_peer_id });
          },
          p,
        )

  -- the first part of a streamer's node that cannot be made, in the order of swarm, server, backend
  pub data StreamerFails (ctx : StreamerNodeCtx O) : AppError F → Type 0 where
    swarm_failed :
        (e : AppError F) → InitFails N (built O) O.listening ctx.topic e → StreamerFails ctx e
    server_failed :
        (s : Swarm N) (e : AppError F)
        → IsTuned ctx.topic s
        → ServingFails F
            (O.bind ctx.http_addr)
            (O.build ctx.rpc_addr)
            O.server_addr
            (λ r. O.start_server r (record { peer_id = s.local_peer_id }))
            e
        → StreamerFails ctx e
    backend_failed :
        (s : Swarm N) (l : O.TcpListener) (r : O.RpcServer) (x : O.SocketAddr) (e : AppError F)
        → IsTuned ctx.topic s
        → O.bind ctx.http_addr ≡ ok l
        → O.build ctx.rpc_addr ≡ ok r
        → O.server_addr r ≡ ok x
        → EncodingFails F O.init_gst O.create_icecast_pipeline ctx.url e
        → StreamerFails ctx e

  -- A streamer's node is made of its context, or the error is that of its first part that fails.
  pub new_streamer_lem :
      (ctx : StreamerNodeCtx O)
      → ((n : StreamerNode O) × IsStreamer ctx n × (new_streamer O ctx ≡ ok n))
        ⊎ ((e : AppError F) × StreamerFails ctx e × (new_streamer O ctx ≡ err e))
  unfolding new_streamer new_streamer_node new_streamer_swarm streamer_peer_id
  new_streamer_lem ctx = elim (init_swarm_lem N (built O) O.listening ctx.topic) [
    | inr (e, why, p) ↦ inr (e, swarm_failed e why, rw (p, new_streamer) refl)
    | inl (s, b, h, n, p) ↦
        let handle : O.RpcServer → O.ServerHandle =
          λ r. O.start_server r (record { peer_id = s.local_peer_id }) in
        elim (new_streamer_server_lem F (O.bind ctx.http_addr) (O.build ctx.rpc_addr) O.server_addr
          handle) [
            | inr (e, why, q) ↦ inr (
              e,
              server_failed s e (built-IsSigned s b, b, h, n) why,
              rw (p, new_streamer) (rw (q, new_streamer) refl),
            )
            | inl (l, r, x, bound, built, addr, q) ↦
                elim (new_encoding_backend_lem F O.init_gst O.create_icecast_pipeline ctx.url) [
                  | inr (e, why, k) ↦ inr (
                    e,
                    backend_failed s l r x e (built-IsSigned s b, b, h, n) bound built addr why,
                    rw (p, new_streamer) (rw (q, new_streamer) (rw (k, new_streamer) refl)),
                  )
                  | inl (pipe, url, init, made, k) ↦ inl (
                    _,
                    on_air s l r x pipe (built-IsSigned s b, b, h, n) bound built addr url init
                        made,
                    rw (p, new_streamer) (rw (q, new_streamer) (rw (k, new_streamer) refl)),
                  )
                ]
          ]
  ]

  -- the swarm service of a listener that is tuned in
  abbrev pub hearing : N.Topic → N.PeerId → Swarm N → ListenerSwarmService N M
  hearing topic streamer_peer s = record {
    swarm = tuned topic s;
    gossip_sub_tx = O.gossip_channel 100;
    streamer_peer_id = streamer_peer;
  }

  -- A listener's node: its swarm on the topic, which trusts the given streamer, with a queue of 100
  -- messages; and its server with a socket on the HTTP address, the decoding backend, and a server on
  -- the RPC address, which tells the swarm's own peer.
  pub data IsListener (ctx : ListenerNodeCtx O) : ListenerNode O → Type 0 where
    tuned_in :
        (s : Swarm N) (l : O.TcpListener) (d : O.Decoding) (r : O.RpcServer) (x : O.SocketAddr)
        → IsTuned ctx.topic s
        → O.bind ctx.listener_addr ≡ ok l
        → O.new_decoding_backend (O.broadcast_channel 100) ≡ some (ok d)
        → O.build ctx.rpc_addr ≡ ok r
        → O.server_addr r ≡ ok x
        → IsListener ctx (
          hearing ctx.topic ctx.streamer_peer_id s,
          server_of F A B O.audio_channel O.broadcast_channel l d
              (O.start_server r (record { peer_id = s.local_peer_id })),
        )

  -- the first part of a listener's node that cannot be made, and its error or its panic
  pub data ListenerFails (ctx : ListenerNodeCtx O) : Halt F → Type 0 where
    init_failed :
        (e : AppError F)
        → InitFails N (built O) O.listening ctx.topic e
        → ListenerFails ctx (failed e)
    making_failed :
        (s : Swarm N) (e : Halt F)
        → IsTuned ctx.topic s
        → MakingFails F A B {S = ListenerSwarmService N M} O.audio_channel O.broadcast_channel
            (ok (hearing ctx.topic ctx.streamer_peer_id s))
            (O.bind ctx.listener_addr)
            O.new_decoding_backend
            (O.build ctx.rpc_addr)
            O.server_addr
            (λ service r. O.start_server r (record { peer_id = listener_peer_id N M service }))
            e
        → ListenerFails ctx e

  -- A listener's node is made of its context, or the error, or the panic, is that of its first part that fails.
  pub new_listener_lem :
      (ctx : ListenerNodeCtx O)
      → ((n : ListenerNode O) × IsListener ctx n × (new_listener O ctx ≡ ok n))
        ⊎ ((e : Halt F) × ListenerFails ctx e × (new_listener O ctx ≡ err e))
  unfolding new_listener new_listener_swarm listener_peer_id new_listener_node
  new_listener_lem ctx = elim (init_swarm_lem N (built O) O.listening ctx.topic) [
    | inr (e, why, p) ↦ inr (_, init_failed e why, rw (p, new_listener) refl)
    | inl (s, b, h, n, p) ↦
        elim (made_lem F A B {S = ListenerSwarmService N M} O.audio_channel O.broadcast_channel
          (ok (hearing ctx.topic ctx.streamer_peer_id s)) (O.bind ctx.listener_addr)
          O.new_decoding_backend (O.build ctx.rpc_addr) O.server_addr
          (λ service r. O.start_server r (record { peer_id = listener_peer_id N M service }))) [
            | inr (e, why, q) ↦
                inr (e, making_failed s e (built-IsSigned s b, b, h, n) why, rw (p, new_listener) q)
            | inl (service, d, l, r, x, same, bound, decoding, built, addr, q) ↦
                let it : service ≡ hearing ctx.topic ctx.streamer_peer_id s = cc in
                inl (
                  _,
                  tuned_in s l d r x (built-IsSigned s b, b, h, n) bound decoding built addr,
                  rw (p, new_listener)
                      (q
                        ∙ ap
                            (λ t. ok (
                              t,
                              server_of F A B O.audio_channel O.broadcast_channel l d
                                  (O.start_server r (record { peer_id = listener_peer_id N M t })),
                            ))
                            it),
                )
          ]
  ]

  -- Making a listener's node panics only where making the decoding backend does.
  pub panicked_lem :
      (ctx : ListenerNodeCtx O)
      → ListenerFails ctx panicked
      → O.new_decoding_backend (O.broadcast_channel 100) ≡ none
  panicked_lem ctx (making_failed s _ tuned (decoding_panicked service l p q r)) = r
