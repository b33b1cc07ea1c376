-- ===== src/Node/Making.antt =====
-- How a listener's node is made: `ListenerNode::new` of src/node.rs and the servers of src/rpc/mod.rs.
use p2pradio.Prelude.{
  ℕ, ◌≡◌, ◌⊎◌, inl, inr, refl, Option, none, some, List, [], Result, Result-cases, ok, err,
}
use p2pradio.Errors.{Foreign, AppError}
use p2pradio.Channel.{Mpsc, Broadcast}
use p2pradio.Http.{route, metrics_router, stream_handler, new_axum_listener, new}
use p2pradio.Bridge.{new as new_bridge}
use p2pradio.Node.{
  Halt, panicked, failed, unwinding, ListenerServerService, new_listener_node,
  create_listener_server, new_listener_server, start_info_server,
}

module _ (F : Foreign) (A : Mpsc (List ℕ)) (B : Broadcast (List ℕ)) {L D H : Type 0}
    (audio : ℕ → A.Chan) (broadcast : ℕ → B.Chan) where
  -- the server with its services: the decoder and Axum share the broadcast channel, nothing is cached
  -- and no title is known
  abbrev pub server_of : L → D → H → ListenerServerService F A B D L H
  server_of listener decoding h = record {
    decoding_backend = decoding;
    axum_server = record {
      listener = listener;
      router = route metrics_router "/stream" stream_handler;
      service = record { headers = []; dec_tx = broadcast 100; title = [] };
    };
    gossip_backend = record { app_src_tx = audio 100; title = [] };
    server_handle = h;
  }

module _ (F : Foreign) (A : Mpsc (List ℕ)) (B : Broadcast (List ℕ)) {S L D R X H : Type 0}
    (audio : ℕ → A.Chan) (broadcast : ℕ → B.Chan) (new_swarm : Result S (AppError F))
    (bind : Result L F.IoError) (new_decoding : B.Chan → Option (Result D F.AnyhowError))
    (build : Result R F.IoError) (local_addr : R → Result X F.IoError) (handle : S → R → H) where
  -- the first part of a listener's node that cannot be made, and the error that the node ends with, or
  -- its panic
  pub data MakingFails : Halt F → Type 0 where
    swarm_failed : (e : AppError F) → new_swarm ≡ err e → MakingFails (failed e)
    bind_failed :
        (s : S) (x : F.IoError)
        → new_swarm ≡ ok s
        → bind ≡ err x
        → MakingFails (failed (AppError.io x))
    decoding_panicked :
        (s : S) (l : L)
        → new_swarm ≡ ok s
        → bind ≡ ok l
        → new_decoding (broadcast 100) ≡ none
        → MakingFails panicked
    decoding_failed :
        (s : S) (l : L) (x : F.AnyhowError)
        → new_swarm ≡ ok s
        → bind ≡ ok l
        → new_decoding (broadcast 100) ≡ some (err x)
        → MakingFails (failed (AppError.anyhow x))
    build_failed :
        (s : S) (l : L) (d : D) (x : F.IoError)
        → new_swarm ≡ ok s
        → bind ≡ ok l
        → new_decoding (broadcast 100) ≡ some (ok d)
        → build ≡ err x
        → MakingFails (failed (AppError.io x))
    local_addr_failed :
        (s : S) (l : L) (d : D) (r : R) (x : F.IoError)
        → new_swarm ≡ ok s
        → bind ≡ ok l
        → new_decoding (broadcast 100) ≡ some (ok d)
        → build ≡ ok r
        → local_addr r ≡ err x
        → MakingFails (failed (AppError.io x))

  data Decoded (made_it : Option (Result D F.AnyhowError)) : Type 0 where
    panics : made_it ≡ none → Decoded made_it
    fails : (x : F.AnyhowError) → made_it ≡ some (err x) → Decoded made_it
    makes : (d : D) → made_it ≡ some (ok d) → Decoded made_it

  decoding_cases : (made_it : Option (Result D F.AnyhowError)) → Decoded made_it
  decoding_cases none = panics refl
  decoding_cases (some (err x)) = fails x refl
  decoding_cases (some (ok d)) = makes d refl

  abbrev pub made : Result (S × ListenerServerService F A B D L H) (Halt F)
  made = new_listener_node F new_swarm (λ s.
      create_listener_server F A B audio broadcast bind new_decoding
        (start_info_server F build local_addr (handle s)))

  -- A listener's node is made of its swarm and its server where the swarm, the HTTP socket, the
  -- decoding backend and the RPC server can all be made; otherwise the error, or the panic, is that of
  -- the first that cannot, in this order.
  pub made_lem :
      ((s : S) × (d : D) × (l : L) × (r : R) × (x : X) × (new_swarm ≡ ok s)
        × (bind ≡ ok l)
        × (new_decoding (broadcast 100) ≡ some (ok d))
        × (build ≡ ok r)
        × (local_addr r ≡ ok x)
        × (made ≡ ok (s, server_of F A B audio broadcast l d (handle s r))))
      ⊎ ((e : Halt F) × MakingFails e × (made ≡ err e))
  unfolding unwinding new_listener_node create_listener_server new_listener_server start_info_server
      new_axum_listener new new_bridge
  made_lem = elim (Result-cases new_swarm) [
    | inr (e, p) ↦ inr (_, swarm_failed e p, rw (p, made) refl)
    | inl (s, p) ↦ elim (Result-cases bind) [
      | inr (x, q) ↦ inr (_, bind_failed s x p q, rw (p, made) (rw (q, made) refl))
      | inl (l, q) ↦ elim (decoding_cases (new_decoding (broadcast 100))) [
        | panics r ↦
            inr (_, decoding_panicked s l p q r, rw (p, made) (rw (q, made) (rw (r, made) refl)))
        | fails x r ↦
            inr (_, decoding_failed s l x p q r, rw (p, made) (rw (q, made) (rw (r, made) refl)))
        | makes d r ↦ elim (Result-cases build) [
          | inr (x, b) ↦ inr (
            _,
            build_failed s l d x p q r b,
            rw (p, made) (rw (q, made) (rw (r, made) (rw (b, made) refl))),
          )
          | inl (u, b) ↦ elim (Result-cases (local_addr u)) [
            | inr (x, a) ↦ inr (
              _,
              local_addr_failed s l d u x p q r b a,
              rw (p, made) (rw (q, made) (rw (r, made) (rw (b, made) (rw (a, made) refl)))),
            )
            | inl (x, a) ↦ inl (
              s,
              d,
              l,
              u,
              x,
              p,
              q,
              r,
              b,
              a,
              rw (p, made) (rw (q, made) (rw (r, made) (rw (b, made) (rw (a, made) refl)))),
            )
          ]
        ]
      ]
    ]
  ]
