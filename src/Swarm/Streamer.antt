-- ===== src/Swarm/Streamer.antt =====
-- The streamer's loop and the start of either node's swarm, of src/p2p/swarm.rs.
use p2pradio.Prelude.{
  IsSublist, nil, keep, drop_one, Result-cases, ◌≡◌, refl, ap, sym, ◌∙◌, Option, none, some, List,
  [], ◌∷◌, ◌++◌, inl, inr, ok, err, Result, append-nil, append_assoc, map,
}
use p2pradio.Errors.{Foreign, TaskRet}
use p2pradio.Network.{Network}
use p2pradio.Codec.{Message, encode}
use p2pradio.Swarm.{
  Swarm, discovered, expired, BehaviorEvent, SwarmEvent, StreamerInput, publish, event, cancelled,
  behaviour, mdns, gossipsub, add_peers, remove_peers, publish_data, process_mdns_event,
  process_streamer_event, process_streamer_behavior_event, run_streamer,
}

module _ {F : Foreign} (N : Network F) where
  open N use {PeerId, Multiaddr, Topic, Gossip, published}

  -- the messages among the inputs before the first cancellation
  abbrev pub offered : List (StreamerInput N) → List Message
  offered [] = []
  offered (publish m ∷ inputs) = m ∷ offered inputs
  offered (event e ∷ inputs) = offered inputs
  offered (cancelled ∷ inputs) = []

  -- A cancelled task has no result.
  abbrev pub outcome : List (StreamerInput N) → Option (TaskRet F ⊥)
  outcome [] = none
  outcome (publish m ∷ inputs) = outcome inputs
  outcome (event e ∷ inputs) = outcome inputs
  outcome (cancelled ∷ inputs) = some none

  published-add_peers :
      (list : List (PeerId × Multiaddr)) (g : Gossip) → published (add_peers N list g) ≡ published g
  unfolding add_peers
  published-add_peers [] g = refl
  published-add_peers ((p, addr) ∷ list) g =
      published-add_peers list (N.add_explicit_peer p g) ∙ N.published-add p g

  published-remove_peers :
      (list : List (PeerId × Multiaddr)) (g : Gossip)
      → published (remove_peers N list g) ≡ published g
  unfolding remove_peers
  published-remove_peers [] g = refl
  published-remove_peers ((p, addr) ∷ list) g =
      published-remove_peers list (N.remove_explicit_peer p g) ∙ N.published-remove p g

  published-event :
      (swarm : Swarm N) (e : SwarmEvent N)
      → published (process_streamer_event N swarm e).gossipsub ≡ published swarm.gossipsub
  unfolding process_streamer_event process_streamer_behavior_event process_mdns_event
  published-event swarm (behaviour (mdns (discovered list))) = published-add_peers list _
  published-event swarm (behaviour (mdns (expired list))) = published-remove_peers list _
  published-event swarm (behaviour (gossipsub e)) = refl
  published-event swarm (behaviour BehaviorEvent.other) = refl
  published-event swarm SwarmEvent.other = refl

  abbrev kept : Result N.MessageId F.PublishError → Message → List Message → List Message
  kept (ok id) m rest = m ∷ rest
  kept (err e) m rest = rest

  -- the messages offered that gossipsub accepts, in the state that each of them meets
  abbrev pub accepted : Topic → List (StreamerInput N) → Swarm N → List Message
  accepted topic [] swarm = []
  accepted topic (publish m ∷ inputs) swarm =
      let (g, res) = N.publish topic (encode m) swarm.gossipsub in
      kept res m (accepted topic inputs (record swarm { gossipsub = g }))
  accepted topic (event e ∷ inputs) swarm = accepted topic inputs (process_streamer_event N swarm e)
  accepted topic (cancelled ∷ inputs) swarm = []

  -- Publishing adds the data, or fails and adds nothing.
  published-kept :
      (swarm : Swarm N) (topic : Topic) (m : Message) (rest : List Message)
      → published (N.publish topic (encode m) swarm.gossipsub).0 ++ map encode rest
        ≡ published swarm.gossipsub
          ++ map encode (kept (N.publish topic (encode m) swarm.gossipsub).1 m rest)
  published-kept swarm topic m rest =
      elim (Result-cases (N.publish topic (encode m) swarm.gossipsub).1) [
        | inl (id, e) ↦
            ap (λ l. l ++ map encode rest) (N.publish_ok topic (encode m) swarm.gossipsub id e)
            ∙ append_assoc (published swarm.gossipsub) (encode m ∷ []) (map encode rest)
            ∙ ap (λ r. published swarm.gossipsub ++ map encode (kept r m rest)) (sym e)
        | inr (x, e) ↦
            ap (λ l. l ++ map encode rest) (N.publish_err topic (encode m) swarm.gossipsub x e)
            ∙ ap (λ r. published swarm.gossipsub ++ map encode (kept r m rest)) (sym e)
      ]

  kept-IsSublist :
      (r : Result N.MessageId F.PublishError) (m : Message) {some_of all : List Message}
      → IsSublist some_of all
      → IsSublist (kept r m some_of) (m ∷ all)
  kept-IsSublist (ok id) m p = keep p
  kept-IsSublist (err e) m p = drop_one p

  -- Some of what is offered is accepted, in order.
  pub accepted-IsSublist :
      (topic : Topic) (inputs : List (StreamerInput N)) (swarm : Swarm N)
      → IsSublist (accepted topic inputs swarm) (offered inputs)
  accepted-IsSublist topic [] swarm = nil
  accepted-IsSublist topic (cancelled ∷ inputs) swarm = nil
  accepted-IsSublist topic (event e ∷ inputs) swarm = accepted-IsSublist topic inputs _
  accepted-IsSublist topic (publish m ∷ inputs) swarm =
      kept-IsSublist (N.publish topic (encode m) swarm.gossipsub).1 m
        (accepted-IsSublist topic inputs _)

  -- Whatever events come in between, the streamer's loop publishes the encodings of just those messages
  -- that it takes before it is cancelled and that gossipsub accepts in the state that each of them
  -- meets, in their order; a refusal does not end the loop, which ends exactly when it is cancelled,
  -- and then as a cancelled task.
  pub run_streamer-published :
      (inputs : List (StreamerInput N)) (swarm : Swarm N) (topic : Topic)
      → (published (run_streamer N inputs swarm topic).0.gossipsub
          ≡ published swarm.gossipsub ++ map encode (accepted topic inputs swarm))
        × ((run_streamer N inputs swarm topic).1 ≡ outcome inputs)
  unfolding run_streamer publish_data
  run_streamer-published [] swarm topic = (sym (append-nil _), refl)
  run_streamer-published (cancelled ∷ inputs) swarm topic = (sym (append-nil _), refl)
  run_streamer-published (event e ∷ inputs) swarm topic =
      let next = process_streamer_event N swarm e in
      let (log, end) = run_streamer-published inputs next topic in
      (log ∙ ap (λ l. l ++ map encode (accepted topic inputs next)) (published-event swarm e), end)
  run_streamer-published (publish m ∷ inputs) swarm topic =
      let (log, end) =
        run_streamer-published inputs (publish_data N swarm topic (encode m)).0 topic in
      (log ∙ published-kept swarm topic m _, end)

  -- A loop that was not cancelled goes on with the inputs that come next.
  pub run_streamer-append :
      (inputs more : List (StreamerInput N)) (swarm : Swarm N) (topic : Topic)
      → outcome inputs ≡ none
      → run_streamer N (inputs ++ more) swarm topic
        ≡ run_streamer N more (run_streamer N inputs swarm topic).0 topic
  unfolding run_streamer
  run_streamer-append [] more swarm topic e = refl
  run_streamer-append (cancelled ∷ inputs) more swarm topic e = cc
  run_streamer-append (event v ∷ inputs) more swarm topic e =
      run_streamer-append inputs more _ topic e
  run_streamer-append (publish m ∷ inputs) more swarm topic e =
      run_streamer-append inputs more _ topic e

  pub outcome-append :
      (inputs more : List (StreamerInput N))
      → outcome inputs ≡ none
      → outcome (inputs ++ more) ≡ outcome more
  outcome-append [] more e = refl
  outcome-append (cancelled ∷ inputs) more e = cc
  outcome-append (event v ∷ inputs) more e = outcome-append inputs more e
  outcome-append (publish m ∷ inputs) more e = outcome-append inputs more e

  pub offered-append :
      (inputs more : List (StreamerInput N))
      → outcome inputs ≡ none
      → offered (inputs ++ more) ≡ offered inputs ++ offered more
  offered-append [] more e = refl
  offered-append (cancelled ∷ inputs) more e = cc
  offered-append (event v ∷ inputs) more e = offered-append inputs more e
  offered-append (publish m ∷ inputs) more e = ap (◌∷◌ m) (offered-append inputs more e)
