-- ===== src/Swarm/Peers.antt =====
-- Whom the listener and the streamer peer with: what each event of src/p2p/swarm.rs does to the
-- explicit peers and to the blacklist.
use p2pradio.Prelude.{
  ap, inl, inr, ◌≢◌, Bool-cases, ◌∙◌, true, ◌≡◌, refl, Bool, false, not, ◌&&◌, ◌||◌, List, [], ◌∷◌,
  arith,
}
use p2pradio.Errors.{Foreign}
use p2pradio.Network.{Network}
use p2pradio.Swarm.{
  event, cancelled, message, SwarmEvent, process_listener_behavior_event, message, event,
  GossipMessage, run_listener, process_listener_event, process_gossip_sub_event, MdnsEvent,
  ListenerInput, GossipEvent, Message, Mpsc, behaviour, mdns, gossipsub, other, Swarm, discovered,
  expired, add_peers, remove_peers, process_mdns_event,
}

module _ {F : Foreign} (N : Network F) where
  open N use {PeerId, Multiaddr, Gossip, is_explicit, is_blacklisted, peer_eq}

  -- whether a peer is in a list of mDNS
  abbrev pub listed : PeerId → List (PeerId × Multiaddr) → Bool
  listed q [] = false
  listed q ((p, addr) ∷ list) = peer_eq p q || listed q list

  add_peers_lem :
      (list : List (PeerId × Multiaddr)) (g : Gossip) (q : PeerId)
      → (is_explicit (add_peers N list g) q ≡ (listed q list || is_explicit g q))
        × (is_blacklisted (add_peers N list g) q ≡ is_blacklisted g q)
  unfolding add_peers
  add_peers_lem [] g q = (refl, refl)
  add_peers_lem ((p, addr) ∷ list) g q =
      let ih = add_peers_lem list (N.add_explicit_peer p g) q in
      ground (arith, ih, N.explicit-add p g q, N.blacklisted-add p g q)

  remove_peers_lem :
      (list : List (PeerId × Multiaddr)) (g : Gossip) (q : PeerId)
      → (is_explicit (remove_peers N list g) q ≡ (not (listed q list) && is_explicit g q))
        × (is_blacklisted (remove_peers N list g) q ≡ is_blacklisted g q)
  unfolding remove_peers
  remove_peers_lem [] g q = (refl, refl)
  remove_peers_lem ((p, addr) ∷ list) g q =
      let ih = remove_peers_lem list (N.remove_explicit_peer p g) q in
      ground (arith, ih, N.explicit-remove p g q, N.blacklisted-remove p g q)

  -- After mDNS has discovered some peers, the explicit peers are those and the ones before; after
  -- some have expired, the ones before without those; neither changes the blacklist.
  pub process_mdns_event_lem :
      (swarm : Swarm N) (list : List (PeerId × Multiaddr)) (q : PeerId)
      → let found = (process_mdns_event N swarm (discovered list)).gossipsub in
        let left = (process_mdns_event N swarm (expired list)).gossipsub in
        (is_explicit found q ≡ (listed q list || is_explicit swarm.gossipsub q))
        × (is_explicit left q ≡ (not (listed q list) && is_explicit swarm.gossipsub q))
        × (is_blacklisted found q ≡ is_blacklisted swarm.gossipsub q)
        × (is_blacklisted left q ≡ is_blacklisted swarm.gossipsub q)
  unfolding process_mdns_event
  process_mdns_event_lem swarm list q =
      let a = add_peers_lem list swarm.gossipsub q in
      let r = remove_peers_lem list swarm.gossipsub q in (a.0, r.0, a.1, r.1)

  module _ (M : Mpsc Message) where
    -- A gossipsub message that another peer than the streamer relayed, whoever wrote it and whatever
    -- it holds, is not passed on; the relay, and nobody else, is put on the blacklist and taken out
    -- of the explicit peers.
    pub untrusted_relay :
        (swarm : Swarm N) (tx : M.Chan) (relay streamer : PeerId) (id : N.MessageId)
        → (msg : GossipMessage N) → relay ≢ streamer
        → let after = process_gossip_sub_event N M (swarm, tx) (message relay id msg) streamer in
          (after.1 ≡ tx)
          × ((q : PeerId)
              → (is_blacklisted after.0.gossipsub q
                  ≡ (peer_eq relay q || is_blacklisted swarm.gossipsub q))
                × (is_explicit after.0.gossipsub q
                    ≡ (not (peer_eq relay q) && is_explicit swarm.gossipsub q)))
    unfolding process_gossip_sub_event
    untrusted_relay swarm tx relay streamer id msg ne = elim (Bool-cases (peer_eq relay streamer)) [
      | inl same ↦ absurd (ne ((N.peer_eq_iff relay streamer).0 same))
      | inr differ ↦
          let g = N.blacklist_peer relay swarm.gossipsub in
          rw differ (
            refl,
            λ q. (
              N.blacklisted-remove relay g q ∙ N.blacklisted-blacklist relay swarm.gossipsub q,
              N.explicit-remove relay g q
                  ∙ ap (λ b. not (peer_eq relay q) && b)
                      (N.explicit-blacklist relay swarm.gossipsub q),
            ),
          )
    ]

    -- A blacklist that only grows, and never by the streamer.
    record Keeps (streamer : PeerId) (g g' : Gossip) : Type 0 where
      trusts : is_blacklisted g' streamer ≡ is_blacklisted g streamer
      grows : (q : PeerId) → is_blacklisted g q ≡ true → is_blacklisted g' q ≡ true

    Keeps-refl : (streamer : PeerId) (g : Gossip) → Keeps streamer g g
    Keeps-refl streamer g = record { trusts = refl; grows = λ q h. h }

    Keeps-trans :
        (streamer : PeerId) {g h k : Gossip}
        → Keeps streamer g h
        → Keeps streamer h k
        → Keeps streamer g k
    Keeps-trans streamer a b = record {
      trusts = b.trusts ∙ a.trusts;
      grows = λ q h. b.grows q (a.grows q h);
    }

    mdns-Keeps :
        (swarm : Swarm N) (e : MdnsEvent N) (streamer : PeerId)
        → Keeps streamer swarm.gossipsub (process_mdns_event N swarm e).gossipsub
    mdns-Keeps swarm (discovered list) streamer = record {
      trusts = (process_mdns_event_lem swarm list streamer).2;
      grows = λ q h. (process_mdns_event_lem swarm list q).2 ∙ h;
    }
    mdns-Keeps swarm (expired list) streamer = record {
      trusts = (process_mdns_event_lem swarm list streamer).3;
      grows = λ q h. (process_mdns_event_lem swarm list q).3 ∙ h;
    }

    gossip-Keeps :
        (s : Swarm N × M.Chan) (e : GossipEvent N) (streamer : PeerId)
        → Keeps streamer s.0.gossipsub (process_gossip_sub_event N M s e streamer).0.gossipsub
    gossip-Keeps (swarm, tx) GossipEvent.other streamer =
        unfold process_gossip_sub_event in Keeps-refl streamer swarm.gossipsub
    gossip-Keeps (swarm, tx) (message relay id msg) streamer =
        elim (Bool-cases (peer_eq relay streamer)) [
          | inl same ↦
              unfold process_gossip_sub_event in rw same (Keeps-refl streamer swarm.gossipsub)
          | inr differ ↦
              let ne : relay ≢ streamer = λ e. cc (differ, (N.peer_eq_iff relay streamer).1 e) in
              let after = (untrusted_relay swarm tx relay streamer id msg ne).1 in
              record {
                trusts = (after streamer).0 ∙ rw differ;
                grows = λ q h. ground (arith, (after q).0);
              }
        ]

    event-Keeps :
        (s : Swarm N × M.Chan) (e : SwarmEvent N) (streamer : PeerId)
        → Keeps streamer s.0.gossipsub (process_listener_event N M s streamer e).0.gossipsub
    unfolding process_listener_event process_listener_behavior_event
    event-Keeps s (behaviour (mdns e)) streamer = mdns-Keeps s.0 e streamer
    event-Keeps s (behaviour (gossipsub e)) streamer = gossip-Keeps s e streamer
    event-Keeps s (behaviour other) streamer = Keeps-refl streamer s.0.gossipsub
    event-Keeps s SwarmEvent.other streamer = Keeps-refl streamer s.0.gossipsub

    run-Keeps :
        (inputs : List (ListenerInput N)) (s : Swarm N × M.Chan) (streamer : PeerId)
        → Keeps streamer s.0.gossipsub (run_listener N M inputs s streamer).0.0.gossipsub
    unfolding run_listener
    run-Keeps [] s streamer = Keeps-refl streamer s.0.gossipsub
    run-Keeps (event e ∷ inputs) s streamer =
        Keeps-trans streamer (event-Keeps s e streamer)
          (run-Keeps inputs (process_listener_event N M s streamer e) streamer)
    run-Keeps (cancelled ∷ inputs) s streamer = Keeps-refl streamer s.0.gossipsub

    -- Over any inputs the listener's loop never puts the streamer on the blacklist, nor takes it off,
    -- and takes no other peer off.
    pub run_listener-blacklist :
        (inputs : List (ListenerInput N)) (s : Swarm N × M.Chan) (streamer : PeerId)
        → let after = (run_listener N M inputs s streamer).0.0.gossipsub in
          (is_blacklisted after streamer ≡ is_blacklisted s.0.gossipsub streamer)
          × ((q : PeerId) → is_blacklisted s.0.gossipsub q ≡ true → is_blacklisted after q ≡ true)
    run_listener-blacklist inputs s streamer =
        let k = run-Keeps inputs s streamer in (k.trusts, k.grows)
