-- ===== src/Swarm/Forward.antt =====
-- What the listener's loop of src/p2p/swarm.rs passes on to the rest of the listener.
use p2pradio.Prelude.{
  ℕ, ◌≡◌, ◌≢◌, refl, ap, sym, ◌∙◌, false, Option, none, some, List, [], ◌∷◌, ◌++◌, Bool-cases, inl,
  inr, ok, err, Result, append-nil, append_assoc,
}
use p2pradio.Errors.{Foreign}
use p2pradio.Network.{Network}
use p2pradio.Channel.{Mpsc}
use p2pradio.Codec.{DecodeError, Message, encode, decode, IsMessage}
use p2pradio.Codec.RoundTrip.{decode-encode, encode-decode}
use p2pradio.Swarm.{
  Swarm, GossipEvent, message, GossipMessage, BehaviorEvent, SwarmEvent, ListenerInput, event,
  behaviour, mdns, gossipsub, process_gossip_sub_event, process_listener_behavior_event,
  process_listener_event, run_listener, accept, forward, accept_decoded,
}

module _ {F : Foreign} (N : Network F) (M : Mpsc Message) (streamer : N.PeerId) where
  -- The event brings the message: relayed by the streamer itself, numbered, and its encoding.
  pub data Carries (e : SwarmEvent N) (m : Message) : Type 0 where
    carries :
        (id : N.MessageId) (msg : GossipMessage N) (seq_no : ℕ)
        → e ≡ behaviour (gossipsub (message streamer id msg))
        → msg.sequence_number ≡ some seq_no
        → IsMessage m
        → msg.content ≡ encode m
        → Carries e m

  -- The messages that a run of events brings, in order.
  pub data Delivers : List (SwarmEvent N) → List Message → Type 0 where
    nil : Delivers [] []
    take :
        {e : SwarmEvent N} {es : List (SwarmEvent N)} {m : Message} {ms : List Message}
        → Carries e m
        → Delivers es ms
        → Delivers (e ∷ es) (m ∷ ms)
    skip :
        {e : SwarmEvent N} {es : List (SwarmEvent N)} {ms : List Message}
        → ((m : Message) → ¬ Carries e m)
        → Delivers es ms
        → Delivers (e ∷ es) ms

  -- One event: either it brings a message and that is sent, or it brings none and nothing is.
  pub data Handled (e : SwarmEvent N) (tx tx' : M.Chan) : Type 0 where
    sends :
        (m : Message)
        → Carries e m
        → M.send m tx ≡ ok tx'
        → M.sent tx' ≡ M.sent tx ++ m ∷ []
        → M.is_closed tx' ≡ false
        → Handled e tx tx'
    nothing : ((m : Message) → ¬ Carries e m) → tx' ≡ tx → Handled e tx tx'

  quiet :
      (e : SwarmEvent N)
      → ((id : N.MessageId) (msg : GossipMessage N)
          → e ≢ behaviour (gossipsub (message streamer id msg)))
      → (m : Message) → ¬ Carries e m
  quiet e h m (carries id msg seq_no p q r t) = h id msg p

  module _ (source : N.PeerId) (id : N.MessageId) (msg : GossipMessage N) where
    abbrev arrival : SwarmEvent N
    arrival = behaviour (gossipsub (message source id msg))

    carried :
        (m : Message)
        → Carries arrival m
        → (source ≡ streamer) × (msg.sequence_number ≢ none) × (decode msg.content ≡ ok m)
    carried m (carries id' msg' seq_no p q r t) =
        let same : msg' ≡ msg = cc in
        (
          cc,
          λ e. cc (ap (λ (g : GossipMessage N). g.sequence_number) same),
          ap decode (sym (ap (λ (g : GossipMessage N). g.content) same) ∙ t) ∙ decode-encode m r,
        )

    accept_eq :
        (tx : M.Chan) (seq : Option ℕ)
        → msg.sequence_number ≡ seq
        → accept N M msg.sequence_number msg.content tx ≡ accept N M seq msg.content tx
    accept_eq tx seq e = ap (λ s. accept N M s msg.content tx) e

    sends_eq :
        (tx tx' : M.Chan) (seq_no : ℕ) (m : Message)
        → msg.sequence_number ≡ some seq_no
        → decode msg.content ≡ ok m
        → M.send m tx ≡ ok tx'
        → accept N M msg.sequence_number msg.content tx ≡ tx'
    unfolding accept accept_decoded forward
    sends_eq tx tx' seq_no m e d sent =
        accept_eq tx (some seq_no) e
        ∙ ap (λ r. accept_decoded N M r tx) d
        ∙ rw (sent, accept_decoded, forward)

    -- a message that was relayed by the streamer
    accept-Handled :
        (tx : M.Chan)
        → source ≡ streamer
        → M.is_closed tx ≡ false
        → (seq : Option ℕ) → msg.sequence_number ≡ seq
        → (r : Result Message DecodeError) → decode msg.content ≡ r
        → Handled arrival tx (accept N M msg.sequence_number msg.content tx)
    accept-Handled tx trusted opened none e r d =
        nothing (λ m c. (carried m c).1 e) (unfold accept in accept_eq tx none e)
    accept-Handled tx trusted opened (some seq_no) e (err x) d =
        nothing (λ m c. cc (d, (carried m c).2))
          (unfold accept accept_decoded in
            accept_eq tx (some seq_no) e ∙ ap (λ r. accept_decoded N M r tx) d)
    accept-Handled tx trusted opened (some seq_no) e (ok m) d =
        let (tx', sent, log, still) = M.send_open m tx opened in
        let whole = encode-decode msg.content m d in
        let new_tx = sends_eq tx tx' seq_no m e d sent in
        sends m
          (carries id msg seq_no (ap (λ s. behaviour (gossipsub (message s id msg))) trusted) e
            whole.0 (sym whole.1))
          (rw new_tx sent) (rw new_tx log) (rw new_tx still)

    message-Handled :
        (swarm : Swarm N) (tx : M.Chan)
        → M.is_closed tx ≡ false
        → Handled arrival tx
            (process_gossip_sub_event N M (swarm, tx) (message source id msg) streamer).1
    message-Handled swarm tx opened = elim (Bool-cases (N.peer_eq source streamer)) [
      | inl same ↦
          unfold process_gossip_sub_event in
          rw same (accept-Handled tx ((N.peer_eq_iff source streamer).0 same) opened _ refl _ refl)
      | inr differ ↦
          unfold process_gossip_sub_event in
          rw differ
            (nothing (λ m c. cc (differ, (N.peer_eq_iff source streamer).1 (carried m c).0)) refl)
    ]

  pub event-Handled :
      (e : SwarmEvent N) (s : Swarm N × M.Chan)
      → M.is_closed s.1 ≡ false
      → Handled e s.1 (process_listener_event N M s streamer e).1
  unfolding process_listener_event process_listener_behavior_event
  event-Handled SwarmEvent.other s h = nothing (quiet _ (λ id msg p. cc)) refl
  event-Handled (behaviour BehaviorEvent.other) s h = nothing (quiet _ (λ id msg p. cc)) refl
  event-Handled (behaviour (mdns e)) s h = nothing (quiet _ (λ id msg p. cc)) refl
  event-Handled (behaviour (gossipsub GossipEvent.other)) s h =
      nothing (quiet _ (λ id msg p. cc)) (unfold process_gossip_sub_event in refl)
  event-Handled (behaviour (gossipsub (message source id msg))) s h =
      message-Handled source id msg s.0 s.1 h

  pub Delivers-append :
      {es fs : List (SwarmEvent N)} {ms ns : List Message}
      → Delivers es ms
      → Delivers fs ns
      → Delivers (es ++ fs) (ms ++ ns)
  Delivers-append nil d = d
  Delivers-append (take c rest) d = take c (Delivers-append rest d)
  Delivers-append (skip c rest) d = skip c (Delivers-append rest d)

  -- the loop's inputs, without a cancellation
  abbrev pub events : List (SwarmEvent N) → List (ListenerInput N)
  events [] = []
  events (e ∷ es) = event e ∷ events es

  -- While the channel is open and the loop is not cancelled, it sends on exactly the messages that the
  -- streamer relayed itself with a sequence number and in the wire format, in the order of arrival;
  -- every other event of the network sends nothing.
  pub run_listener-Delivers :
      (es : List (SwarmEvent N)) (s : Swarm N × M.Chan)
      → M.is_closed s.1 ≡ false
      → (ms : List Message) × Delivers es ms
        × (M.sent (run_listener N M (events es) s streamer).0.1 ≡ M.sent s.1 ++ ms)
        × ((run_listener N M (events es) s streamer).1 ≡ none)
  unfolding run_listener
  run_listener-Delivers [] s h = ([], nil, sym (append-nil _), refl)
  run_listener-Delivers (e ∷ es) s h = elim (event-Handled e s h) [
    | sends m c sent log opened ↦
        let (ms, d, all, more) =
          run_listener-Delivers es (process_listener_event N M s streamer e) opened in
        (
          m ∷ ms,
          take c d,
          all ∙ ap (λ l. l ++ ms) log ∙ append_assoc (M.sent s.1) (m ∷ []) ms,
          more,
        )
    | nothing c same ↦
        let opened = ap M.is_closed same ∙ h in
        let (ms, d, all, more) =
          run_listener-Delivers es (process_listener_event N M s streamer e) opened in
        (ms, skip c d, all ∙ ap (λ t. M.sent t ++ ms) same, more)
  ]
