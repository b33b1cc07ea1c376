-- ===== src/Tasks/Listener/Steps.antt =====
-- What flows through a listener's node, and how each round of a task keeps it.
use p2pradio.Prelude.{
  ℕ, ◌≤◌, ◌≡◌, refl, ap, sym, ◌∙◌, false, Option, none, some, ◌⊎◌, List, [], ◌∷◌, ◌++◌, ok, inl,
  inr, Result, append_assoc, length, arith, eq_nil_of_append,
}
use p2pradio.Errors.{Foreign}
use p2pradio.Network.{Network}
use p2pradio.Channel.{Mpsc, Bounded, HasRoom}
use p2pradio.Channel.Room.{Put, Put-none, Put-one}
use p2pradio.Codec.{Message}
use p2pradio.Encoder.{Gst}
use p2pradio.Swarm.{SwarmEvent}
use p2pradio.Swarm.Forward.{
  Delivers, nil, take, skip, sends, nothing, event-Handled, Delivers-append,
}
use p2pradio.Bridge.Relay.{audio_packets, last_title}
use p2pradio.Decoder.{AppSrc, process_bytes}
use p2pradio.Decoder.Pushes.{process_bytes_cases}
use p2pradio.Tasks.Listener.{gossip_sub_capacity, audio_capacity, Node, swarm_round, bridge_round}
use p2pradio.Tasks.Listener.Rounds.{audio_packets-append, last_title-append, step-title, step-Put}

abbrev pub in_hand : Option Message → List Message
in_hand none = []
in_hand (some m) = m ∷ []

module _ {F : Foreign} (N : Network F) (M : Mpsc Message) (A : Mpsc (List ℕ))
    (gossip : Bounded M gossip_sub_capacity) (audio : Bounded A audio_capacity) (G : Gst)
    (P : AppSrc) (with_size : ℕ → Result (Option (Option (Unit {0}))) G.BoolError)
    (streamer : N.PeerId) where
  abbrev State : Type 0
  State = Node N M A gossip audio G P with_size streamer

  -- What holds of a listener's node in every reachable state; `title` is the one that it started with.
  pub record Flows (title : List ℕ) (events : List (SwarmEvent N)) (n : State) : Type 0 where
    pub messages : List Message
    pub relayed : List Message
    pub delivers : Delivers N M streamer events messages
    pub message_flow : messages ≡ relayed ++ (in_hand n.message ++ gossip.held n.gossip_tx)
    pub audio_flow : audio_packets relayed ≡ P.pushed n.src ++ audio.held n.bridge.app_src_tx
    pub title_eq : n.bridge.title ≡ last_title title relayed
    pub gossip_open : M.is_closed n.gossip_tx ≡ false
    pub gossip_fits : length (gossip.held n.gossip_tx) ≤ gossip_sub_capacity
    pub audio_open : A.is_closed n.bridge.app_src_tx ≡ false
    pub audio_fits : length (audio.held n.bridge.app_src_tx) ≤ audio_capacity

  -- a node whose channels are new and whose decoder has been given nothing
  pub record IsFresh (n : State) : Type 0 where
    pub nothing_taken : n.message ≡ none
    pub gossip_open : M.is_closed n.gossip_tx ≡ false
    pub gossip_empty : gossip.held n.gossip_tx ≡ []
    pub audio_open : A.is_closed n.bridge.app_src_tx ≡ false
    pub audio_empty : audio.held n.bridge.app_src_tx ≡ []
    pub silent : P.pushed n.src ≡ []

  pub fresh-Flows : (n : State) → IsFresh n → Flows n.bridge.title [] n
  fresh-Flows n f = record {
    messages = [];
    relayed = [];
    delivers = nil;
    message_flow = rw (f.nothing_taken, f.gossip_empty) refl;
    audio_flow = rw (f.silent, f.audio_empty) refl;
    title_eq = refl;
    gossip_open = f.gossip_open;
    gossip_fits = omega (arith, ap length f.gossip_empty);
    audio_open = f.audio_open;
    audio_fits = omega (arith, ap length f.audio_empty);
  }

  module _ (n : State) {title : List ℕ} {events : List (SwarmEvent N)}
      (f : Flows title events n) where
    pub arrives-Flows : (e : SwarmEvent N) → Flows title events (record n { arrived = some e })
    arrives-Flows e = record {
      messages = f.messages;
      relayed = f.relayed;
      delivers = f.delivers;
      message_flow = f.message_flow;
      audio_flow = f.audio_flow;
      title_eq = f.title_eq;
      gossip_open = f.gossip_open;
      gossip_fits = f.gossip_fits;
      audio_open = f.audio_open;
      audio_fits = f.audio_fits;
    }

    -- What the event brings, and what the swarm's loop puts in the channel for it.
    event-Put :
        (e : SwarmEvent N)
        → HasRoom gossip n.gossip_tx
          ⊎ ((swarm_round N M A gossip audio G P with_size streamer e n).1 ≡ n.gossip_tx)
        → (ms : List Message) × Delivers N M streamer (e ∷ []) ms
          × Put gossip n.gossip_tx (swarm_round N M A gossip audio G P with_size streamer e n).1 ms
    event-Put e ready = elim (event-Handled N M streamer e (n.swarm, n.gossip_tx) f.gossip_open) [
      | nothing c same ↦
          ([], skip c nil, rw same (Put-none gossip n.gossip_tx f.gossip_open f.gossip_fits))
      | sends m c sent log opened ↦ elim ready [
        | inl room ↦
            let (c', accepted, put) = Put-one gossip n.gossip_tx f.gossip_open room m in
            let eq : (swarm_round N M A gossip audio G P with_size streamer e n).1 ≡ c' = cc in
            (m ∷ [], take c nil, rw eq put)
        | inr same ↦
            let no : m ∷ [] ≡ [] =
              eq_nil_of_append (M.sent n.gossip_tx) (m ∷ []) (sym log ∙ ap M.sent same) in
            cc
      ]
    ]

    pub handled-Flows :
        (e : SwarmEvent N)
        → HasRoom gossip n.gossip_tx
          ⊎ ((swarm_round N M A gossip audio G P with_size streamer e n).1 ≡ n.gossip_tx)
        → Flows title (events ++ e ∷ []) (record n {
          arrived = none;
          swarm = (swarm_round N M A gossip audio G P with_size streamer e n).0;
          gossip_tx = (swarm_round N M A gossip audio G P with_size streamer e n).1;
        })
    handled-Flows e ready =
        let (ms, brought, put) = event-Put e ready in
        record {
          messages = f.messages ++ ms;
          relayed = f.relayed;
          delivers = Delivers-append N M streamer f.delivers brought;
          message_flow =
              ap (λ l. l ++ ms) f.message_flow
              ∙ append_assoc f.relayed (in_hand n.message ++ gossip.held n.gossip_tx) ms
              ∙ ap (◌++◌ f.relayed) (
                  append_assoc (in_hand n.message) (gossip.held n.gossip_tx) ms
                  ∙ ap (◌++◌ (in_hand n.message)) (sym put.holds));
          audio_flow = f.audio_flow;
          title_eq = f.title_eq;
          gossip_open = put.open_still;
          gossip_fits = put.fits;
          audio_open = f.audio_open;
          audio_fits = f.audio_fits;
        }

    pub received-Flows :
        (m : Message) (rest : M.Chan)
        → n.message ≡ none
        → gossip.recv n.gossip_tx ≡ some (m, rest)
        → Flows title events (record n { gossip_tx = rest; message = some m })
    received-Flows m rest idle got =
        let (first, same) = gossip.recv_next n.gossip_tx rest m got in
        record {
          messages = f.messages;
          relayed = f.relayed;
          delivers = f.delivers;
          message_flow =
              f.message_flow
              ∙ ap (λ h. f.relayed ++ (in_hand h ++ gossip.held n.gossip_tx)) idle
              ∙ ap (◌++◌ f.relayed) first;
          audio_flow = f.audio_flow;
          title_eq = f.title_eq;
          gossip_open = same ∙ f.gossip_open;
          gossip_fits = omega (arith, ap length first, f.gossip_fits);
          audio_open = f.audio_open;
          audio_fits = f.audio_fits;
        }

    pub relayed-Flows :
        (m : Message)
        → n.message ≡ some m
        → HasRoom audio n.bridge.app_src_tx
          ⊎ ((bridge_round N M A gossip audio G P with_size streamer m n).app_src_tx
              ≡ n.bridge.app_src_tx)
        → Flows title events (record n {
          message = none;
          bridge = bridge_round N M A gossip audio G P with_size streamer m n;
        })
    relayed-Flows m taken ready =
        let put = step-Put F A audio m n.bridge f.audio_open f.audio_fits ready in
        record {
          messages = f.messages;
          relayed = f.relayed ++ m ∷ [];
          delivers = f.delivers;
          message_flow =
              f.message_flow
              ∙ ap (λ h. f.relayed ++ (in_hand h ++ gossip.held n.gossip_tx)) taken
              ∙ sym (append_assoc f.relayed (m ∷ []) (gossip.held n.gossip_tx));
          audio_flow =
              audio_packets-append f.relayed m
              ∙ ap (λ l. l ++ audio_packets (m ∷ [])) f.audio_flow
              ∙ append_assoc (P.pushed n.src) (audio.held n.bridge.app_src_tx)
                  (audio_packets (m ∷ []))
              ∙ ap (◌++◌ (P.pushed n.src)) (sym put.holds);
          title_eq =
              step-title F A audio m n.bridge f.audio_open
              ∙ ap (λ t. last_title t (m ∷ [])) f.title_eq
              ∙ sym (last_title-append title f.relayed m);
          gossip_open = f.gossip_open;
          gossip_fits = f.gossip_fits;
          audio_open = put.open_still;
          audio_fits = put.fits;
        }

    pub pushed-Flows :
        (bytes : List ℕ) (rest : A.Chan)
        → audio.recv n.bridge.app_src_tx ≡ some (bytes, rest)
        → (process_bytes G P with_size bytes n.src).1 ≡ ok false
        → Flows title events (record n {
          bridge = record n.bridge { app_src_tx = rest };
          src = (process_bytes G P with_size bytes n.src).0;
        })
    pushed-Flows bytes rest got went =
        let (first, same) = audio.recv_next n.bridge.app_src_tx rest bytes got in
        let log : P.pushed (process_bytes G P with_size bytes n.src).0
            ≡ P.pushed n.src ++ bytes ∷ [] =
          elim (process_bytes_cases G P with_size bytes n.src) [
            | inl (p, log) ↦ log
            | inr (e, p, log) ↦ cc
          ] in
        record {
          messages = f.messages;
          relayed = f.relayed;
          delivers = f.delivers;
          message_flow = f.message_flow;
          audio_flow =
              f.audio_flow
              ∙ ap (◌++◌ (P.pushed n.src)) first
              ∙ sym (append_assoc (P.pushed n.src) (bytes ∷ []) (audio.held rest))
              ∙ ap (λ l. l ++ audio.held rest) (sym log);
          title_eq = f.title_eq;
          gossip_open = f.gossip_open;
          gossip_fits = f.gossip_fits;
          audio_open = same ∙ f.audio_open;
          audio_fits = omega (arith, ap length first, f.audio_fits);
        }
