-- ===== src/Tasks/Listener/Drain.antt =====
-- A listener's node does not get stuck: what has come in can be played.
use p2pradio.Prelude.{
  append-nil, ℕ, ◌≡◌, refl, ap, sym, ◌∙◌, false, Option, none, some, List, [], ◌∷◌, ◌++◌, ok, inl,
  Result, length, arith,
}
use p2pradio.Errors.{Foreign}
use p2pradio.Network.{Network}
use p2pradio.Channel.{Mpsc, Bounded, HasRoom}
use p2pradio.Codec.{Message}
use p2pradio.Encoder.{Gst}
use p2pradio.Swarm.{SwarmEvent}
use p2pradio.Swarm.Forward.{Delivers}
use p2pradio.Bridge.Relay.{audio_packets, last_title}
use p2pradio.Decoder.{AppSrc, process_bytes}
use p2pradio.Tasks.Listener.{
  gossip_sub_capacity, audio_capacity, Node, Reach, here, arrives, handled, received, relayed,
  pushed,
}
use p2pradio.Tasks.Listener.Flow.{in_hand, IsFresh, Reach-ListenerFlows}

-- An appsrc that accepts what it is given now, and goes on so as it is given more: as GStreamer
-- documents of one that plays and has not ended, and that has a buffer for each packet.
abbrev pub IsPlaying :
    (G : Gst) (P : AppSrc)
    → (ℕ → Result (Option (Option (Unit {0}))) G.BoolError)
    → (P.Src → Type 0)
    → Type 0
IsPlaying G P with_size playing =
    (bytes : List ℕ) (src : P.Src)
    → playing src
    → ((process_bytes G P with_size bytes src).1 ≡ ok false)
      × playing (process_bytes G P with_size bytes src).0

append_cons : {X : Type 0} (xs : List X) (x : X) → ¬ (xs ++ x ∷ [] ≡ [])
append_cons [] x e = cc
append_cons (y ∷ xs) x e = cc

module _ {F : Foreign} (N : Network F) (M : Mpsc Message) (A : Mpsc (List ℕ))
    (gossip : Bounded M gossip_sub_capacity) (audio : Bounded A audio_capacity) (G : Gst)
    (P : AppSrc) (with_size : ℕ → Result (Option (Option (Unit {0}))) G.BoolError)
    (streamer : N.PeerId) where
  abbrev State : Type 0
  State = Node N M A gossip audio G P with_size streamer

  abbrev Reached : State → List (SwarmEvent N) → State → Type 0
  Reached = Reach N M A gossip audio G P with_size streamer

  module _ (playing : P.Src → Type 0) (willing : IsPlaying G P with_size playing) where
    -- The decoder's loop can push all that waits for it.
    push_all :
        {start : State} {events : List (SwarmEvent N)} (waiting : List (List ℕ)) (n : State)
        → playing n.src
        → audio.held n.bridge.app_src_tx ≡ waiting
        → Reached start events n
        → (n' : State) × Reached start events n'
          × playing n'.src
          × (audio.held n'.bridge.app_src_tx ≡ [])
          × (n'.message ≡ n.message)
          × (n'.gossip_tx ≡ n.gossip_tx)
    push_all [] n plays e r = (n, r, plays, e, refl, refl)
    push_all (bytes ∷ waiting) n plays e r =
        let (rest, got) = audio.recv_ready n.bridge.app_src_tx bytes waiting e in
        let left : audio.held rest ≡ waiting =
          let all = sym (audio.recv_next n.bridge.app_src_tx rest bytes got).0 ∙ e in cc in
        let (went, still) = willing bytes n.src plays in
        push_all waiting _ still left (pushed r bytes rest got went)

    -- The bridge can finish its round, and what it sends can be pushed.
    empty_hand :
        {start : State} {events : List (SwarmEvent N)} (n : State) (hand : Option Message)
        → playing n.src
        → n.message ≡ hand
        → Reached start events n
        → (n' : State) × Reached start events n'
          × playing n'.src
          × (audio.held n'.bridge.app_src_tx ≡ [])
          × (n'.message ≡ none)
          × (n'.gossip_tx ≡ n.gossip_tx)
    empty_hand n none plays e r =
        let (n', r', plays', done, same, gossip_same) =
          push_all (audio.held n.bridge.app_src_tx) n plays refl r in
        (n', r', plays', done, same ∙ e, gossip_same)
    empty_hand n (some m) plays e r =
        let (n', r', plays', done, same, gossip_same) =
          push_all (audio.held n.bridge.app_src_tx) n plays refl r in
        let room : HasRoom audio n'.bridge.app_src_tx = omega (arith, ap length done) in
        let (n'', r'', plays'', done', same', gossip_same') =
          push_all _ _ plays' refl (relayed r' m (same ∙ e) (inl room)) in
        (n'', r'', plays'', done', same', gossip_same' ∙ gossip_same)

    -- The bridge can take all the messages that wait for it.
    take_all :
        {start : State} {events : List (SwarmEvent N)} (waiting : List Message) (n : State)
        → playing n.src
        → gossip.held n.gossip_tx ≡ waiting
        → Reached start events n
        → (n' : State) × Reached start events n'
          × playing n'.src
          × (audio.held n'.bridge.app_src_tx ≡ [])
          × (n'.message ≡ none)
          × (gossip.held n'.gossip_tx ≡ [])
    take_all [] n plays e r =
        let (n', r', plays', done, idle, same) = empty_hand n n.message plays refl r in
        (n', r', plays', done, idle, ap gossip.held same ∙ e)
    take_all (m ∷ waiting) n plays e r =
        let (n', r', plays', done, idle, same) = empty_hand n n.message plays refl r in
        let held : gossip.held n'.gossip_tx ≡ m ∷ waiting = ap gossip.held same ∙ e in
        let (rest, got) = gossip.recv_ready n'.gossip_tx m waiting held in
        let left : gossip.held rest ≡ waiting =
          let all = sym (gossip.recv_next n'.gossip_tx rest m got).0 ∙ held in cc in
        take_all waiting _ plays' left (received r' idle m rest got)

  -- What comes after `n` without another event comes after what `n` comes from.
  Reach-trans :
      {start n n' : State} {events : List (SwarmEvent N)}
      → Reached start events n
      → Reached n [] n'
      → Reached start events n'
  Reach-trans r q = Reach-after r q refl
    where
      Reach-after :
          {start n n' : State} {events later : List (SwarmEvent N)}
          → Reached start events n
          → Reached n later n'
          → later ≡ []
          → Reached start events n'
      Reach-after r here e = r
      Reach-after r (arrives q idle v) e = arrives (Reach-after r q e) idle v
      Reach-after r (handled {events = es} q v taken ready) e = absurd (append_cons es v e)
      Reach-after r (received q idle m rest got) e = received (Reach-after r q e) idle m rest got
      Reach-after r (relayed q m taken ready) e = relayed (Reach-after r q e) m taken ready
      Reach-after r (pushed q bytes rest got went) e =
          pushed (Reach-after r q e) bytes rest got went

  -- From every reachable state of a listener's node that started fresh, where the appsrc accepts what it is given
  -- now and goes on so as it is given more, the node can go on from there, without another event, to a
  -- state where nothing waits: then the audio of the messages that the events so far brought is what
  -- the appsrc was given, in order and nothing else, and the title is the last one of them, or the
  -- first.
  pub Reach-played :
      {start n : State} {events : List (SwarmEvent N)} (playing : P.Src → Type 0)
      → IsPlaying G P with_size playing
      → IsFresh N M A gossip audio G P with_size streamer start
      → Reached start events n
      → playing n.src
      → (n' : State) × (messages : List Message) × Reached n [] n'
        × (gossip.held n'.gossip_tx ≡ [])
        × (n'.message ≡ none)
        × (audio.held n'.bridge.app_src_tx ≡ [])
        × Delivers N M streamer events messages
        × (P.pushed n'.src ≡ audio_packets messages)
        × (n'.bridge.title ≡ last_title start.bridge.title messages)
  Reach-played {start = start} {n = n} playing willing fresh r plays =
      let (n', q, plays', done, idle, emptied) =
        take_all playing willing (gossip.held n.gossip_tx) n plays refl here in
      let f =
        Reach-ListenerFlows N M A gossip audio G P with_size streamer fresh (Reach-trans r q) in
      let all : f.messages ≡ f.relayed =
        f.message_flow
        ∙ ap (◌++◌ f.relayed) (ap (λ h. in_hand h ++ gossip.held n'.gossip_tx) idle ∙ emptied)
        ∙ append-nil f.relayed in
      (
        n',
        f.messages,
        q,
        emptied,
        idle,
        done,
        f.delivers,
        sym (
            ap audio_packets all
            ∙ f.audio_flow
            ∙ ap (◌++◌ (P.pushed n'.src)) done
            ∙ append-nil (P.pushed n'.src)),
        f.title_eq ∙ ap (last_title start.bridge.title) (sym all),
      )
