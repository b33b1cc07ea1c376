-- ===== src/Tasks/Streamer/Drain.antt =====
-- A streamer's node does not get stuck: what has come in can go out.
use Prim.Native.String.{String}
use p2pradio.Prelude.{
  inl, ℕ, ◌≡◌, refl, ap, sym, ◌∙◌, Option, none, some, List, [], ◌∷◌, ◌++◌, map, map-append,
  append_assoc, append-nil, length, arith,
}
use p2pradio.Errors.{Foreign}
use p2pradio.Network.{Network}
use p2pradio.Channel.{Mpsc, Bounded, HasRoom}
use p2pradio.Codec.{Message, encode}
use p2pradio.Ogg.{Sample}
use p2pradio.Encoder.{Input}
use p2pradio.Encoder.Loops.{messages, readable}
use p2pradio.Tasks.Streamer.{
  sink_capacity, gossip_pub_capacity, Node, Reach, here, buffered, sent, offered, taken,
}
use p2pradio.Tasks.Streamer.Rounds.{buffers}
use p2pradio.Tasks.Streamer.Flow.{
  in_hand, IsFresh, fresh-IsOpen, Reach-Runs, Reach-Flows, Reach-FreshFlows,
}
use p2pradio.Swarm.{StreamerInput}
use p2pradio.Swarm.Streamer
use p2pradio.Swarm.Streamer.{accepted}

module _ {F : Foreign} (N : Network F) (S : Mpsc (List ℕ)) (M : Mpsc Message)
    (sink : Bounded S sink_capacity) (gossip : Bounded M gossip_pub_capacity)
    (to_string : Message → String) (topic : N.Topic) where
  abbrev State : Type 0
  State = Node N S M sink gossip to_string topic

  abbrev Reached : State → List (Option Sample) → List Input → State → Type 0
  Reached = Reach N S M sink gossip to_string topic

  abbrev tasks :
      {start n : State} {samples : List (Option Sample)} {inputs : List Input}
      → Reached start samples inputs n
      → List (StreamerInput N)
  tasks r = taken N S M sink gossip to_string topic r

  -- The swarm's loop can take all that waits for it.
  offer_all :
      {start : State} {samples : List (Option Sample)} {inputs : List Input}
      (waiting : List Message) (n : State)
      → gossip.held n.gossip_tx ≡ waiting
      → Reached start samples inputs n
      → (n' : State) × Reached start samples inputs n'
        × (gossip.held n'.gossip_tx ≡ [])
        × (n'.hand ≡ n.hand)
        × (n'.sink_tx ≡ n.sink_tx)
  offer_all [] n e r = (n, r, e, refl, refl)
  offer_all (m ∷ waiting) n e r =
      let (rest, got) = gossip.recv_ready n.gossip_tx m waiting e in
      let left : gossip.held rest ≡ waiting =
        let all = sym (gossip.recv_next n.gossip_tx rest m got).0 ∙ e in cc in
      offer_all waiting _ left (offered r m rest got)

  -- `msg_loop` can finish its round, and what it sends can be taken.
  empty_hand :
      {start : State} {samples : List (Option Sample)} {inputs : List Input} (n : State)
      (hand : Option Input)
      → n.hand ≡ hand
      → Reached start samples inputs n
      → (n' : State) × Reached start samples inputs n'
        × (gossip.held n'.gossip_tx ≡ [])
        × (n'.hand ≡ none)
        × (n'.sink_tx ≡ n.sink_tx)
  empty_hand n none e r =
      let (n', r', done, same, sink_same) = offer_all (gossip.held n.gossip_tx) n refl r in
      (n', r', done, same ∙ e, sink_same)
  empty_hand n (some i) e r =
      let (n', r', done, same, sink_same) = offer_all (gossip.held n.gossip_tx) n refl r in
      let room : HasRoom gossip n'.gossip_tx = omega (arith, ap length done) in
      let (n'', r'', done', same', sink_same') =
        offer_all _ _ refl (sent r' i (same ∙ e) (inl room)) in
      (n'', r'', done', same', sink_same' ∙ sink_same)

  -- `msg_loop` can take all the buffers that wait for it.
  take_all :
      {start : State} {samples : List (Option Sample)} (waiting : List (List ℕ))
      {inputs : List Input} (n : State)
      → sink.held n.sink_tx ≡ waiting
      → Reached start samples inputs n
      → (inputs' : List Input) × (n' : State) × Reached start samples inputs' n'
        × (gossip.held n'.gossip_tx ≡ [])
        × (n'.hand ≡ none)
        × (sink.held n'.sink_tx ≡ [])
  take_all [] {inputs = inputs} n e r =
      let (n', r', done, idle, same) = empty_hand n n.hand refl r in
      (inputs, n', r', done, idle, ap sink.held same ∙ e)
  take_all (buf ∷ waiting) n e r =
      let (n', r', done, idle, same) = empty_hand n n.hand refl r in
      let held : sink.held n'.sink_tx ≡ buf ∷ waiting = ap sink.held same ∙ e in
      let (rest, got) = sink.recv_ready n'.sink_tx buf waiting held in
      let left : sink.held rest ≡ waiting =
        let all = sym (sink.recv_next n'.sink_tx rest buf got).0 ∙ held in cc in
      take_all waiting _ left (buffered r' idle buf rest got)

  -- From every reachable state of a streamer's node that started fresh, the node can go on from there, without
  -- another sample, to a state where nothing waits and nothing is in hand: then every buffer of the
  -- samples has been taken by `msg_loop`, before or after, in order; the messages of all that it took
  -- were taken by the swarm's loop to be published, in order and nothing else; and the encodings of
  -- just those that gossipsub accepted are published, in order and nothing else.
  pub Reach-drained :
      {start n : State} {samples : List (Option Sample)} {inputs : List Input}
      → IsFresh N S M sink gossip to_string topic start
      → (r : Reached start samples inputs n)
      → (more : List Input) × (n' : State) × (q : Reached n [] more n') × (sink.held n'.sink_tx
          ≡ [])
        × (n'.hand ≡ none)
        × (gossip.held n'.gossip_tx ≡ [])
        × (readable S samples ≡ buffers inputs ++ buffers more)
        × (messages F M to_string inputs ++ messages F M to_string more
            ≡ Streamer.offered N (tasks r) ++ Streamer.offered N (tasks q))
        × (N.published n'.swarm.gossipsub
            ≡ map encode
                (accepted N topic (tasks r) start.swarm ++ accepted N topic (tasks q) n.swarm))
  Reach-drained {start = start} {n = n} {inputs = inputs} fresh r =
      let (more, n', q, done, idle, emptied) = take_all (sink.held n.sink_tx) n refl here in
      let opened =
        (Reach-Runs N S M sink gossip to_string topic
          (fresh-IsOpen N S M sink gossip to_string topic start fresh) r).still in
      let f = Reach-FreshFlows N S M sink gossip to_string topic fresh r in
      let g = Reach-Flows N S M sink gossip to_string topic opened q in
      let in_hand = in_hand N S M sink gossip to_string topic in
      let before = Streamer.offered N (tasks r) in
      let after = Streamer.offered N (tasks q) in
      let left = gossip.held n.gossip_tx ++ in_hand n.hand in
      let programme = messages F M to_string more in
      let earlier = accepted N topic (tasks r) start.swarm in
      let later = accepted N topic (tasks q) n.swarm in
      (
        more,
        n',
        q,
        emptied,
        idle,
        done,
        f.sink_flow
            ∙ ap (◌++◌ (buffers inputs)) (
                sym (append-nil (sink.held n.sink_tx))
                ∙ g.sink_flow
                ∙ ap (◌++◌ (buffers more)) emptied
                ∙ append-nil (buffers more)),
        ap (λ l. l ++ programme) f.gossip_flow
            ∙ append_assoc before left programme
            ∙ ap (◌++◌ before) (
                g.gossip_flow
                ∙ ap (◌++◌ after) (ap (λ l. l ++ in_hand n'.hand) done ∙ ap in_hand idle)
                ∙ append-nil after),
        g.published
            ∙ ap (λ l. l ++ map encode later) f.published
            ∙ sym (map-append encode earlier later),
      )
