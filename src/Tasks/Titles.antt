-- ===== src/Tasks/Titles.antt =====
-- The title of a streamer's node while it runs: `main_loop` of src/backend/icecast_ogg.rs puts the titles
-- of the stream's tags into a watch channel, and `msg_loop` of src/backend/mod.rs takes what is there
-- when it gets to it. So a run of Tasks/Streamer.antt takes a title only from this channel.
use Prim.Native.String.{String}
use p2pradio.Prelude.{ℕ, ◌≡◌, ◌⊎◌, true, false, Option, none, some, List, [], ◌∷◌, ◌++◌}
use p2pradio.Errors.{Foreign}
use p2pradio.Network.{Network}
use p2pradio.Channel.{Mpsc, Bounded, HasRoom, Watch}
use p2pradio.Codec.{Message}
use p2pradio.Ogg.{Sample}
use p2pradio.Encoder.{Gst, Input, Effect, set_state, send_title, BusInput, bus_loop}
use p2pradio.Encoder.Loops.{is_left}
use p2pradio.Swarm.{SwarmEvent}
use p2pradio.Tasks.Streamer.{sink_capacity, gossip_pub_capacity}
use p2pradio.Tasks.Streamer

module _ {F : Foreign} (N : Network F) (S : Mpsc (List ℕ)) (M : Mpsc Message)
    (sink : Bounded S sink_capacity) (gossip : Bounded M gossip_pub_capacity)
    (to_string : Message → String) (topic : N.Topic) (G : Gst) (W : Watch (Option (List ℕ))) where
  -- `title_tx.send(Some(title))`
  abbrev pub apply : List (Effect G) → W.Chan → W.Chan
  apply [] w = w
  apply (set_state s ∷ effects) w = apply effects w
  apply (send_title title ∷ effects) w = apply effects (W.send (some title) w)

  -- one round of `main_loop`
  abbrev pub bus_round : BusInput G → W.Chan → W.Chan
  bus_round i w = apply (bus_loop G (i ∷ [])).0 w

  abbrev Reach :
      Streamer.Node N S M sink gossip to_string topic
      → List (Option Sample)
      → List Input
      → Streamer.Node N S M sink gossip to_string topic
      → Type 0
  Reach = Streamer.Reach N S M sink gossip to_string topic

  -- A run of the node's tasks together with the rounds of `main_loop`, as long as it is not left: what
  -- the bus brought, and the watch channel, which was made empty.
  pub data Watched {start : Streamer.Node N S M sink gossip to_string topic}
      : List (BusInput G)
        → W.Chan
        → (samples : List (Option Sample)) (inputs : List Input)
          (n : Streamer.Node N S M sink gossip to_string topic)
        → Reach start samples inputs n
        → Type 0 where
    here : Watched [] (W.channel none) _ _ _ Streamer.here
    bus_read :
        {brought : List (BusInput G)} {w : W.Chan} {samples : List (Option Sample)}
        {inputs : List Input} {n : Streamer.Node N S M sink gossip to_string topic}
        {r : Reach start samples inputs n}
        → Watched brought w samples inputs n r
        → is_left brought ≡ false
        → (i : BusInput G) → Watched (brought ++ i ∷ []) (bus_round i w) samples inputs n r
    -- `title_rx.changed()` is ready, and `borrow_and_update` returns the title
    titled :
        {brought : List (BusInput G)} {w : W.Chan} {samples : List (Option Sample)}
        {inputs : List Input} {n : Streamer.Node N S M sink gossip to_string topic}
        {r : Reach start samples inputs n}
        → Watched brought w samples inputs n r
        → W.has_changed w ≡ true
        → (idle : n.hand ≡ none)
        → Watched brought
            (W.borrow_and_update w).1
            _
            _
            _
            (Streamer.titled r idle (W.borrow_and_update w).0)
    sampled :
        {brought : List (BusInput G)} {w : W.Chan} {samples : List (Option Sample)}
        {inputs : List Input} {n : Streamer.Node N S M sink gossip to_string topic}
        {r : Reach start samples inputs n}
        → Watched brought w samples inputs n r
        → (room : HasRoom sink n.sink_tx) (s : Option Sample)
        → Watched brought w _ _ _ (Streamer.sampled r room s)
    buffered :
        {brought : List (BusInput G)} {w : W.Chan} {samples : List (Option Sample)}
        {inputs : List Input} {n : Streamer.Node N S M sink gossip to_string topic}
        {r : Reach start samples inputs n}
        → Watched brought w samples inputs n r
        → (idle : n.hand ≡ none) (buf : List ℕ) (rest : S.Chan)
        → (took : sink.recv n.sink_tx ≡ some (buf, rest))
        → Watched brought w _ _ _ (Streamer.buffered r idle buf rest took)
    sent :
        {brought : List (BusInput G)} {w : W.Chan} {samples : List (Option Sample)}
        {inputs : List Input} {n : Streamer.Node N S M sink gossip to_string topic}
        {r : Reach start samples inputs n}
        → Watched brought w samples inputs n r
        → (i : Input) (holds : n.hand ≡ some i)
        → (room : HasRoom gossip n.gossip_tx
            ⊎ (Streamer.msg_round N S M sink gossip to_string topic i n.gossip_tx ≡ n.gossip_tx))
        → Watched brought w _ _ _ (Streamer.sent r i holds room)
    offered :
        {brought : List (BusInput G)} {w : W.Chan} {samples : List (Option Sample)}
        {inputs : List Input} {n : Streamer.Node N S M sink gossip to_string topic}
        {r : Reach start samples inputs n}
        → Watched brought w samples inputs n r
        → (m : Message) (rest : M.Chan) (took : gossip.recv n.gossip_tx ≡ some (m, rest))
        → Watched brought w _ _ _ (Streamer.offered r m rest took)
    network :
        {brought : List (BusInput G)} {w : W.Chan} {samples : List (Option Sample)}
        {inputs : List Input} {n : Streamer.Node N S M sink gossip to_string topic}
        {r : Reach start samples inputs n}
        → Watched brought w samples inputs n r
        → (e : SwarmEvent N) → Watched brought w _ _ _ (Streamer.network r e)
