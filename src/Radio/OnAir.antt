-- ===== src/Radio/OnAir.antt =====
-- From the streamer's encoding backend to the listener's decoding backend: `msg_loop` of
-- src/backend/mod.rs, both swarm loops of src/p2p/swarm.rs and the bridge of src/rpc/mod.rs.
use p2pradio.Prelude.{ℕ, ◌≡◌, ap, ◌∙◌, false, none, List, [], ◌++◌, All, map}
use Prim.Native.String.{String}
use p2pradio.Errors.{Foreign}
use p2pradio.Network.{Network}
use p2pradio.Channel.{Mpsc}
use p2pradio.Codec.{Message, encode, IsMessage}
use p2pradio.Codec.RoundTrip.{map-encode-injective}
use p2pradio.Swarm.{Swarm, StreamerInput, run_streamer, run_listener}
use p2pradio.Swarm.Forward.{events}
use p2pradio.Swarm.Streamer.{offered, accepted, run_streamer-published}
use p2pradio.Encoder.{Input, msg_loop}
use p2pradio.Encoder.Loops.{messages, msg_loop_lem}
use p2pradio.Bridge.{Bridge, run}
use p2pradio.Bridge.Relay.{arriving, audio_packets, last_title}
use p2pradio.Radio.{Direct, arrivals, contents, streamer_to_decoder}

module _ {F : Foreign} (N : Network F) (M : Mpsc Message) (A : Mpsc (List ℕ)) where
  module _ (to_string : Message → String) (inputs : List Input) (tx : M.Chan)
      (tasks : List (StreamerInput N)) (from : Swarm N) (topic : N.Topic) where
    abbrev pub encoded : M.Chan
    encoded = (msg_loop F M to_string inputs tx).0

    abbrev pub published : List (List ℕ)
    published = N.published (run_streamer N tasks from topic).0.gossipsub

    published_lem :
        M.is_closed tx ≡ false
        → M.sent tx ≡ []
        → accepted N topic tasks from ≡ offered N tasks
        → offered N tasks ≡ M.sent encoded
        → N.published from.gossipsub ≡ []
        → published ≡ map encode (messages F M to_string inputs)
    published_lem opened fresh accepts taken silent =
        (run_streamer-published N tasks from topic).0
        ∙ ap (λ l. l ++ map encode (accepted N topic tasks from)) silent
        ∙ ap (map encode) accepts
        ∙ ap (map encode) (
            taken
            ∙ (msg_loop_lem F M to_string inputs tx opened).0
            ∙ ap (λ l. l ++ messages F M to_string inputs) fresh)

    -- Where the channels are open and new, the streamer's swarm takes what the encoder sent, gossipsub
    -- accepts it, and the network brings a listener just what was published, from the streamer itself,
    -- in order: every buffer of the encoder reaches the listener's decoder, in order and nothing else,
    -- and the listener shows the last title.
    pub on_air :
        (streamer : N.PeerId) (ds : List (Direct N M A)) (s : Swarm N × M.Chan) (b : Bridge A)
        → M.is_closed tx ≡ false
        → M.sent tx ≡ []
        → accepted N topic tasks from ≡ offered N tasks
        → offered N tasks ≡ M.sent encoded
        → N.published from.gossipsub ≡ []
        → map encode (contents N M A ds) ≡ published
        → All IsMessage (messages F M to_string inputs)
        → All IsMessage (contents N M A ds)
        → M.is_closed s.1 ≡ false
        → M.sent s.1 ≡ []
        → A.is_closed b.app_src_tx ≡ false
        → let got =
            (run_listener N M (events N M streamer (arrivals N M A streamer ds)) s streamer).0.1 in
          let programme = messages F M to_string inputs in
          (b' : Bridge A) × (run A F (arriving (M.sent got) []) b ≡ (b', none))
          × (A.sent b'.app_src_tx ≡ A.sent b.app_src_tx ++ audio_packets programme)
          × (b'.title ≡ last_title b.title programme)
    on_air streamer ds s b opened fresh accepts taken silent arrived well well' ready unused
          waiting =
        let programme = messages F M to_string inputs in
        let same : contents N M A ds ≡ programme =
          map-encode-injective (contents N M A ds) programme well' well
            (arrived ∙ published_lem opened fresh accepts taken silent) in
        let (b', runs, log, title) =
          streamer_to_decoder N M A streamer ds s b well' ready unused waiting in
        (
          b',
          runs,
          log ∙ ap (λ ms. A.sent b.app_src_tx ++ audio_packets ms) same,
          title ∙ ap (last_title b.title) same,
        )
