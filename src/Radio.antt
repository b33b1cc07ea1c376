-- ===== src/Radio.antt =====
-- From the streamer's messages to the listener's decoder: the codec of src/p2p/codec.rs, the swarm's
-- loop of src/p2p/swarm.rs and the bridge of src/rpc/mod.rs, one after the other. What the swarm sent
-- on is what the bridge receives, since a channel of tokio keeps the order.
pub mod OnAir
mod Tests
use p2pradio.Prelude.{
  ok, ℕ, ok, subst, ◌≡◌, refl, ap, sym, ◌∙◌, false, Option, none, some, List, [], ◌∷◌, ◌++◌, All,
  append-nil,
}
use p2pradio.Errors.{Foreign}
use p2pradio.Network.{Network}
use p2pradio.Channel.{Mpsc}
use p2pradio.Codec.{Message, encode, decode, IsMessage}
use p2pradio.Codec.RoundTrip.{encode-injective, decode-encode}
use p2pradio.Swarm.{Swarm, GossipMessage, SwarmEvent, behaviour, gossipsub, message, run_listener}
use p2pradio.Swarm.Forward.{
  Delivers, Carries, carries, take, skip, nil, events, run_listener-Delivers,
}
use p2pradio.Bridge.{Bridge, run}
use p2pradio.Bridge.Relay.{arriving, audio_packets, last_title, run-arriving, run-nil}

module _ {F : Foreign} (N : Network F) (M : Mpsc Message) (A : Mpsc (List ℕ)) where
  -- a message as it arrives straight from the streamer
  pub record Direct : Type 0 where
    pub content : Message
    pub id : N.MessageId
    pub author : Option N.PeerId
    pub seq_no : ℕ
    pub topic : N.Topic

  abbrev pub arrival : N.PeerId → Direct → SwarmEvent N
  arrival streamer d = behaviour (
      gossipsub (
        message streamer d.id (record {
          source = d.author;
          content = encode d.content;
          sequence_number = some d.seq_no;
          topic = d.topic;
        })))

  abbrev pub arrivals : N.PeerId → List Direct → List (SwarmEvent N)
  arrivals streamer [] = []
  arrivals streamer (d ∷ ds) = arrival streamer d ∷ arrivals streamer ds

  abbrev pub contents : List Direct → List Message
  contents [] = []
  contents (d ∷ ds) = d.content ∷ contents ds

  same_message :
      (streamer : N.PeerId) (d : Direct) (m : Message)
      → IsMessage d.content
      → Carries N M streamer (arrival streamer d) m
      → m ≡ d.content
  same_message streamer d m h (carries id msg seq_no p q r t) =
      encode-injective m d.content r h (sym t ∙ cc)

  carried :
      (streamer : N.PeerId) (d : Direct)
      → IsMessage d.content
      → Carries N M streamer (arrival streamer d) d.content
  carried streamer d h = carries d.id _ d.seq_no refl refl h refl

  Delivers-arrivals :
      (streamer : N.PeerId) (ds : List Direct) (es : List (SwarmEvent N)) (ms : List Message)
      → All IsMessage (contents ds)
      → es ≡ arrivals streamer ds
      → Delivers N M streamer es ms
      → ms ≡ contents ds
  Delivers-arrivals streamer [] es ms h p nil = refl
  Delivers-arrivals streamer [] es ms h p (take c d) = cc
  Delivers-arrivals streamer [] es ms h p (skip c d) = cc
  Delivers-arrivals streamer (x ∷ ds) es ms h p nil = cc
  Delivers-arrivals streamer (x ∷ ds) es ms h p (take {e = e} {es = es'} {m = m} {ms = ms'} c d) =
      let first : e ≡ arrival streamer x = cc in
      let rest : es' ≡ arrivals streamer ds = cc in
      let same = same_message streamer x m h.0 (subst (λ v. Carries N M streamer v m) first c) in
      ap (λ l. m ∷ l) (Delivers-arrivals streamer ds es' ms' h.1 rest d)
      ∙ ap (λ v. v ∷ contents ds) same
  Delivers-arrivals streamer (x ∷ ds) es ms h p (skip {e = e} c d) =
      let first : e ≡ arrival streamer x = cc in
      absurd (
        c x.content
          (subst (λ v. Carries N M streamer v x.content) (sym first) (carried streamer x h.0)))

  -- Messages that arrive from the streamer itself, numbered and in the wire format, are what the
  -- swarm's loop puts on a fresh channel; the bridge that reads that channel hands their audio to the
  -- decoder in order, ends with their last title, and still runs.
  pub streamer_to_decoder :
      (streamer : N.PeerId) (ds : List Direct) (s : Swarm N × M.Chan) (b : Bridge A)
      → All IsMessage (contents ds)
      → M.is_closed s.1 ≡ false
      → M.sent s.1 ≡ []
      → A.is_closed b.app_src_tx ≡ false
      → let tx = (run_listener N M (events N M streamer (arrivals streamer ds)) s streamer).0.1 in
        (b' : Bridge A) × (run A F (arriving (M.sent tx) []) b ≡ (b', none))
        × (A.sent b'.app_src_tx ≡ A.sent b.app_src_tx ++ audio_packets (contents ds))
        × (b'.title ≡ last_title b.title (contents ds))
  streamer_to_decoder streamer ds s b h opened fresh ready =
      let (ms, delivers, all, more) =
        run_listener-Delivers N M streamer (arrivals streamer ds) s opened in
      let same = Delivers-arrivals streamer ds _ ms h refl delivers in
      let tx = (run_listener N M (events N M streamer (arrivals streamer ds)) s streamer).0.1 in
      let sent : M.sent tx ≡ contents ds = all ∙ ap (λ l. l ++ ms) fresh ∙ same in
      let (b', runs, log, still, title) = run-arriving F A (contents ds) [] b ready in
      (b', ap (λ l. run A F (arriving l []) b) sent ∙ runs ∙ run-nil F A b', log, title)
