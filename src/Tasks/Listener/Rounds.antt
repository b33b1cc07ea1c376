-- ===== src/Tasks/Listener/Rounds.antt =====
-- The rounds of the bridge of src/rpc/mod.rs one by one: what each leaves in the decoder's channel and
-- in the title.
use p2pradio.Prelude.{
  ℕ, ◌≤◌, ◌≡◌, refl, ap, sym, ◌∙◌, false, some, ◌⊎◌, List, [], ◌∷◌, ◌++◌, inl, inr, length,
  eq_nil_of_append,
}
use p2pradio.Errors.{Foreign}
use p2pradio.Channel.{Mpsc, Bounded, HasRoom}
use p2pradio.Channel.Room.{Put, Put-none, Put-one}
use p2pradio.Codec.{Message, audio_packet, metadata}
use p2pradio.Bridge.{Bridge, step}
use p2pradio.Bridge.Relay.{audio_packets, last_title, step-audio}
use p2pradio.Tasks.Listener.{audio_capacity}

pub audio_packets-append :
    (ms : List Message) (m : Message)
    → audio_packets (ms ++ m ∷ []) ≡ audio_packets ms ++ audio_packets (m ∷ [])
audio_packets-append [] m = refl
audio_packets-append (audio_packet bytes ∷ ms) m = ap (◌∷◌ bytes) (audio_packets-append ms m)
audio_packets-append (metadata d ∷ ms) m = audio_packets-append ms m

pub last_title-append :
    (title : List ℕ) (ms : List Message) (m : Message)
    → last_title title (ms ++ m ∷ []) ≡ last_title (last_title title ms) (m ∷ [])
last_title-append title [] m = refl
last_title-append title (audio_packet bytes ∷ ms) m = last_title-append title ms m
last_title-append title (metadata d ∷ ms) m = last_title-append d.title ms m

module _ (F : Foreign) (A : Mpsc (List ℕ)) (audio : Bounded A audio_capacity) where
  pub step-title :
      (m : Message) (b : Bridge A)
      → A.is_closed b.app_src_tx ≡ false
      → (step A (some m) b).title ≡ last_title b.title (m ∷ [])
  step-title (audio_packet bytes) b opened = (step-audio F A bytes b opened).2
  step-title (metadata d) b opened = unfold step in refl

  pub step-Put :
      (m : Message) (b : Bridge A)
      → A.is_closed b.app_src_tx ≡ false
      → length (audio.held b.app_src_tx) ≤ audio_capacity
      → HasRoom audio b.app_src_tx ⊎ ((step A (some m) b).app_src_tx ≡ b.app_src_tx)
      → Put audio b.app_src_tx (step A (some m) b).app_src_tx (audio_packets (m ∷ []))
  unfolding step
  step-Put (metadata d) b opened fits ready = Put-none audio b.app_src_tx opened fits
  step-Put (audio_packet bytes) b opened fits (inl room) =
      let (c', accepted, put) = Put-one audio b.app_src_tx opened room bytes in
      rw (accepted, step) put
  step-Put (audio_packet bytes) b opened fits (inr same) =
      let one = step-audio F A bytes b opened in
      let no : bytes ∷ [] ≡ [] =
        eq_nil_of_append (A.sent b.app_src_tx) (bytes ∷ []) (sym one.0 ∙ ap A.sent same) in
      cc
