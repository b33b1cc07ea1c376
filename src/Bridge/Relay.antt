-- ===== src/Bridge/Relay.antt =====
-- What the bridge of src/rpc/mod.rs hands on.
use p2pradio.Prelude.{
  ℕ, ◌≡◌, refl, ap, sym, ◌∙◌, false, none, some, List, [], ◌∷◌, ◌++◌, append-nil, append_assoc,
}
use p2pradio.Errors.{Foreign}
use p2pradio.Channel.{Mpsc}
use p2pradio.Codec.{Message, audio_packet, metadata}
use p2pradio.Bridge.{Input, received, Bridge, step, run}

-- the audio among the messages
abbrev pub audio_packets : List Message → List (List ℕ)
audio_packets [] = []
audio_packets (audio_packet bytes ∷ ms) = bytes ∷ audio_packets ms
audio_packets (metadata m ∷ ms) = audio_packets ms

-- the last title among the messages, or the one before
abbrev pub last_title : List ℕ → List Message → List ℕ
last_title title [] = title
last_title title (audio_packet bytes ∷ ms) = last_title title ms
last_title title (metadata m ∷ ms) = last_title m.title ms

-- the inputs in which these messages arrive, and then whatever else
abbrev pub arriving : List Message → List Input → List Input
arriving [] rest = rest
arriving (m ∷ ms) rest = received (some m) ∷ arriving ms rest

module _ (F : Foreign) (A : Mpsc (List ℕ)) where
  pub step-audio :
      (bytes : List ℕ) (b : Bridge A)
      → A.is_closed b.app_src_tx ≡ false
      → let b' = step A (some (audio_packet bytes)) b in
        (A.sent b'.app_src_tx ≡ A.sent b.app_src_tx ++ bytes ∷ [])
        × (A.is_closed b'.app_src_tx ≡ false)
        × (b'.title ≡ b.title)
  unfolding step
  step-audio bytes b h =
      let (tx, sent, log, still) = A.send_open bytes b.app_src_tx h in
      rw (sent, step) (log, still, refl)

  pub run-nil : (b : Bridge A) → run A F [] b ≡ (b, none)
  unfolding run
  run-nil b = refl

  -- Messages that arrive while the decoder's channel is open: their audio goes to the decoder in
  -- order, the title is then the last that came, if any did, and the bridge is in a state from which
  -- it runs on.
  pub run-arriving :
      (ms : List Message) (rest : List Input) (b : Bridge A)
      → A.is_closed b.app_src_tx ≡ false
      → (b' : Bridge A) × (run A F (arriving ms rest) b ≡ run A F rest b')
        × (A.sent b'.app_src_tx ≡ A.sent b.app_src_tx ++ audio_packets ms)
        × (A.is_closed b'.app_src_tx ≡ false)
        × (b'.title ≡ last_title b.title ms)
  unfolding run step
  run-arriving [] rest b h = (b, refl, sym (append-nil _), h, refl)
  run-arriving (audio_packet bytes ∷ ms) rest b h =
      let one = step-audio bytes b h in
      let (b', runs, log, still, title) =
        run-arriving ms rest (step A (some (audio_packet bytes)) b) one.1 in
      (
        b',
        runs,
        log
            ∙ ap (λ l. l ++ audio_packets ms) one.0
            ∙ append_assoc _ (bytes ∷ []) (audio_packets ms),
        still,
        title ∙ ap (λ t. last_title t ms) one.2,
      )
  run-arriving (metadata m ∷ ms) rest b h =
      let (b', runs, log, still, title) = run-arriving ms rest (record b { title = m.title }) h in
      (b', runs, log, still, title)
