-- ===== src/Encoder/Loops.antt =====
-- What the loops of the encoding backend do: src/backend/mod.rs and src/backend/icecast_ogg.rs.
use p2pradio.Prelude.{
  Result-cases, ℕ, Bool, true, false, ◌≡◌, inl, inr, Bool-cases, refl, ap, sym, ◌∙◌, Option, none,
  some, List, [], ◌∷◌, ◌++◌, Result, ok, err, map, map_err, append-nil, append_assoc, if◌then◌else◌,
}
use Prim.Native.String.{String}
use p2pradio.Errors.{Foreign, AppError}
use p2pradio.Channel.{Mpsc}
use p2pradio.Codec.{Message, audio_packet, metadata}
use p2pradio.Ogg.{Sample, read_sample}
use p2pradio.Encoder.{
  Gst, State, playing, null, MessageView, eos, error, tag, set_state, send_title, process_message,
  BusInput, bus, cancelled, bus_loop, state_change, main_loop, sink_sample, sink_samples, Input,
  buffer, changed, closed, send_or_other, msg_loop,
}

-- the titles among tags
abbrev pub titles_before : {G : Gst} → List (BusInput G) → List (List ℕ)
titles_before [] = []
titles_before (cancelled ∷ inputs) = []
titles_before (bus eos ∷ inputs) = []
titles_before (bus (error path e debug) ∷ inputs) = []
titles_before (bus (tag (some title)) ∷ inputs) = title ∷ titles_before inputs
titles_before (bus (tag none) ∷ inputs) = titles_before inputs
titles_before (bus MessageView.other ∷ inputs) = titles_before inputs

-- whether a loop is left: at the end of the stream, an error or a cancellation
abbrev pub is_left : {G : Gst} → List (BusInput G) → Bool
is_left [] = false
is_left (cancelled ∷ inputs) = true
is_left (bus eos ∷ inputs) = true
is_left (bus (error path e debug) ∷ inputs) = true
is_left (bus (tag title) ∷ inputs) = is_left inputs
is_left (bus MessageView.other ∷ inputs) = is_left inputs

module _ (G : Gst) where
  bus_loop_lem :
      (inputs : List (BusInput G))
      → bus_loop G inputs ≡ (map send_title (titles_before inputs), is_left inputs)
  unfolding bus_loop process_message
  bus_loop_lem [] = refl
  bus_loop_lem (cancelled ∷ inputs) = refl
  bus_loop_lem (bus eos ∷ inputs) = refl
  bus_loop_lem (bus (error path e debug) ∷ inputs) = refl
  bus_loop_lem (bus (tag (some title)) ∷ inputs) = rw (bus_loop_lem inputs) refl
  bus_loop_lem (bus (tag none) ∷ inputs) = bus_loop_lem inputs
  bus_loop_lem (bus MessageView.other ∷ inputs) = bus_loop_lem inputs

  -- When the pipeline starts, the loop sends on the titles of the tags before the first end of stream,
  -- error or cancellation, in their order; the pipeline is set to `Null` exactly when one of these
  -- has come, whichever it was, and the loop's result is then that of this change of state.
  pub main_loop_lem :
      (set : State → Result (Unit {0}) G.StateChangeError) (inputs : List (BusInput G))
      → set playing ≡ ok tt
      → main_loop G set inputs ≡ (
        set_state playing
            ∷ (map send_title (titles_before inputs)
                ++ (if is_left inputs then set_state null ∷ [] else [])),
        (if is_left inputs then some (map_err state_change (set null)) else none),
      )
  unfolding main_loop
  main_loop_lem set inputs h = elim (Bool-cases (is_left inputs)) [
    | inl p ↦ rw (h, main_loop) (rw (bus_loop_lem inputs, p, bus_loop_lem inputs) refl)
    | inr p ↦
        rw (h, main_loop)
          (rw (bus_loop_lem inputs, p, bus_loop_lem inputs)
            (rw (append-nil (map send_title (titles_before inputs))) refl))
  ]

module _ (Q : Mpsc (List ℕ)) where
  -- the bytes of the samples that can be read
  abbrev pub readable : List (Option Sample) → List (List ℕ)
  readable [] = []
  readable (s ∷ samples) =
      let rest = readable samples in elim (read_sample s) [ err e ↦ rest | ok p ↦ p.0 ∷ rest ]

  -- While the queue is open, the sink's callback puts the bytes of every sample that can be read into
  -- it, in their order, and nothing for the other samples.
  pub sink_samples_lem :
      (samples : List (Option Sample)) (tx : Q.Chan)
      → Q.is_closed tx ≡ false
      → (Q.sent (sink_samples Q samples tx) ≡ Q.sent tx ++ readable samples)
        × (Q.is_closed (sink_samples Q samples tx) ≡ false)
  unfolding sink_samples sink_sample
  sink_samples_lem [] tx h = (sym (append-nil _), h)
  sink_samples_lem (s ∷ samples) tx h = elim (Result-cases (read_sample s)) [
    | inl (p, e) ↦
        let (tx', sent, log, still) = Q.send_open p.0 tx h in
        let (all, opened) = sink_samples_lem samples tx' still in
        rw (e, sink_samples, sink_sample, readable)
          (rw (sent, sink_samples, sink_sample)
            (
              all
                  ∙ ap (λ l. l ++ readable samples) log
                  ∙ append_assoc (Q.sent tx) (p.0 ∷ []) (readable samples),
              opened,
            ))
    | inr (x, e) ↦ rw (e, sink_samples, sink_sample, readable) (sink_samples_lem samples tx h)
  ]

module _ (F : Foreign) (M : Mpsc Message) (to_string : Message → String) where
  -- the messages for the inputs before the loop is closed
  abbrev pub messages : List Input → List Message
  messages [] = []
  messages (closed ∷ inputs) = []
  messages (buffer buf ∷ inputs) = audio_packet buf ∷ messages inputs
  messages (changed none ∷ inputs) = messages inputs
  messages (changed (some title) ∷ inputs) = metadata (record { title = title }) ∷ messages inputs

  abbrev pub is_over : List Input → Bool
  is_over [] = false
  is_over (closed ∷ inputs) = true
  is_over (buffer buf ∷ inputs) = is_over inputs
  is_over (changed title ∷ inputs) = is_over inputs

  abbrev pub Sends : List Input → M.Chan → M.Chan × Option (Result (Unit {0}) (AppError F)) → Type 0
  Sends inputs tx after =
      (M.sent after.0 ≡ M.sent tx ++ messages inputs)
      × (M.is_closed after.0 ≡ false)
      × (after.1 ≡ (if is_over inputs then some (ok tt) else none))

  -- While the gossip channel is open, the loop sends a packet for each buffer and metadata for each
  -- title, in the order in which it takes them, and nothing for a change to no title; it ends exactly
  -- when both sources are gone, and then without an error.
  pub msg_loop_lem :
      (inputs : List Input) (tx : M.Chan)
      → M.is_closed tx ≡ false
      → Sends inputs tx (msg_loop F M to_string inputs tx)
  unfolding msg_loop send_or_other
  msg_loop_lem [] tx h = (sym (append-nil _), h, refl)
  msg_loop_lem (closed ∷ inputs) tx h = (sym (append-nil _), h, refl)
  msg_loop_lem (changed none ∷ inputs) tx h = msg_loop_lem inputs tx h
  msg_loop_lem (buffer buf ∷ inputs) tx h =
      let (tx', sent, log, still) = M.send_open (audio_packet buf) tx h in
      let (all, opened, over) = msg_loop_lem inputs tx' still in
      rw (sent, send_or_other, msg_loop)
        (
          all
              ∙ ap (λ l. l ++ messages inputs) log
              ∙ append_assoc (M.sent tx) (audio_packet buf ∷ []) (messages inputs),
          opened,
          over,
        )
  msg_loop_lem (changed (some title) ∷ inputs) tx h =
      let m = metadata (record { title = title }) in
      let (tx', sent, log, still) = M.send_open m tx h in
      let (all, opened, over) = msg_loop_lem inputs tx' still in
      rw (sent, send_or_other, msg_loop)
        (
          all
              ∙ ap (λ l. l ++ messages inputs) log
              ∙ append_assoc (M.sent tx) (m ∷ []) (messages inputs),
          opened,
          over,
        )

  -- what is left of a loop that cannot send: it fails on the first message
  abbrev pub failure : List Message → Bool → Option (Result (Unit {0}) (AppError F))
  failure [] over = if over then some (ok tt) else none
  failure (m ∷ ms) over = some (err (AppError.other (to_string m)))

  -- Once the gossip channel is closed, the loop fails on the first message that it has to send, sends
  -- nothing more, and leaves the channel as it is.
  pub msg_loop-closed :
      (inputs : List Input) (tx : M.Chan)
      → M.is_closed tx ≡ true
      → msg_loop F M to_string inputs tx ≡ (tx, failure (messages inputs) (is_over inputs))
  unfolding msg_loop send_or_other
  msg_loop-closed [] tx h = refl
  msg_loop-closed (closed ∷ inputs) tx h = refl
  msg_loop-closed (changed none ∷ inputs) tx h = msg_loop-closed inputs tx h
  msg_loop-closed (buffer buf ∷ inputs) tx h =
      rw (M.send_closed (audio_packet buf) tx h, send_or_other, msg_loop) refl
  msg_loop-closed (changed (some title) ∷ inputs) tx h =
      rw (M.send_closed (metadata (record { title = title })) tx h, send_or_other, msg_loop) refl

-- tags, and then whatever else
abbrev pub tagged : {G : Gst} → List (Option (List ℕ)) → List (BusInput G) → List (BusInput G)
tagged [] rest = rest
tagged (title ∷ titles) rest = bus (tag title) ∷ tagged titles rest

is_left-tagged :
    {G : Gst} (titles : List (Option (List ℕ))) (rest : List (BusInput G))
    → is_left (tagged titles rest) ≡ is_left rest
is_left-tagged [] rest = refl
is_left-tagged (title ∷ titles) rest = is_left-tagged titles rest
