-- ===== src/Decoder/Pushes.antt =====
-- What the decoding loop of src/backend/ogg_dec.rs pushes into the pipeline.
use p2pradio.Prelude.{
  ℕ, ◌≡◌, ◌⊎◌, inl, inr, refl, ap, sym, ◌∙◌, Bool, true, false, Bool-cases, Option, none, some,
  List, [], ◌∷◌, ◌++◌, Result, ok, err, map_err, Result-cases, append-nil, append_assoc,
}
use p2pradio.Encoder.{Gst, State, playing, null, MessageView, eos, error, tag, Error, state_change}
use p2pradio.Decoder.{
  AppSrc, Input, bus, packet, cancelled, process_message, new_buffer, process_bytes, run_loop,
  rounds, run_dec_stream,
}

-- the packets among the inputs
abbrev pub packets : {G : Gst} → List (Input G) → List (List ℕ)
packets [] = []
packets (bus msg ∷ inputs) = packets inputs
packets (packet bytes ∷ inputs) = bytes ∷ packets inputs
packets (cancelled ∷ inputs) = packets inputs

module _ (G : Gst) (A : AppSrc)
    (with_size : ℕ → Result (Option (Option (Unit {0}))) G.BoolError) where
  -- The packets so far went to the appsrc, the others are lost; none are while the loop runs.
  pub record Pushed (bytes : List (List ℕ)) (src src' : A.Src) (left : Bool) : Type 0 where
    pub sent : List (List ℕ)
    pub lost : List (List ℕ)
    pub split : bytes ≡ sent ++ lost
    pub log : A.pushed src' ≡ A.pushed src ++ sent
    pub running : (left ≡ true) ⊎ (lost ≡ [])

  stopped :
      (bytes : List (List ℕ)) (src src' : A.Src)
      → A.pushed src' ≡ A.pushed src
      → Pushed bytes src src' true
  stopped bytes src src' e = record {
    sent = [];
    lost = bytes;
    split = refl;
    log = e ∙ sym (append-nil _);
    running = inl refl;
  }

  -- one packet: it is pushed, or the loop is left and nothing is
  pub process_bytes_cases :
      (bytes : List ℕ) (src : A.Src)
      → (((process_bytes G A with_size bytes src).1 ≡ ok false)
          × (A.pushed (process_bytes G A with_size bytes src).0 ≡ A.pushed src ++ bytes ∷ []))
        ⊎ ((e : Error G) × ((process_bytes G A with_size bytes src).1 ≡ err e)
            × (A.pushed (process_bytes G A with_size bytes src).0 ≡ A.pushed src))
  unfolding process_bytes
  process_bytes_cases bytes src = elim (Result-cases (new_buffer G A with_size bytes)) [
    | inr (e, p) ↦ rw (p, process_bytes) (inr (e, refl, refl))
    | inl (u, p) ↦ elim (Result-cases (A.push_buffer bytes src).1) [
      | inl (v, q) ↦ rw (p, process_bytes) (rw q (inl (refl, A.push_ok bytes src v q)))
      | inr (e, q) ↦ rw (p, process_bytes) (rw q (inr (_, refl, A.push_err bytes src e q)))
    ]
  ]

  rounds-Pushed :
      (inputs : List (Input G)) (src : A.Src)
      → Pushed
          (packets inputs)
          src
          (rounds G A with_size inputs src).0
          (rounds G A with_size inputs src).1
  unfolding rounds run_loop process_message
  rounds-Pushed [] src = record {
    sent = [];
    lost = [];
    split = refl;
    log = sym (append-nil _);
    running = inr refl;
  }
  rounds-Pushed (cancelled ∷ inputs) src = stopped _ src src refl
  rounds-Pushed (bus eos ∷ inputs) src = stopped _ src src refl
  rounds-Pushed (bus (error path e debug) ∷ inputs) src = stopped _ src src refl
  rounds-Pushed (bus (tag title) ∷ inputs) src = rounds-Pushed inputs src
  rounds-Pushed (bus MessageView.other ∷ inputs) src = rounds-Pushed inputs src
  rounds-Pushed (packet bytes ∷ inputs) src = elim (process_bytes_cases bytes src) [
    | inr (e, p, same) ↦ rw (p, rounds, run_loop) (stopped _ _ _ same)
    | inl (p, log) ↦
        let after = (process_bytes G A with_size bytes src).0 in
        let r = rounds-Pushed inputs after in
        rw (p, rounds, run_loop)
          (record {
            sent = bytes ∷ r.sent;
            lost = r.lost;
            split = ap (◌∷◌ bytes) r.split;
            log =
                r.log ∙ ap (λ l. l ++ r.sent) log ∙ append_assoc (A.pushed src) (bytes ∷ []) r.sent;
            running = r.running;
          })
  ]

  -- Over any inputs, when the pipeline starts: the appsrc accepts the packets up to some point, in
  -- their order and nothing else. Either the loop still runs, and that was all of them, and the
  -- pipeline plays; or it was left, the pipeline is set to `Null`, and the result is that of this
  -- change of state.
  pub run_dec_stream-Pushed :
      (set : State → Result (Unit {0}) G.StateChangeError) (inputs : List (Input G)) (src : A.Src)
      → set playing ≡ ok tt
      → let (after, states, result) = run_dec_stream G A with_size set inputs src in
        (sent : List (List ℕ)) × (lost : List (List ℕ)) × (packets inputs ≡ sent ++ lost)
        × (A.pushed after ≡ A.pushed src ++ sent)
        × (((result ≡ none) × (states ≡ playing ∷ []) × (lost ≡ []))
            ⊎ ((result ≡ some (map_err state_change (set null))) × (states ≡ playing ∷ null ∷ [])))
  unfolding run_dec_stream
  run_dec_stream-Pushed set inputs src h =
      let p = rounds-Pushed inputs src in
      elim (Bool-cases (rounds G A with_size inputs src).1) [
        | inl left ↦
            rw (h, run_dec_stream)
              (rw (left, run_dec_stream) (p.sent, p.lost, p.split, p.log, inr (refl, refl)))
        | inr running ↦
            let whole : p.lost ≡ [] = elim p.running [ inl e ↦ cc | inr e ↦ e ] in
            rw (h, run_dec_stream)
              (rw (running, run_dec_stream)
                (p.sent, p.lost, p.split, p.log, inl (refl, refl, whole)))
      ]
