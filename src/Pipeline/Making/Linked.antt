-- ===== src/Pipeline/Making/Linked.antt =====
-- What the pipelines hold when `create_icecast_pipeline` of src/backend/icecast_ogg.rs and
-- `create_opus_pipeline` of src/backend/ogg_dec.rs have made them, and how that fails.
use Prim.Native.String.{String}
use p2pradio.Prelude.{
  ℕ, ◌≡◌, ◌⊎◌, refl, ap, sym, ◌∙◌, none, some, List, [], ◌∷◌, ◌++◌, Result, ok, err, Result-cases,
  inl, inr,
}
use p2pradio.Channel.{Mpsc}
use p2pradio.Encoder.{Gst, ready, Error, bool_error, state_change}
use p2pradio.Pipeline.Making.{
  Elements, neighbours, try_add, try_link, StreamWithPipeline, create_icecast_pipeline,
  DecStreamWithPipeline, create_opus_pipeline, new_decoding_backend,
}

module _ {G : Gst} (E : Elements G) where
  open E use {Element, Pipeline, default, make, make_source, elements, links}

  -- a step of GStreamer's that fails, and its error
  pub data IsStepError : Error G → Type 0 where
    no_element : (name : String) (x : G.BoolError) → make name ≡ err x → IsStepError (bool_error x)
    no_source :
        (url : List ℕ) (x : G.BoolError) → make_source url ≡ err x → IsStepError (bool_error x)
    not_added :
        (es : List Element) (p : Pipeline) (x : G.BoolError)
        → (E.add_many es p).1 ≡ err x
        → IsStepError (bool_error x)
    not_linked :
        (es : List Element) (p : Pipeline) (x : G.BoolError)
        → (E.link_many es p).1 ≡ err x
        → IsStepError (bool_error x)
    not_ready :
        (p : Pipeline) (x : G.StateChangeError)
        → (E.set_state ready p).1 ≡ err x
        → IsStepError (state_change x)

  try_add_lem :
      (es : List Element)
      → ((p' : Pipeline) × (try_add E es default ≡ ok p') × (elements p' ≡ es) × (links p' ≡ []))
        ⊎ ((e : Error G) × (try_add E es default ≡ err e) × IsStepError e)
  unfolding try_add
  try_add_lem es = elim (Result-cases (E.add_many es default).1) [
    | inr (x, p) ↦ inr (_, rw p refl, not_added es default x p)
    | inl (u, p) ↦ inl (
      _,
      rw p refl,
      E.add_elements es default u p ∙ ap (λ l. l ++ es) E.default_elements,
      E.add_links es default ∙ E.default_links,
    )
  ]

  try_link_lem :
      (es : List Element) (p : Pipeline)
      → links p ≡ []
      → ((p' : Pipeline) × (try_link E es p ≡ ok p')
          × (elements p' ≡ elements p)
          × (links p' ≡ neighbours es))
        ⊎ ((e : Error G) × (try_link E es p ≡ err e) × IsStepError e)
  unfolding try_link
  try_link_lem es p unlinked = elim (Result-cases (E.link_many es p).1) [
    | inr (x, q) ↦ inr (_, rw q refl, not_linked es p x q)
    | inl (u, q) ↦ inl (
      _,
      rw q refl,
      E.link_elements es p,
      E.link_links es p u q ∙ ap (λ l. l ++ neighbours es) unlinked,
    )
  ]

  -- What the encoder's pipeline is: four elements, of which only the payloader and the sink are
  -- linked, with the queue that it was given and no title.
  pub record IsSource (Q : Mpsc (List ℕ)) (bounded : Q.Chan) (url : List ℕ)
      (s : StreamWithPipeline E Q) : Type 0 where
    pub uri : Element
    pub parsebin : Element
    pub pay : Element
    pub uri_made : make_source url ≡ ok uri
    pub parsebin_made : make "parsebin" ≡ ok parsebin
    pub pay_made : make "rtpopuspay" ≡ ok pay
    pub added : elements s.pipeline ≡ uri ∷ parsebin ∷ pay ∷ E.app_sink "appsink" ∷ []
    pub joined : links s.pipeline ≡ (pay, E.app_sink "appsink") ∷ []
    pub queue : s.sink_rx ≡ bounded
    pub untitled : s.title ≡ none

  -- Either the encoder's pipeline is made, with the four elements of which only the payloader and the
  -- sink are linked, the new queue and no title; or the error is that of a step of GStreamer's.
  pub create_icecast_pipeline_lem :
      (Q : Mpsc (List ℕ)) (bounded : Q.Chan) (url : List ℕ)
      → ((s : StreamWithPipeline E Q) × (create_icecast_pipeline E Q bounded url ≡ ok s)
          × IsSource Q bounded url s)
        ⊎ ((e : Error G) × (create_icecast_pipeline E Q bounded url ≡ err e) × IsStepError e)
  unfolding create_icecast_pipeline
  create_icecast_pipeline_lem Q bounded url = elim (Result-cases (make_source url)) [
    | inr (x, a) ↦ inr (_, rw a refl, no_source url x a)
    | inl (uri, a) ↦ elim (Result-cases (make "parsebin")) [
      | inr (x, b) ↦ inr (_, rw (a, b) refl, no_element _ x b)
      | inl (parsebin, b) ↦ elim (Result-cases (make "rtpopuspay")) [
        | inr (x, c) ↦ inr (_, rw (a, b, c) refl, no_element _ x c)
        | inl (pay, c) ↦
            let sink = E.app_sink "appsink" in
            elim (try_add_lem (uri ∷ parsebin ∷ pay ∷ sink ∷ [])) [
              | inr (e, d, why) ↦ inr (e, rw (a, b, c, d) refl, why)
              | inl (added, d, all, unlinked) ↦
                  elim (try_link_lem (pay ∷ sink ∷ []) added unlinked) [
                    | inr (e, f, why) ↦ inr (e, rw (a, b, c, d, f) refl, why)
                    | inl (pipeline, f, same, joined) ↦ inl (
                      record { pipeline = pipeline; sink_rx = bounded; title = none },
                      rw (a, b, c, d, f) refl,
                      record {
                        uri = uri;
                        parsebin = parsebin;
                        pay = pay;
                        uri_made = a;
                        parsebin_made = b;
                        pay_made = c;
                        added = same ∙ all;
                        joined = joined;
                        queue = refl;
                        untitled = refl;
                      },
                    )
                  ]
            ]
      ]
    ]
  ]

  -- What a pipeline for listeners is: the chain from the appsrc to the sink, each element linked with
  -- the next.
  pub record IsChain (s : DecStreamWithPipeline E) : Type 0 where
    pub jitterbuffer : Element
    pub depay : Element
    pub parse : Element
    pub mux : Element
    pub jitterbuffer_made : make "rtpjitterbuffer" ≡ ok jitterbuffer
    pub depay_made : make "rtpopusdepay" ≡ ok depay
    pub parse_made : make "opusparse" ≡ ok parse
    pub mux_made : make "oggmux" ≡ ok mux
    pub source : s.app_src ≡ E.app_src
    pub chain :
        elements s.pipeline
        ≡ E.app_src ∷ jitterbuffer ∷ depay ∷ parse ∷ mux ∷ E.app_sink "output_sink" ∷ []
    pub joined : links s.pipeline ≡ neighbours (elements s.pipeline)

  chain_lem :
      (jitterbuffer depay parse mux : Element)
      → make "rtpjitterbuffer" ≡ ok jitterbuffer
      → make "rtpopusdepay" ≡ ok depay
      → make "opusparse" ≡ ok parse
      → make "oggmux" ≡ ok mux
      → ((s : DecStreamWithPipeline E) × (create_opus_pipeline E ≡ ok s) × IsChain s)
        ⊎ ((e : Error G) × (create_opus_pipeline E ≡ err e) × IsStepError e)
  unfolding create_opus_pipeline
  chain_lem jitterbuffer depay parse mux a b c d =
      let es = E.app_src ∷ jitterbuffer ∷ depay ∷ parse ∷ mux ∷ E.app_sink "output_sink" ∷ [] in
      elim (try_add_lem es) [
        | inr (e, f, why) ↦ inr (e, rw (a, b, c, d, f) refl, why)
        | inl (added, f, all, unlinked) ↦ elim (try_link_lem es added unlinked) [
          | inr (e, g, why) ↦ inr (e, rw (a, b, c, d, f, g) refl, why)
          | inl (linked, g, same, joined) ↦ elim (Result-cases (E.set_state ready linked).1) [
            | inr (x, h) ↦ inr (_, rw (a, b, c, d, f, g, h) refl, not_ready linked x h)
            | inl (u, h) ↦
                let whole = E.state_elements ready linked ∙ same ∙ all in
                inl (
                  record { pipeline = (E.set_state ready linked).0; app_src = E.app_src },
                  rw (a, b, c, d, f, g, h) refl,
                  record {
                    jitterbuffer = jitterbuffer;
                    depay = depay;
                    parse = parse;
                    mux = mux;
                    jitterbuffer_made = a;
                    depay_made = b;
                    parse_made = c;
                    mux_made = d;
                    source = refl;
                    chain = whole;
                    joined = E.state_links ready linked ∙ joined ∙ ap neighbours (sym whole);
                  },
                )
          ]
        ]
      ]

  create_opus_pipeline_lem :
      ((s : DecStreamWithPipeline E) × (create_opus_pipeline E ≡ ok s) × IsChain s)
      ⊎ ((e : Error G) × (create_opus_pipeline E ≡ err e) × IsStepError e)
  unfolding create_opus_pipeline
  create_opus_pipeline_lem = elim (Result-cases (make "rtpjitterbuffer")) [
    | inr (x, a) ↦ inr (_, rw a refl, no_element _ x a)
    | inl (jitterbuffer, a) ↦ elim (Result-cases (make "rtpopusdepay")) [
      | inr (x, b) ↦ inr (_, rw (a, b) refl, no_element _ x b)
      | inl (depay, b) ↦ elim (Result-cases (make "opusparse")) [
        | inr (x, c) ↦ inr (_, rw (a, b, c) refl, no_element _ x c)
        | inl (parse, c) ↦ elim (Result-cases (make "oggmux")) [
          | inr (x, d) ↦ inr (_, rw (a, b, c, d) refl, no_element _ x d)
          | inl (mux, d) ↦ chain_lem jitterbuffer depay parse mux a b c d
        ]
      ]
    ]
  ]

  -- Where `init_gst` fails, `DecodingBackend::new` panics. Otherwise it returns a pipeline that is the whole chain from
  -- the appsrc to the sink, each element linked with the next, or fails with the error of a step of
  -- GStreamer's.
  pub new_decoding_backend_lem :
      {A : Type 0} (into : Error G → A) (init : Result (Unit {0}) A)
      → let made = new_decoding_backend E into init in
        ((e : A) × (init ≡ err e) × (made ≡ none))
        ⊎ ((init ≡ ok tt)
            × (((s : DecStreamWithPipeline E) × (made ≡ some (ok s)) × IsChain s)
                ⊎ ((e : Error G) × (made ≡ some (err (into e))) × IsStepError e)))
  unfolding new_decoding_backend
  new_decoding_backend_lem into (err e) = inl (e, refl, refl)
  new_decoding_backend_lem into (ok u) = elim create_opus_pipeline_lem [
    | inl (s, made, chain) ↦ inr (refl, inl (s, rw made refl, chain))
    | inr (e, failed, why) ↦ inr (refl, inr (e, rw failed refl, why))
  ]
