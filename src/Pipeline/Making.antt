-- ===== src/Pipeline/Making.antt =====
-- How the pipelines are made: `create_icecast_pipeline` of src/backend/icecast_ogg.rs,
-- `create_opus_pipeline` of src/backend/ogg_dec.rs, and `DecodingBackend::new` of src/backend/mod.rs.
pub mod Linked
mod Tests
use Prim.Native.String.{String}
use p2pradio.Prelude.{
  Bool, ℕ, ◌≡◌, Bool, true, false, Option, none, some, List, [], ◌∷◌, ◌++◌, Result, ok, err,
  map_err, ◌>>=◌,
}
use p2pradio.Channel.{Mpsc}
use p2pradio.Encoder.{Gst, State, ready, Error, bool_error, state_change}

-- the pairs of neighbours
abbrev pub neighbours : {A : Type 0} → List A → List (A × A)
neighbours [] = []
neighbours (x ∷ []) = []
neighbours (x ∷ y ∷ xs) = (x, y) ∷ neighbours (y ∷ xs)

-- GStreamer's elements and pipelines: `elements` and `links` are what was added and linked, in order.
pub record Elements (G : Gst) : Type 1 where
  pub Element : Type 0
  pub Pipeline : Type 0
  -- `gst::Pipeline::default()`
  pub default : Pipeline
  -- `gst::ElementFactory::make` of this name, with its properties, and `build`
  pub make : String → Result Element G.BoolError
  -- urisourcebin, with its property "uri"
  pub make_source : List ℕ → Result Element G.BoolError
  -- `gst_app::AppSrc` and `gst_app::AppSink`, whose builders cannot fail
  pub app_src : Element
  pub app_sink : String → Element
  pub add_many : List Element → Pipeline → Pipeline × Result (Unit {0}) G.BoolError
  pub link_many : List Element → Pipeline → Pipeline × Result (Unit {0}) G.BoolError
  pub set_state : State → Pipeline → Pipeline × Result (Unit {0}) G.StateChangeError
  pub elements : Pipeline → List Element
  pub links : Pipeline → List (Element × Element)
  pub default_elements : elements default ≡ []
  pub default_links : links default ≡ []
  pub add_elements :
      (es : List Element) (p : Pipeline) (u : Unit {0})
      → (add_many es p).1 ≡ ok u
      → elements (add_many es p).0 ≡ elements p ++ es
  pub add_links : (es : List Element) (p : Pipeline) → links (add_many es p).0 ≡ links p
  pub link_elements : (es : List Element) (p : Pipeline) → elements (link_many es p).0 ≡ elements p
  -- Each element is linked with the next one.
  pub link_links :
      (es : List Element) (p : Pipeline) (u : Unit {0})
      → (link_many es p).1 ≡ ok u
      → links (link_many es p).0 ≡ links p ++ neighbours es
  pub state_elements : (s : State) (p : Pipeline) → elements (set_state s p).0 ≡ elements p
  pub state_links : (s : State) (p : Pipeline) → links (set_state s p).0 ≡ links p

module _ {G : Gst} (E : Elements G) where
  open E use {Element, Pipeline, default, make, make_source, add_many, link_many, set_state}

  -- `StreamWithPipeline`: the receiving end of a new queue, and no title yet
  pub record StreamWithPipeline (Q : Mpsc (List ℕ)) : Type 0 where
    pub pipeline : Pipeline
    pub sink_rx : Q.Chan
    pub title : Option (List ℕ)

  -- `add_many(…)?` and `link_many(…)?`
  unfoldable pub try_add : List Element → Pipeline → Result Pipeline (Error G)
  try_add es p = let (p', result) = add_many es p in (do added ← map_err bool_error result; ok p')

  unfoldable pub try_link : List Element → Pipeline → Result Pipeline (Error G)
  try_link es p =
      let (p', result) = link_many es p in (do linked ← map_err bool_error result; ok p')

  -- with a new queue for the samples; the handlers and the callback that are connected here are in
  -- Pipeline.antt and Encoder.antt
  unfoldable pub create_icecast_pipeline :
      (Q : Mpsc (List ℕ)) → Q.Chan → List ℕ → Result (StreamWithPipeline Q) (Error G)
  create_icecast_pipeline Q bounded url = do
    urisourcebin ← map_err bool_error (make_source url)
    parsebin ← map_err bool_error (make "parsebin")
    rtpopuspay ← map_err bool_error (make "rtpopuspay")
    let appsink = E.app_sink "appsink"
    added ← try_add (urisourcebin ∷ parsebin ∷ rtpopuspay ∷ appsink ∷ []) default
    pipeline ← try_link (rtpopuspay ∷ appsink ∷ []) added
    ok (record { pipeline = pipeline; sink_rx = bounded; title = none })

  -- `DecStreamWithPipeline`, of which `parsed_rx` is the channel of Tasks.Listener
  pub record DecStreamWithPipeline : Type 0 where
    pub pipeline : Pipeline
    pub app_src : Element

  -- the callback that is set here is in Ogg.antt
  unfoldable pub create_opus_pipeline : Result DecStreamWithPipeline (Error G)
  create_opus_pipeline = do
    let app_src = E.app_src
    rtpjitterbuffer ← map_err bool_error (make "rtpjitterbuffer")
    rtpopusdepay ← map_err bool_error (make "rtpopusdepay")
    opusparse ← map_err bool_error (make "opusparse")
    oggmux ← map_err bool_error (make "oggmux")
    let outsink = E.app_sink "output_sink"
    let elements = app_src ∷ rtpjitterbuffer ∷ rtpopusdepay ∷ opusparse ∷ oggmux ∷ outsink ∷ []
    added ← try_add elements default
    linked ← try_link elements added
    let (pipeline, result) = set_state ready linked
    done ← map_err state_change result
    ok (record { pipeline = pipeline; app_src = app_src })

  -- `DecodingBackend::new`, with what `init_gst` returned; `into` makes an `anyhow::Error`. The outer
  -- `none` is the panic of `expect`. `create_opus_pipeline` never waits, so that it is done when the
  -- timeout of ten seconds polls it first, and the timeout cannot strike.
  unfoldable pub new_decoding_backend :
      {A : Type 0} → (Error G → A) → Result (Unit {0}) A → Option (Result DecStreamWithPipeline A)
  new_decoding_backend into (err e) = none
  new_decoding_backend into (ok u) = some (map_err into create_opus_pipeline)
