-- ===== src/Stream.antt =====
-- The HTTP audio stream: `stream_handler` and `response_stream` of src/rpc/mod.rs. A request takes a
-- snapshot of the cached headers and subscribes to the live pages in one critical section, under the
-- lock that the muxer holds while it publishes (Ogg.antt), so this is one step. The body is the
-- headers and then the live pages, each passed through the ICY encoder if the request asked for it.
-- axum, hyper and the request's header map are not modelled: a request is its lookup by header name.
pub mod Join
pub mod Body
pub mod Hear
pub mod Handlers
mod Tests
use mathlib.Core.Option
use text.Mathlib.Text.{◌==◌ as str_eq}
use Prim.Native.String.{String}
use p2pradio.Prelude.{
  map_err, ℕ, Bool, true, false, Option, none, some, List, [], ◌∷◌, ◌++◌, if◌then◌else◌, map,
  Result, ok, err,
}
use p2pradio.Channel.{Broadcast}
use p2pradio.Ogg.{Page, Sample, Muxer, new_sample}
use p2pradio.Icy.{IcyEncoder, icy_metaint, new, encode}

-- `headers().get(name)` of a request
abbrev pub Request : Type 0
Request = String → Option String

-- `is_some_and(|value| value == "1")`
unfoldable pub is_one : Option String → Bool
is_one none = false
is_one (some v) = str_eq v "1"

-- the name as `stream_handler` and as `response_stream` write it
unfoldable pub icy_requested : Request → Bool
unfolding is_one
icy_requested req = is_one (req "Icy-MetaData")

unfoldable pub icy_requested_hyper : Request → Bool
unfolding is_one
icy_requested_hyper req = is_one (req "icy-metadata")

-- What the live stream yields: a page, or the error of a receiver that lagged.
pub data StreamError : Type 0 where
  lagged : StreamError

-- What the server adds to the response's header map.
pub record Head : Type 0 where
  pub status : ℕ
  pub content_type : String
  pub metaint : Option ℕ

unfoldable pub response_head : Bool → Head
response_head icy = record {
  status = 200;
  content_type = "audio/ogg";
  metaint = if icy then some icy_metaint else none;
}

-- The closure on one item, with the title that it reads under the title's lock. The outer `none`
-- means that the encoder's loop ran out of fuel.
unfoldable pub frame :
    Bool
    → IcyEncoder
    → Result Page StreamError
    → List ℕ
    → Option (IcyEncoder × Result (List ℕ) StreamError)
frame icy e (err x) title = some (e, err x)
frame true e (ok bytes) title = Option.map (λ r. (r.0, ok r.1)) (encode e bytes title)
frame false e (ok bytes) title = some (e, ok bytes)

-- The closure over the items of the body, each with the title at its time.
unfoldable pub body :
    Bool
    → IcyEncoder
    → List (Result Page StreamError × List ℕ)
    → Option (List (Result (List ℕ) StreamError))
unfolding frame
body icy e [] = some []
body icy e ((item, title) ∷ items) = elim (frame icy e item title) [
  | none ↦ none
  | some (e', f) ↦ Option.map (◌∷◌ f) (body icy e' items)
]

-- The whole response. `IcyEncoder::new` panics on an interval of zero, which `none` stands for.
unfoldable pub respond :
    Bool
    → List (Result Page StreamError × List ℕ)
    → Option (Head × List (Result (List ℕ) StreamError))
unfolding body response_head
respond icy items = elim (new icy_metaint) [
  | none ↦ none
  | some e ↦ Option.map (λ frames. (response_head icy, frames)) (body icy e items)
]

module _ (B : Broadcast Page) where
  open B use {Receiver, subscribe, recv}

  -- A listener: the snapshot and what it has read of the live pages.
  pub record Listener : Type 0 where
    pub snapshot : List Page
    pub rx : Receiver
    pub live : List (Result Page StreamError)

  -- the critical section: `(headers.clone(), dec_tx.subscribe())`
  unfoldable pub join : Muxer B → Muxer B × Listener
  join m =
      let (c, r) = subscribe m.dec_tx in
      (record m { dec_tx = c }, record { snapshot = m.headers; rx = r; live = [] })

  -- What happens after that, in any order: the muxer takes a sample, or the body is polled.
  pub data Event : Type 0 where
    muxed : Option Sample → Event
    polled : Event

  -- one poll of `live`; `context` puts its message in place of the error
  unfoldable pub poll : Muxer B → Listener → Listener
  poll m l = elim (recv m.dec_tx l.rx) [
    | none ↦ l
    | some (item, r) ↦ record l { rx = r; live = l.live ++ map_err (λ n. lagged) item ∷ [] }
  ]

  unfoldable pub step : Event → Muxer B × Listener → Muxer B × Listener
  step (muxed s) (m, l) = ((new_sample B s m).0, l)
  step polled (m, l) = (m, poll m l)

  unfoldable pub run : List Event → Muxer B × Listener → Muxer B × Listener
  run [] s = s
  run (e ∷ events) s = run events (step e s)
