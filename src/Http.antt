-- ===== src/Http.antt =====
-- The HTTP servers of src/rpc/mod.rs: `StreamService`, the two services of Axum with their routers, and
-- how their tasks end. Axum is what serves the routes until it returns, which it does not mean to do.
pub mod Ending
mod Tests
use Prim.Native.String.{String}
use p2pradio.Prelude.{ℕ, Option, none, some, List, [], ◌∷◌, ◌++◌, Result, ok, err}
use p2pradio.Errors.{Foreign, TaskRet, Joined}
use p2pradio.Channel.{Broadcast}

-- the handlers that the routers name
pub data Handler : Type 0 where
  respond_with_metrics stream_handler : Handler

abbrev pub Router : Type 0
Router = List (String × Handler)

-- `Router::route(path, get(handler))`
abbrev pub route : Router → String → Handler → Router
route router path handler = router ++ (path, handler) ∷ []

unfoldable pub metrics_router : Router
metrics_router = route [] "/metrics" respond_with_metrics

-- METRICS_CONTENT_TYPE
abbrev pub metrics_content_type : String
metrics_content_type = "application/openmetrics-text;charset=utf-8;version=1.0.0"

-- `respond_with_metrics`: the status, the content type and the body, of what locking the registry and
-- encoding it return; `none` is a panic of either `unwrap`
unfoldable pub metrics_response :
    {R P E : Type 0} → Result R P → (R → Result (List ℕ) E) → Option (ℕ × String × List ℕ)
metrics_response (err poisoned) encode = none
metrics_response (ok reg) encode = elim (encode reg) [
  | err e ↦ none
  | ok sink ↦ some (200, metrics_content_type, sink)
]

module _ (B : Broadcast (List ℕ)) where
  open B use {Chan}

  -- The cache of headers and the title are shared with the decoder and the bridge.
  pub record StreamService : Type 0 where
    pub headers : List (List ℕ)
    pub dec_tx : Chan
    pub title : List ℕ

  unfoldable pub new : List (List ℕ) → Chan → List ℕ → StreamService
  new headers dec_tx title = record { headers = headers; dec_tx = dec_tx; title = title }

  unfoldable pub get_state : StreamService → List (List ℕ)
  get_state s = s.headers

  unfoldable pub get_dec_tx : StreamService → Chan
  get_dec_tx s = s.dec_tx

  unfoldable pub get_title : StreamService → List ℕ
  get_title s = s.title

  -- `L` is the type of TCP listeners
  pub record AxumServerListenerService (L : Type 0) : Type 0 where
    pub listener : L
    pub router : Router
    pub service : StreamService

  -- `AxumServerListenerService::new`, which cannot fail
  unfoldable pub new_axum_listener :
      {L : Type 0} → L → List (List ℕ) → Chan → List ℕ → Result (AxumServerListenerService L) ⊥
  unfolding new metrics_router
  new_axum_listener listener headers dec_tx title = ok (record {
    listener = listener;
    router = route metrics_router "/stream" stream_handler;
    service = new headers dec_tx title;
  })

pub record AxumServerStreamerService (L : Type 0) : Type 0 where
  pub listener : L
  pub router : Router

-- `AxumServerStreamerService::new`, which cannot fail
unfoldable pub new_axum_streamer : {L : Type 0} → L → Result (AxumServerStreamerService L) ⊥
unfolding metrics_router
new_axum_streamer listener = ok (record { listener = listener; router = metrics_router })

module _ (F : Foreign) where
  -- The `run` of both services. `none` is a cancellation while Axum serves, otherwise what
  -- `axum::serve` returned: `unwrap` panics on an error, `unreachable!` on all else. The outer `none`
  -- of the result is a panic.
  unfoldable pub run_axum : Option (Result (Unit {0}) F.IoError) → Option (TaskRet F ⊥)
  run_axum none = some none
  run_axum (some (err e)) = none
  run_axum (some (ok u)) = none

  -- `tokio::spawn`: awaiting a task that panicked is a `JoinError`
  abbrev pub spawned : {A : Type 0} → F.JoinError → Option A → Joined F A
  spawned panic none = err panic
  spawned panic (some a) = ok a
