-- ===== src/Decoder.antt =====
-- The decoding loop of src/backend/ogg_dec.rs, and `DecodingBackend::run` of src/backend/mod.rs: the
-- packets of the listener are pushed into GStreamer's pipeline until its bus ends the loop, a push
-- fails, or the task is cancelled. The loop runs over the list of what its `select!` takes. The
-- pipeline's output is in Ogg.antt.
pub mod Pushes
pub mod Sources
mod Tests
use p2pradio.Prelude.{
  ℕ, ◌≡◌, Bool, true, false, Option, none, some, List, [], ◌∷◌, ◌++◌, length, Result, ok, err,
  map_err, ◌>>=◌,
}
use p2pradio.Errors.{Foreign, TaskRet}
use p2pradio.Ogg.{FlowError, FlowSuccess, ok_or}
use p2pradio.Encoder.{
  Gst, State, playing, null, MessageView, eos, error, tag, path_or_unknown, ErrorMessage, Error,
  message, state_change, bool_error, flow,
}

-- `gst_app::AppSrc`: `pushed` is all that it has accepted, in order.
pub record AppSrc : Type 1 where
  pub Src : Type 0
  pub push_buffer : List ℕ → Src → Src × Result FlowSuccess FlowError
  pub pushed : Src → List (List ℕ)
  pub push_ok :
      (bytes : List ℕ) (s : Src) (v : FlowSuccess)
      → (push_buffer bytes s).1 ≡ ok v
      → pushed (push_buffer bytes s).0 ≡ pushed s ++ bytes ∷ []
  pub push_err :
      (bytes : List ℕ) (s : Src) (e : FlowError)
      → (push_buffer bytes s).1 ≡ err e
      → pushed (push_buffer bytes s).0 ≡ pushed s

module _ (G : Gst) where
  -- `process_message`
  unfoldable pub process_message : MessageView G → Result Bool (Error G)
  process_message eos = ok true
  process_message (error path e debug) =
      err (message (record { src = path_or_unknown path; error = e; debug = debug }))
  process_message (tag title) = ok false
  process_message MessageView.other = ok false

  -- what the `select!` of `run_loop` takes
  pub data Input : Type 0 where
    bus : MessageView G → Input
    packet : List ℕ → Input
    cancelled : Input

  -- `with_size` returns a buffer or fails; of the buffer, the outer `none` is a failed `get_mut`, the
  -- inner a failed `map_writable`
  module _ (A : AppSrc) (with_size : ℕ → Result (Option (Option (Unit {0}))) G.BoolError) where
    open A use {Src, push_buffer}

    -- room for the bytes, which are then copied
    unfoldable pub new_buffer : List ℕ → Result (Unit {0}) (Error G)
    new_buffer bytes = do
      buffer ← map_err bool_error (with_size (length bytes))
      exclusive ← map_err flow (ok_or buffer FlowError.eos)
      writable ← map_err flow (ok_or exclusive FlowError.error)
      ok tt

    unfoldable pub process_bytes : List ℕ → Src → Src × Result Bool (Error G)
    process_bytes bytes src = elim (new_buffer bytes) [
      | err e ↦ (src, err e)
      | ok ready ↦
          let (src', res) = push_buffer bytes src in
          (src', (do success ← map_err flow res; ok false))
    ]

    unfoldable pub run_loop : Input → Src → Src × Result Bool (Error G)
    run_loop (bus msg) src = (src, process_message msg)
    run_loop (packet bytes) src = process_bytes bytes src
    run_loop cancelled src = (src, ok true)

    -- the loop of `run_dec_stream`, and whether it was left
    unfoldable pub rounds : List Input → Src → Src × Bool
    rounds [] src = (src, false)
    rounds (input ∷ inputs) src = elim (run_loop input src).1 [
      | ok true ↦ ((run_loop input src).0, true)
      | ok false ↦ rounds inputs (run_loop input src).0
      | err e ↦ ((run_loop input src).0, true)
    ]

    -- the appsrc, the states that were set, and the result, if the loop was left
    abbrev pub Outcome : Type 0
    Outcome = Src × List State × Option (Result (Unit {0}) (Error G))

    -- the argument `set` tells what `set_state` returns
    unfoldable pub run_dec_stream :
        (State → Result (Unit {0}) G.StateChangeError) → List Input → Src → Outcome
    run_dec_stream set inputs src = elim (set playing) [
      | err e ↦ (src, playing ∷ [], some (err (state_change e)))
      | ok u ↦ elim (rounds inputs src).1 [
        | false ↦ ((rounds inputs src).0, playing ∷ [], none)
        | true ↦
            ((rounds inputs src).0, playing ∷ null ∷ [], some (map_err state_change (set null)))
      ]
    ]

-- `DecodingBackend::run`: `none` is a cancellation, otherwise what `run_dec_stream` returned
unfoldable pub run :
    (F : Foreign) (G : Gst)
    → (Error G → F.AnyhowError)
    → Option (Result (Unit {0}) (Error G))
    → TaskRet F F.AnyhowError
run F G into none = none
run F G into (some (ok u)) = some (err (F.new_anyhow "Pipeline finished unexpectedly"))
run F G into (some (err e)) = some (err (into e))
