-- ===== src/Encoder.antt =====
-- The encoding backend: src/backend/mod.rs and src/backend/icecast_ogg.rs. GStreamer calls back with
-- samples, its bus yields messages, and two tasks run: `main_loop` on the bus and `msg_loop` from the
-- sample queue and the title to the gossip channel. Each loop runs over the list of what its
-- `select!` takes. What a loop does to the pipeline and to the title is the list of its effects; the
-- pipeline itself is GStreamer's.
pub mod Loops
pub mod Making
mod Tests
use Prim.Native.String.{String}
use p2pradio.Prelude.{
  ℕ, Bool, true, false, Option, none, some, List, [], ◌∷◌, ◌++◌, Result, ok, err, map_err, ◌>>=◌,
  length, ◌==◌, if◌then◌else◌,
}
use p2pradio.Errors.{Foreign, AppError, TaskRet}
use p2pradio.Channel.{Mpsc}
use p2pradio.Codec.{Message, audio_packet, metadata}
use p2pradio.Ogg.{Sample, FlowError, FlowSuccess, flow_ok, read_sample}

-- The types of glib and GStreamer.
pub record Gst : Type 1 where
  pub GlibError : Type 0
  pub StateChangeError : Type 0
  pub BoolError : Type 0

-- `gst::State`, as far as it is set
pub data State : Type 0 where
  playing null ready : State

-- "UNKNOWN"
abbrev pub unknown : List ℕ
unknown = b'U' ∷ b'N' ∷ b'K' ∷ b'N' ∷ b'O' ∷ b'W' ∷ b'N' ∷ []

abbrev pub path_or_unknown : Option (List ℕ) → List ℕ
path_or_unknown none = unknown
path_or_unknown (some path) = path

module _ (G : Gst) where
  open G use {GlibError, StateChangeError, BoolError}

  pub record ErrorMessage : Type 0 where
    pub src : List ℕ
    pub error : GlibError
    pub debug : Option (List ℕ)

  -- `anyhow::Error`, of what the loops of the two backends put into it
  pub data Error : Type 0 where
    message : ErrorMessage → Error
    state_change : StateChangeError → Error
    bool_error : BoolError → Error
    flow : FlowError → Error

  -- `gst::MessageView`: an error has the path of its source, if it has one, and a tag has the title of
  -- its tags
  pub data MessageView : Type 0 where
    eos : MessageView
    error : Option (List ℕ) → GlibError → Option (List ℕ) → MessageView
    tag : Option (List ℕ) → MessageView
    other : MessageView

  pub data Effect : Type 0 where
    set_state : State → Effect
    -- `title_tx.send`; it cannot fail since the stream holds a receiver
    send_title : List ℕ → Effect

  -- `Stream::process_message`
  unfoldable pub process_message : MessageView → List Effect × Result Bool Error
  process_message eos = ([], ok true)
  process_message (error path e debug) =
      ([], err (message (record { src = path_or_unknown path; error = e; debug = debug })))
  process_message (tag (some title)) = (send_title title ∷ [], ok false)
  process_message (tag none) = ([], ok false)
  process_message other = ([], ok false)

  -- what the `select!` of `main_loop` takes
  pub data BusInput : Type 0 where
    bus : MessageView → BusInput
    cancelled : BusInput

  -- the loop of `main_loop`, and whether it was left
  unfoldable pub bus_loop : List BusInput → List Effect × Bool
  bus_loop [] = ([], false)
  bus_loop (cancelled ∷ inputs) = ([], true)
  bus_loop (bus msg ∷ inputs) =
      let (effects, res) = process_message msg in
      let (later, left) = bus_loop inputs in
      elim res [
        | ok true ↦ (effects, true)
        | ok false ↦ (effects ++ later, left)
        | err e ↦ (effects, true)
      ]

  -- `Stream::main_loop`; the argument tells what `set_state` returns. Without a result it still runs.
  unfoldable pub main_loop :
      (State → Result (Unit {0}) StateChangeError)
      → List BusInput
      → List Effect × Option (Result (Unit {0}) Error)
  main_loop set inputs = elim (set playing) [
    | err e ↦ (set_state playing ∷ [], some (err (state_change e)))
    | ok u ↦ elim (bus_loop inputs).1 [
      | false ↦ (set_state playing ∷ (bus_loop inputs).0, none)
      | true ↦ (
        set_state playing ∷ ((bus_loop inputs).0 ++ set_state null ∷ []),
        some (map_err state_change (set null)),
      )
    ]
  ]

-- the `new_sample` callback; `Q` is the bounded channel of flume
module _ (Q : Mpsc (List ℕ)) where
  unfoldable pub sink_sample : Option Sample → Q.Chan → Q.Chan × Result FlowSuccess FlowError
  sink_sample pulled sink_tx = elim (read_sample pulled) [
    | err e ↦ (sink_tx, err e)
    | ok (samples, flag) ↦ elim (Q.send samples sink_tx) [
      | ok tx ↦ (tx, ok flow_ok)
      | err back ↦ (sink_tx, ok flow_ok)
    ]
  ]

  unfoldable pub sink_samples : List (Option Sample) → Q.Chan → Q.Chan
  sink_samples [] tx = tx
  sink_samples (s ∷ samples) tx = sink_samples samples (sink_sample s tx).0

-- what the `select!` of `msg_loop` takes: a buffer, a change of the title, or `else`
pub data Input : Type 0 where
  buffer : List ℕ → Input
  changed : Option (List ℕ) → Input
  closed : Input

module _ (F : Foreign) (M : Mpsc Message) (to_string : Message → String) where
  -- `gossip_tx.send(msg).await`, with the error that `?` returns
  unfoldable pub send_or_other : Message → M.Chan → Result M.Chan (AppError F)
  send_or_other msg tx = elim (M.send msg tx) [
    | ok tx' ↦ ok tx'
    | err back ↦ err (AppError.other (to_string back))
  ]

  -- the task `msg_loop` of `process_url`; without a result it still runs
  unfoldable pub msg_loop : List Input → M.Chan → M.Chan × Option (Result (Unit {0}) (AppError F))
  msg_loop [] tx = (tx, none)
  msg_loop (closed ∷ inputs) tx = (tx, some (ok tt))
  msg_loop (buffer buf ∷ inputs) tx = elim (send_or_other (audio_packet buf) tx) [
    | ok tx' ↦ msg_loop inputs tx'
    | err e ↦ (tx, some (err e))
  ]
  msg_loop (changed none ∷ inputs) tx = msg_loop inputs tx
  msg_loop (changed (some title) ∷ inputs) tx =
      elim (send_or_other (metadata (record { title = title })) tx) [
        | ok tx' ↦ msg_loop inputs tx'
        | err e ↦ (tx, some (err e))
      ]

-- which of the two tasks of `process_url` ended first
pub data Ended : Type 0 where
  msg_loop_ended main_loop_ended : Ended

module _ (F : Foreign) where
  -- `process_url`, and `run`, which awaits it
  unfoldable pub process_url : Ended → Result ⊥ (AppError F)
  process_url msg_loop_ended =
      err (AppError.anyhow (F.new_anyhow "Message loop encoding terminated"))
  process_url main_loop_ended = err (AppError.anyhow (F.new_anyhow "Main loop encoding terminated"))

  unfoldable pub run : Ended → TaskRet F (AppError F)
  run ended = some (process_url ended)

  -- `EncodingBackend::new`, with what `init_gst` and `create_icecast_pipeline` return
  unfoldable pub new :
      {P : Type 0}
      → Result (Unit {0}) F.AnyhowError
      → (List ℕ → Result P F.AnyhowError)
      → List ℕ
      → Result P (AppError F)
  new init create_icecast_pipeline url =
      if length url == 0 then err (AppError.anyhow (F.new_anyhow "Url is empty")) else (do
        initialized ← map_err AppError.anyhow init
        map_err AppError.anyhow (create_icecast_pipeline url))
