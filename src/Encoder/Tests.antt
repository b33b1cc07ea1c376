-- ===== src/Encoder/Tests.antt =====
-- The encoding backend of src/backend/mod.rs and src/backend/icecast_ogg.rs on concrete runs.
use p2pradio.Prelude.{ℕ, ◌≡◌, refl, false, Option, none, some, List, [], ◌∷◌, Result, ok}
use Prim.Native.String.{String}
use p2pradio.Channel.{Mpsc}
use p2pradio.Channel.Logs.{log_mpsc}
use p2pradio.Network.Tables.{texts}
use p2pradio.Codec.{Message}
use p2pradio.Codec.{audio_packet, metadata}
use p2pradio.Ogg.{read_sample, Sample}
use p2pradio.Encoder.{
  msg_loop, send_or_other, sink_samples, sink_sample, Gst, State, playing, null, MessageView, error,
  tag, BusInput, bus, set_state, send_title, main_loop, Input, buffer, changed, closed,
}
use p2pradio.Encoder.Loops.{main_loop_lem}

abbrev G : Gst
G = record { GlibError = ℕ; StateChangeError = ℕ; BoolError = ℕ }

abbrev Q : Mpsc (List ℕ)
Q = log_mpsc (List ℕ)

abbrev M : Mpsc Message
M = log_mpsc Message

-- a song, an unnamed tag, another message, and the loss of the source
abbrev broadcast : List (BusInput G)
broadcast =
    bus (tag (some (65 ∷ [])))
    ∷ bus (tag none)
    ∷ bus MessageView.other
    ∷ bus (error none 7 none)
    ∷ bus (tag (some (66 ∷ [])))
    ∷ []

abbrev willing : State → Result (Unit {0}) ℕ
willing s = ok tt

main_loop_lem_example :
    main_loop G willing broadcast
    ≡ (set_state playing ∷ send_title (65 ∷ []) ∷ set_state null ∷ [], some (ok tt))
main_loop_lem_example = main_loop_lem G willing broadcast refl

abbrev samples : List (Option Sample)
samples =
    some (record { buffer = some (record { content = some (some (1 ∷ [])); header = false }) })
    ∷ some (record { buffer = none })
    ∷ some (record { buffer = some (record { content = some (some (2 ∷ [])); header = false }) })
    ∷ none
    ∷ []

queued : Q.sent (sink_samples Q samples ([], false)) ≡ (1 ∷ []) ∷ (2 ∷ []) ∷ []
unfolding sink_samples sink_sample read_sample
queued = refl

abbrev inputs : List Input
inputs = buffer (1 ∷ []) ∷ changed none ∷ changed (some (65 ∷ [])) ∷ buffer (2 ∷ []) ∷ closed ∷ []

abbrev text : Message → String
text m = "channel closed"

sent_inputs : msg_loop texts M text inputs ([], false) ≡ (
  (
    audio_packet (1 ∷ []) ∷ metadata (record { title = 65 ∷ [] }) ∷ audio_packet (2 ∷ []) ∷ [],
    false,
  ),
  some (ok tt),
)
unfolding msg_loop send_or_other
sent_inputs = refl
